-- ===== src/Start/Tests.antt =====
-- A run of a program from libc/src/entrypoint.c, and the theorem at it.
use mathlib.Core.List.{reverse}
use tiny_libc.Prelude.{ℕ, ◌≡◌, refl, Bool, true, false, none, some, List, [], ◌∷◌, ◌++◌, map}
use tiny_libc.Start.{
  called, main_called, flushed_stdout, flushed_stderr, exited, Linked, call_weak, register, start,
  exit, initializer, finalizer,
}
use tiny_libc.Start.Order.{entries, registered, start-ordered}

abbrev linked : Linked
linked = record {
  preinit_array = none;
  init_array = some (1 ∷ 10 ∷ 11 ∷ []);
  fini_array = some (20 ∷ 21 ∷ 0 ∷ []);
  init = some 5;
  fini = none;
}

-- Two handlers, and one that got no memory between them.
abbrev handlers : List (Bool × ℕ)
handlers = (true, 30) ∷ (false, 31) ∷ (true, 32) ∷ []

whole_run :
    start linked (register handlers []) 3
    ≡ called 5
      ∷ called 10
      ∷ called 11
      ∷ main_called
      ∷ called 32
      ∷ called 30
      ∷ called 21
      ∷ called 20
      ∷ flushed_stdout
      ∷ flushed_stderr
      ∷ exited 3
      ∷ []
unfolding start exit initializer finalizer
whole_run = refl

start-ordered_example :
    start linked (register handlers []) 3
    ≡ (map called (entries linked.preinit_array)
        ++ (call_weak linked.init ++ map called (entries linked.init_array)))
      ++ main_called
        ∷ (map called (reverse (registered handlers))
            ++ ((reverse (map called (entries linked.fini_array))
                  ++ (call_weak linked.fini ++ flushed_stdout ∷ flushed_stderr ∷ []))
                ++ exited 3 ∷ []))
start-ordered_example = start-ordered linked handlers 3
