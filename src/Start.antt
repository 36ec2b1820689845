-- ===== src/Start.antt =====
-- libc/src/entrypoint.c: the functions that run before and after main. A function is the number of its
-- address, and what it does is not modelled, only that it is called.
pub mod Order
mod Tests
use tiny_libc.Prelude.{
  ℕ, zero, suc, Bool, ◌==◌, ◌||◌, if◌then◌else◌, Option, none, some, List, [], ◌∷◌, ◌++◌, length,
  get_or,
}

-- What a run of the program is seen to do.
pub data Event : Type 0 where
  called : ℕ → Event
  main_called : Event
  flushed_stdout : Event
  flushed_stderr : Event
  exited : ℕ → Event

-- The arrays and functions that the linker may define.
pub record Linked : Type 0 where
  pub preinit_array : Option (List ℕ)
  pub init_array : Option (List ℕ)
  pub fini_array : Option (List ℕ)
  pub init : Option ℕ
  pub fini : Option ℕ

-- `if (*p_fn != (fn)0 && *p_fn != (fn)1) (*p_fn)()`
abbrev pub call_entry : ℕ → List Event
call_entry f = if f == 0 || f == 1 then [] else called f ∷ []

-- From the first entry to the last.
abbrev pub call_up : List ℕ → List Event
call_up [] = []
call_up (f ∷ fs) = call_entry f ++ call_up fs

-- The n entries before a place, from the last to the first.
abbrev pub call_down : ℕ → List ℕ → List Event
call_down zero fs = []
call_down (suc n) fs = call_entry (get_or fs n 0) ++ call_down n fs

abbrev pub call_array : Option (List ℕ) → List Event
call_array none = []
call_array (some fs) = call_up fs

abbrev pub call_array_down : Option (List ℕ) → List Event
call_array_down none = []
call_array_down (some fs) = call_down (length fs) fs

-- `if (_init) _init()`
abbrev pub call_weak : Option ℕ → List Event
call_weak none = []
call_weak (some f) = called f ∷ []

unfoldable pub initializer : Linked → List Event
initializer l = call_array l.preinit_array ++ (call_weak l.init ++ call_array l.init_array)

unfoldable pub finalizer : Linked → List Event
finalizer l =
    call_array_down l.fini_array ++ (call_weak l.fini ++ flushed_stdout ∷ flushed_stderr ∷ [])

-- `atexit`, with whether `malloc` returned an entry: the list, and whether the result is 0.
abbrev pub atexit : Bool → ℕ → List ℕ → Bool × List ℕ
atexit allocated func at_exit_list =
    if allocated then (allocated, func ∷ at_exit_list) else (allocated, at_exit_list)

-- `while (at_exit_list)`
abbrev pub call_list : List ℕ → List Event
call_list [] = []
call_list (func ∷ next) = called func ∷ call_list next

-- The handlers run with at_exit_mutex held, so that none of them registers another. That each entry is
-- freed behind its call is no event.
unfoldable pub exit : Linked → List ℕ → ℕ → List Event
exit l at_exit_list status = call_list at_exit_list ++ (finalizer l ++ exited status ∷ [])

-- `_start`, where main returns a status and has registered a list.
unfoldable pub start : Linked → List ℕ → ℕ → List Event
start l at_exit_list status = initializer l ++ main_called ∷ exit l at_exit_list status

-- `abort`
abbrev pub abort : Linked → List ℕ → List Event
abort l at_exit_list = exit l at_exit_list 137

-- The calls of `atexit` in their order, with whether each got memory.
abbrev pub register : List (Bool × ℕ) → List ℕ → List ℕ
register [] at_exit_list = at_exit_list
register ((allocated, func) ∷ calls) at_exit_list =
    register calls (atexit allocated func at_exit_list).1
