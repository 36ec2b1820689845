-- ===== src/Start/Order.antt =====
-- The order of the functions that run before and after main, in libc/src/entrypoint.c.
use mathlib.Core.List.{reverse, reverse_aux, append_assoc, reverse-append, append-nil}
use tiny_libc.Prelude.{
  ℕ, zero, suc, ◌≡◌, refl, ap, ◌∙◌, sym, ◌≤◌, ◌<◌, arith, Bool-cases, inl, inr, Bool, true, false,
  ◌==◌, ◌||◌, if◌then◌else◌, Option, none, some, List, [], ◌∷◌, ◌++◌, length, get_or, map, take,
  take-all,
}
use tiny_libc.Start.{
  called, main_called, flushed_stdout, flushed_stderr, exited, Linked, call_entry, call_up,
  call_down, call_list, call_array, call_array_down, call_weak, register, initializer, finalizer,
  exit, start,
}

-- The functions of the calls that got memory.
abbrev pub registered : List (Bool × ℕ) → List ℕ
registered [] = []
registered ((true, func) ∷ calls) = func ∷ registered calls
registered ((false, func) ∷ calls) = registered calls

-- The entries that are functions.
abbrev pub functions : List ℕ → List ℕ
functions [] = []
functions (f ∷ fs) = if f == 0 || f == 1 then functions fs else f ∷ functions fs

register-eq-reverse :
    (calls : List (Bool × ℕ)) (fs : List ℕ) → register calls fs ≡ reverse_aux (registered calls) fs
register-eq-reverse [] fs = refl
register-eq-reverse ((true, func) ∷ calls) fs = register-eq-reverse calls (func ∷ fs)
register-eq-reverse ((false, func) ∷ calls) fs = register-eq-reverse calls fs

call_list-eq-map : (fs : List ℕ) → call_list fs ≡ map called fs
call_list-eq-map [] = refl
call_list-eq-map (f ∷ fs) = ap (λ es. called f ∷ es) (call_list-eq-map fs)

call_up-eq-map : (fs : List ℕ) → call_up fs ≡ map called (functions fs)
call_up-eq-map [] = refl
call_up-eq-map (f ∷ fs) = elim (Bool-cases (f == 0 || f == 1)) [
  | inl skip ↦ rw skip (call_up-eq-map fs)
  | inr entry ↦ rw entry (ap (λ es. called f ∷ es) (call_up-eq-map fs))
]

call_up-append : (xs ys : List ℕ) → call_up (xs ++ ys) ≡ call_up xs ++ call_up ys
call_up-append [] ys = refl
call_up-append (x ∷ xs) ys =
    ap (λ es. call_entry x ++ es) (call_up-append xs ys)
    ∙ sym (append_assoc (call_entry x) (call_up xs) (call_up ys))

reverse-call_entry : (f : ℕ) → reverse (call_entry f) ≡ call_entry f
reverse-call_entry f = elim (Bool-cases (f == 0 || f == 1)) [
  | inl skip ↦ rw skip
  | inr entry ↦ rw entry
]

take-snoc :
    (n : ℕ) (fs : List ℕ) → n < length fs → take (suc n) fs ≡ take n fs ++ get_or fs n 0 ∷ []
take-snoc n [] lt = absurd (omega arith)
take-snoc zero (f ∷ fs) lt = refl
take-snoc (suc n) (f ∷ fs) lt = ap (λ xs. f ∷ xs) (take-snoc n fs (omega arith))

call_down-eq-reverse :
    (n : ℕ) (fs : List ℕ) → n ≤ length fs → call_down n fs ≡ reverse (call_up (take n fs))
call_down-eq-reverse zero fs le = refl
call_down-eq-reverse (suc n) fs le = rw (
  call_down-eq-reverse n fs (omega arith),
  take-snoc n fs le,
  call_up-append (take n fs) (get_or fs n 0 ∷ []),
  reverse-append (call_up (take n fs)) (call_entry (get_or fs n 0) ++ []),
  append-nil (call_entry (get_or fs n 0)),
  reverse-call_entry (get_or fs n 0),
)

-- The functions of an array that the linker may leave out.
abbrev pub entries : Option (List ℕ) → List ℕ
entries none = []
entries (some fs) = functions fs

call_array-eq-map : (a : Option (List ℕ)) → call_array a ≡ map called (entries a)
call_array-eq-map none = refl
call_array-eq-map (some fs) = call_up-eq-map fs

call_array_down-eq-reverse :
    (a : Option (List ℕ)) → call_array_down a ≡ reverse (map called (entries a))
call_array_down-eq-reverse none = refl
call_array_down-eq-reverse (some fs) =
    call_down-eq-reverse (length fs) fs (omega arith)
    ∙ rw (take-all fs) (ap reverse (call_up-eq-map fs))

-- Before main run the functions of the two arrays of initializers, with `_init` between, each array from its
-- first entry on. After it run the handlers that atexit registered, each once and the last one first; then
-- the finalizers from the last entry on, and `_fini`; then the two streams are flushed and the program
-- exits with the status of main. Entries that are 0 or 1, and handlers that got no memory, are left out.
pub start-ordered :
    (l : Linked) (calls : List (Bool × ℕ)) (status : ℕ)
    → start l (register calls []) status
      ≡ (map called (entries l.preinit_array)
          ++ (call_weak l.init ++ map called (entries l.init_array)))
        ++ main_called
          ∷ (map called (reverse (registered calls))
              ++ ((reverse (map called (entries l.fini_array))
                    ++ (call_weak l.fini ++ flushed_stdout ∷ flushed_stderr ∷ []))
                  ++ exited status ∷ []))
unfolding start exit initializer finalizer
start-ordered l calls status = rw (
  call_array-eq-map l.preinit_array,
  call_array-eq-map l.init_array,
  register-eq-reverse calls [],
  call_list-eq-map (reverse_aux (registered calls) []),
  call_array_down-eq-reverse l.fini_array,
)
