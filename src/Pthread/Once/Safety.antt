-- ===== src/Pthread/Once/Safety.antt =====
-- What `pthread_once` of libc/src/pthread/once.c guarantees in every reachable state.
use tiny_libc.Prelude.{
  ℕ, ◌+◌, ◌≤◌, ◌≡◌, ◌≢◌, ◌⊎◌, inl, inr, refl, arith, Bool, true, false, Bool-cases, ◌==◌, ==_iff,
}
use tiny_libc.Pthread.Once.{
  Caller, outside, running, waking, waiting, asleep, returned, Act, first, store, join, skip, sleep,
  changed, wake_up, call_again, State, pending, initialized, uninitialized, put_caller, woken, Next,
  act, wake_all, Run, start, later,
}

-- What the place of a thread says of the word.
abbrev pub Tells : Bool → Caller → ℕ → Type 0
Tells spurious outside w = Unit
Tells spurious running w = w ≡ pending
Tells spurious waking w = w ≡ initialized
Tells spurious waiting w = w ≢ uninitialized
Tells spurious asleep w = w ≢ uninitialized
Tells spurious returned w = (spurious ≡ true) ⊎ (w ≡ initialized)

abbrev pub is_running : Caller → Bool
is_running running = true
is_running _ = false

-- The word goes from 0 to 1 with the one call of `init_routine`, and on to 2.
abbrev Ran : ℕ → ℕ → Type 0
Ran w runs = ((w ≡ 0) × (runs ≡ 0)) ⊎ ((1 ≤ w) × (w ≤ 2) × (runs ≡ 1))

record Inv (spurious : Bool) (w runs : ℕ) (callers : ℕ → Caller) : Type 0 where
  ran : Ran w runs
  unique : (i j : ℕ) → is_running (callers i) ≡ true → is_running (callers j) ≡ true → i ≡ j
  tells : (i : ℕ) → Tells spurious (callers i) w

Ran-Act :
    {spurious : Bool} {w w' n : ℕ} {p p' : Caller} (runs : ℕ)
    → Act spurious w p w' n p'
    → Ran w runs
    → Tells spurious p w
    → Ran w' (runs + n)
Ran-Act runs (first e) r t = ground arith
Ran-Act runs store r t = ground arith
Ran-Act runs _ r t = ground arith

Tells-self :
    {spurious : Bool} {w w' n : ℕ} {p p' : Caller} (runs : ℕ)
    → Act spurious w p w' n p'
    → Ran w runs
    → Tells spurious p w
    → Tells spurious p' w'
Tells-self runs (first e) r t = refl
Tells-self runs store r t = refl
Tells-self runs (join e) r t = omega arith
Tells-self runs (skip ne ne') r t = inr (omega arith)
Tells-self runs (sleep e) r t = t
Tells-self runs (changed ne) r t = inr (omega arith)
Tells-self runs (wake_up e) r t = inl e
Tells-self runs call_again r t = tt

-- What another thread tells stays true, unless both run `init_routine`.
Tells-other :
    {spurious : Bool} {w w' n : ℕ} {p p' : Caller}
    → Act spurious w p w' n p'
    → Tells spurious p w
    → (q : Caller) → (is_running p ≡ true → is_running q ≡ false)
    → Tells spurious q w
    → Tells spurious q w'
Tells-other (first e) t outside alone u = tt
Tells-other (first e) t _ alone u = ground arith
Tells-other store t outside alone u = tt
Tells-other store t running alone u = absurd (ground (arith, alone refl))
Tells-other store t _ alone u = ground arith
Tells-other _ t q alone u = u

-- A thread that begins to run finds that nobody does.
gains :
    {spurious : Bool} {w w' n : ℕ} {p p' : Caller}
    → Act spurious w p w' n p'
    → is_running p' ≡ true
    → w ≡ uninitialized
gains (first e) h = e
gains _ h = cc

running_pending :
    (spurious : Bool) {w : ℕ} (q : Caller) → is_running q ≡ true → Tells spurious q w → w ≡ pending
running_pending spurious running h t = t
running_pending spurious _ h t = absurd (ground arith)

module _ {spurious : Bool} {w runs : ℕ} {callers : ℕ → Caller}
    (inv : Inv spurious w runs callers) where
  open inv use {ran, unique, tells}

  -- A thread that runs `init_routine` is the only one.
  alone : (i j : ℕ) → i ≢ j → is_running (callers i) ≡ true → is_running (callers j) ≡ false
  alone i j ne h = elim (Bool-cases (is_running (callers j))) [
    | inl r ↦ absurd (ne (unique i j h r))
    | inr r ↦ r
  ]

  Inv-act :
      (i : ℕ) {w' n : ℕ} {p : Caller}
      → Act spurious w (callers i) w' n p
      → Inv spurious w' (runs + n) (put_caller callers i p)
  Inv-act i {w'} {n} {p} a = record {
    ran = Ran-Act runs a ran (tells i);
    unique = λ j k hj hk. elim (Bool-cases (j == i)) [
      | inl ej ↦ elim (Bool-cases (k == i)) [
        | inl ek ↦ omega (arith, (==_iff j i).0 ej, (==_iff k i).0 ek)
        | inr nk ↦ absurd (clash (rw ej at hj) k (rw nk at hk))
      ]
      | inr nj ↦ elim (Bool-cases (k == i)) [
        | inl ek ↦ absurd (clash (rw ek at hk) j (rw nj at hj))
        | inr nk ↦ unique j k (rw nj at hj) (rw nk at hk)
      ]
    ];
    tells = λ j. elim (Bool-cases (j == i)) [
      | inl e ↦ rw e (Tells-self runs a ran (tells i))
      | inr ne ↦
          rw ne
            (Tells-other a (tells i) (callers j) (alone i j (λ e. ground (arith, ne, e))) (tells j))
    ];
  }
    where
      clash : is_running p ≡ true → (k : ℕ) → is_running (callers k) ≡ true → ⊥
      clash h k hk = omega (arith, gains a h, running_pending spurious (callers k) hk (tells k))

  Tells-woken : (q : Caller) → w ≡ initialized → Tells spurious q w → Tells spurious (woken q) w
  Tells-woken asleep e t = inr e
  Tells-woken _ e t = t

  is_running-woken : (q : Caller) → is_running (woken q) ≡ true → is_running q ≡ true
  is_running-woken running h = refl
  is_running-woken _ h = absurd (ground arith)

  Inv-wake_all :
      (i : ℕ)
      → callers i ≡ waking
      → Inv spurious w runs (put_caller (λ j. woken (callers j)) i returned)
  Inv-wake_all i e = record {
    ran = ran;
    unique = λ j k hj hk. elim (Bool-cases (j == i)) [
      | inl ej ↦ absurd (ground (arith, rw ej at hj))
      | inr nj ↦ elim (Bool-cases (k == i)) [
        | inl ek ↦ absurd (ground (arith, rw ek at hk))
        | inr nk ↦
            unique j k (is_running-woken (callers j) (rw nj at hj))
              (is_running-woken (callers k) (rw nk at hk))
      ]
    ];
    tells = λ j. elim (Bool-cases (j == i)) [
      | inl ej ↦ rw ej (inr done)
      | inr nj ↦ rw nj (Tells-woken (callers j) done (tells j))
    ];
  }
    where
      done : w ≡ initialized
      done = rw e at (tells i)

Next-Inv :
    {spurious : Bool} {s t : State}
    → Next spurious s t
    → Inv spurious s.word s.runs s.caller
    → Inv spurious t.word t.runs t.caller
Next-Inv (act i a) inv = Inv-act inv i a
Next-Inv (wake_all i e) inv = Inv-wake_all inv i e

Run-Inv : {spurious : Bool} {s : State} → Run spurious s → Inv spurious s.word s.runs s.caller
Run-Inv start = record {
  ran = inl (refl, refl);
  unique = λ i j p q. absurd (ground (arith, p));
  tells = λ i. tt;
}
Run-Inv (later r st) = Next-Inv st (Run-Inv r)

-- In every reachable state `init_routine` has been called once at most.
pub runs_once : {spurious : Bool} {s : State} → Run spurious s → s.runs ≤ 1
runs_once r = ground (arith, (Run-Inv r).ran)

-- If the kernel wakes no thread by itself, then in every reachable state where a thread has returned
-- from `pthread_once`, `init_routine` has been called and has returned: the word is INITIALIZED and
-- the calls are one.
pub returned-initialized :
    {s : State}
    → Run false s
    → (i : ℕ) → s.caller i ≡ returned
    → (s.word ≡ initialized) × (s.runs ≡ 1)
returned-initialized {s = s} r i e = ground (arith, (Run-Inv r).ran, told)
  where
    told : (false ≡ true) ⊎ (s.word ≡ initialized)
    told = rw e at ((Run-Inv r).tells i)
