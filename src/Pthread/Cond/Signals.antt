-- ===== src/Pthread/Cond/Signals.antt =====
-- What becomes of the signals of libc/src/pthread/cond.c.
use tiny_libc.Prelude.{
  ℕ, ◌+◌, ◌%◌, ◌≡◌, ◌⊎◌, inl, inr, refl, ◌∙◌, arith, Bool, true, false, Bool-cases, ◌==◌,
}
use tiny_libc.Pthread.Cond.{
  Waiter, outside, loaded, unlocked, asleep, relocking, waking, WaiterMove, load, unlock, time_out,
  sleep, changed, wake_up, relock, signal, signal_again, CondState, put_waiter, roused, CondStep,
  move, wake_one, wake_none, wake_all, no_waiters, CondRun, stay, then_step,
}

abbrev pub is_waking : Waiter → Bool
is_waking (waking _) = true
is_waking _ = false

-- The word is odd, and no thread is about to call `__wake`.
abbrev pub IsSpent : ℕ → CondState → Type 0
IsSpent w s = (s.word ≡ w) × ((i : ℕ) → is_waking (s.waiter i) ≡ false)

IsSpent-move :
    {w w' : ℕ} {p p' : Waiter}
    → WaiterMove w p w' p'
    → w % 2 ≡ 1
    → is_waking p ≡ false
    → (w' ≡ w) × (is_waking p' ≡ false)
IsSpent-move (signal e) odd h = absurd (omega arith)
IsSpent-move _ odd h = (refl, refl)

IsSpent-step : {s t : CondState} (w : ℕ) → w % 2 ≡ 1 → CondStep s t → IsSpent w s → IsSpent w t
IsSpent-step {s = s} w odd (move i m) (e, none) =
    let (same, quiet) = IsSpent-move m (rw e odd) (none i) in
    (same ∙ e, λ j. elim (Bool-cases (j == i)) [ inl ej ↦ rw ej quiet | inr nj ↦ rw nj (none j) ])
IsSpent-step w odd (wake_one i j e e') (same, none) = absurd (ground (arith, none i, e))
IsSpent-step w odd (wake_none i e still) (same, none) = absurd (ground (arith, none i, e))
IsSpent-step w odd (wake_all i e) (same, none) = absurd (ground (arith, none i, e))

-- Once the word is odd and the wake-up of its signal is over, no later signal or broadcast ever wakes a
-- thread: whatever steps follow, the word stays as it is, and no thread comes to call `__wake`.
pub signals_lost : {s t : CondState} (w : ℕ) → w % 2 ≡ 1 → CondRun s t → IsSpent w s → IsSpent w t
signals_lost w odd stay h = h
signals_lost w odd (then_step r st) h = IsSpent-step w odd st (signals_lost w odd r h)

-- The value that a waiting thread goes by is the word, or the word before its one signal.
abbrev pub Current : ℕ → Waiter → Type 0
Current w (loaded timed v) = (w ≡ v) ⊎ ((v % 2 ≡ 0) × (w ≡ v + 1))
Current w (unlocked timed v) = (w ≡ v) ⊎ ((v % 2 ≡ 0) × (w ≡ v + 1))
Current w (asleep timed v) = (w ≡ v) ⊎ ((v % 2 ≡ 0) × (w ≡ v + 1))
Current w _ = Unit

Current-self : {w w' : ℕ} {p p' : Waiter} → WaiterMove w p w' p' → Current w p → Current w' p'
Current-self load c = inl refl
Current-self unlock c = c
Current-self (time_out e) c = tt
Current-self (sleep e) c = c
Current-self (changed ne) c = tt
Current-self wake_up c = tt
Current-self relock c = tt
Current-self (signal e) c = tt
Current-self (signal_again e) c = tt

Current-signal : (w : ℕ) (q : Waiter) → w % 2 ≡ 0 → Current w q → Current (w + 1) q
Current-signal w (loaded timed v) e c = ground arith
Current-signal w (unlocked timed v) e c = ground arith
Current-signal w (asleep timed v) e c = ground arith
Current-signal w outside e c = tt
Current-signal w relocking e c = tt
Current-signal w (waking all) e c = tt

Current-other :
    {w w' : ℕ} {p p' : Waiter} → WaiterMove w p w' p' → (q : Waiter) → Current w q → Current w' q
Current-other {w = w} (signal e) q c = Current-signal w q e c
Current-other _ q c = c

Current-roused : (w : ℕ) (q : Waiter) → Current w q → Current w (roused q)
Current-roused w (asleep timed v) c = tt
Current-roused w _ c = c

AllCurrent : CondState → Type 0
AllCurrent s = (i : ℕ) → Current s.word (s.waiter i)

Current-put :
    (w : ℕ) (waiters : ℕ → Waiter) (i : ℕ) (p : Waiter)
    → ((j : ℕ) → Current w (waiters j))
    → Current w p
    → (j : ℕ) → Current w (put_waiter waiters i p j)
Current-put w waiters i p all c j = elim (Bool-cases (j == i)) [
  | inl e ↦ rw e c
  | inr ne ↦ rw ne (all j)
]

AllCurrent-step : {s t : CondState} → CondStep s t → AllCurrent s → AllCurrent t
unfolding AllCurrent
AllCurrent-step {s = s} (move i {w = w} {p = p} m) all =
    Current-put w s.waiter i p (λ j. Current-other m (s.waiter j) (all j)) (Current-self m (all i))
AllCurrent-step {s = s} (wake_one i j e e') all =
    Current-put s.word (put_waiter s.waiter i outside) j relocking
      (Current-put s.word s.waiter i outside all tt) tt
AllCurrent-step {s = s} (wake_none i e still) all = Current-put s.word s.waiter i outside all tt
AllCurrent-step {s = s} (wake_all i e) all =
    Current-put s.word (λ j. roused (s.waiter j)) i outside
      (λ j. Current-roused s.word (s.waiter j) (all j)) tt

AllCurrent-run : {t : CondState} → CondRun no_waiters t → AllCurrent t
unfolding AllCurrent
AllCurrent-run stay = λ i. tt
AllCurrent-run (then_step r st) = AllCurrent-step st (AllCurrent-run r)

-- In every state that is reached from a new condition variable, the value that a thread loaded in its
-- wait is the word, or it is even and the word is one more.
pub value-Current : {t : CondState} → CondRun no_waiters t → (i : ℕ) → Current t.word (t.waiter i)
unfolding AllCurrent
value-Current r = AllCurrent-run r
