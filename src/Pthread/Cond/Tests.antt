-- ===== src/Pthread/Cond/Tests.antt =====
-- A run of libc/src/pthread/cond.c, and the theorems at it.
use tiny_libc.Prelude.{ℕ, ◌≢◌, refl, arith, true, false}
use tiny_libc.Pthread.Cond.{
  CondState, no_waiters, CondRun, stay, then_step, move, wake_all, load, unlock, sleep, signal,
  signal_again,
}
use tiny_libc.Pthread.Cond.Signals.{IsSpent, signals_lost, Current, value-Current}

-- Thread 0 broadcasts while nobody waits; the word is odd from then on.
abbrev signalled : (s : CondState) × CondRun no_waiters s
signalled = (_, then_step (then_step stay (move 0 (signal {all = true} refl))) (wake_all 0 refl))

one-ne-zero : ◌≢◌ {A = ℕ} 1 0
one-ne-zero e = absurd (omega arith)

-- Thread 1 waits and sleeps, and thread 0 signals again.
abbrev unheard : (s : CondState) × CondRun signalled.0 s
unheard = (
  _,
  then_step
      (then_step
        (then_step (then_step stay (move 1 (load {timed = false})))
          (move 1 (unlock {timed = false})))
        (move 1 (sleep {timed = false} refl)))
      (move 0 (signal_again one-ne-zero)),
)

signalled-IsSpent : IsSpent 1 signalled.0
signalled-IsSpent = (refl, λ i. ground arith)

signals_lost_example : IsSpent 1 unheard.0
signals_lost_example = signals_lost 1 refl unheard.1 signalled-IsSpent

-- Thread 1 waits on a new condition variable, and sleeps.
abbrev waits : (s : CondState) × CondRun no_waiters s
waits = (
  _,
  then_step
      (then_step (then_step stay (move 1 (load {timed = false}))) (move 1 (unlock {timed = false})))
      (move 1 (sleep {timed = false} refl)),
)

value-Current_example : Current 0 (waits.0.waiter 1)
value-Current_example = value-Current waits.1 1
