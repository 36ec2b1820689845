-- ===== src/Pthread/Mutex/Tests.antt =====
-- A run of two threads on the lock of libc/src/pthread/mutex.c, and the theorems at it.
use tiny_libc.Prelude.{ℕ, ◌≡◌, ◌≢◌, refl, arith, true, false}
use tiny_libc.Pthread.Mutex.{
  System, move, call_lock, busy, announce, sleep, try_lock, Reach, start, later,
}
use tiny_libc.Pthread.Mutex.Safety.{mutual_exclusion, is_running, no_lost_wakeup}

one-ne-zero : ◌≢◌ {A = ℕ} 1 0
one-ne-zero e = absurd (omega arith)

one-ne-two : ◌≢◌ {A = ℕ} 1 2
one-ne-two e = absurd (omega arith)

abbrev Run : Type 0
Run = (s : System) × Reach s

-- Thread 0 takes the free lock.
abbrev taken : Run
taken = (_, later start (move 0 (try_lock refl)))

-- Thread 1 finds it busy, announces itself, and sleeps.
abbrev asleep : Run
asleep = (
  _,
  later
      (later
        (later (later taken.1 (move 1 (call_lock {timed = false})))
          (move 1 (busy {timed = false} one-ne-zero)))
        (move 1 (announce {timed = false} one-ne-two refl)))
      (move 1 (sleep {timed = false} refl)),
)

mutual_exclusion_example : ◌≡◌ {A = ℕ} 0 0
mutual_exclusion_example = mutual_exclusion asleep.1 0 0 refl refl

no_lost_wakeup_example : (j : ℕ) × (is_running (asleep.0.pc j) ≡ true)
no_lost_wakeup_example = no_lost_wakeup asleep.1 1 refl
