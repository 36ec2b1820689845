-- ===== src/Pthread/Mutex/Safety.antt =====
-- What the lock of libc/src/pthread/mutex.c guarantees in every reachable state.
use tiny_libc.Prelude.{ℕ, ◌≡◌, inl, inr, arith, Bool, true, false}
use tiny_libc.Pthread.Mutex.{Pc, idle, waiting, sleeping, System, is_sleeping, Reach}
use tiny_libc.Pthread.Mutex.Invariant.{owns, Reach-Inv}

-- In every reachable state, two threads that own the lock are the same thread.
pub mutual_exclusion :
    {s : System} → Reach s → (i j : ℕ) → owns (s.pc i) ≡ true → owns (s.pc j) ≡ true → i ≡ j
mutual_exclusion r i j = (Reach-Inv r).unique i j

-- A thread that can go on without a wake-up: one that holds the lock, or one in a call that is
-- neither asleep nor about to go to sleep.
abbrev pub is_running : Pc → Bool
is_running idle = false
is_running (waiting _) = false
is_running (sleeping _) = false
is_running _ = true

-- No wake-up is lost: in every reachable state where a thread sleeps on the lock, some thread is
-- running.
pub no_lost_wakeup :
    {s : System}
    → Reach s
    → (i : ℕ) → is_sleeping (s.pc i) ≡ true
    → (j : ℕ) × (is_running (s.pc j) ≡ true)
no_lost_wakeup {s} r i h = elim (heard i h) [
  | inl contended ↦ let (j, o) = owned (ground arith) in (j, ground arith)
  | inr (j, alert) ↦ (j, ground arith)
]
  where
    open (Reach-Inv r) use {heard, owned}
