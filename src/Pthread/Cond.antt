-- ===== src/Pthread/Cond.antt =====
-- libc/src/pthread/cond.c: condition variables as a step relation on the word and the threads. What the
-- mutex does in a wait is left open here: its calls return at any time.
pub mod Signals
mod Tests
use tiny_libc.Prelude.{ℕ, suc, ◌+◌, ◌%◌, ◌≡◌, ◌≢◌, Bool, true, false, ◌==◌, if◌then◌else◌}

-- Where a thread stands, `value` being the local variable of `pthread_cond_timedwait`.
pub data Waiter : Type 0 where
  outside : Waiter  -- in no call
  loaded : (timed : Bool) → (value : ℕ) → Waiter  -- before `pthread_mutex_unlock`
  unlocked : (timed : Bool) → (value : ℕ) → Waiter  -- before `__wait_abs`
  asleep : (timed : Bool) → (value : ℕ) → Waiter  -- queued by the kernel
  relocking : Waiter  -- before `pthread_mutex_lock`
  waking : (all : Bool) → Waiter  -- before `__wake`, of a signal or a broadcast

-- One step of a thread on the word `w`. `atomic_fetch_or(cond, 1)` adds 1 to an even word.
pub data WaiterMove (w : ℕ) : Waiter → ℕ → Waiter → Type 0 where
  load : {timed : Bool} → WaiterMove w outside w (loaded timed w)
  unlock : {timed : Bool} {v : ℕ} → WaiterMove w (loaded timed v) w (unlocked timed v)
  time_out : {timed : Bool} {v : ℕ} → timed ≡ true → WaiterMove w (unlocked timed v) w outside
  sleep : {timed : Bool} {v : ℕ} → w ≡ v → WaiterMove w (unlocked timed v) w (asleep timed v)
  changed : {timed : Bool} {v : ℕ} → w ≢ v → WaiterMove w (unlocked timed v) w relocking
  wake_up : {timed : Bool} {v : ℕ} → WaiterMove w (asleep timed v) w relocking
  relock : WaiterMove w relocking w outside
  signal : {all : Bool} → w % 2 ≡ 0 → WaiterMove w outside (w + 1) (waking all)
  signal_again : w % 2 ≢ 0 → WaiterMove w outside w outside

-- The word and an unbounded number of threads.
pub record CondState : Type 0 where
  pub word : ℕ
  pub waiter : ℕ → Waiter

abbrev pub put_waiter : (ℕ → Waiter) → ℕ → Waiter → ℕ → Waiter
put_waiter waiters i p j = if j == i then p else waiters j

abbrev pub roused : Waiter → Waiter
roused (asleep timed v) = relocking
roused p = p

pub data CondStep (s : CondState) : CondState → Type 0 where
  move :
      (i : ℕ) {w : ℕ} {p : Waiter}
      → WaiterMove s.word (s.waiter i) w p
      → CondStep s (record { word = w; waiter = put_waiter s.waiter i p })
  wake_one :
      (i j : ℕ) {timed : Bool} {v : ℕ}
      → s.waiter i ≡ waking false
      → s.waiter j ≡ asleep timed v
      → CondStep s (record {
        word = s.word;
        waiter = put_waiter (put_waiter s.waiter i outside) j relocking;
      })
  wake_none :
      (i : ℕ)
      → s.waiter i ≡ waking false
      → ((j : ℕ) → roused (s.waiter j) ≡ s.waiter j)
      → CondStep s (record { word = s.word; waiter = put_waiter s.waiter i outside })
  wake_all :
      (i : ℕ)
      → s.waiter i ≡ waking true
      → CondStep s
          (record { word = s.word; waiter = put_waiter (λ j. roused (s.waiter j)) i outside })

-- `PTHREAD_COND_INITIALIZER` and `pthread_cond_init`.
abbrev pub no_waiters : CondState
no_waiters = record { word = 0; waiter = λ _. outside }

-- Any number of steps.
pub data CondRun (s : CondState) : CondState → Type 0 where
  stay : CondRun s s
  then_step : {t u : CondState} → CondRun s t → CondStep t u → CondRun s u
