-- ===== src/Pthread/Mutex.antt =====
-- libc/src/pthread/mutex.c: the lock as a step relation on the word and the threads.
pub mod Invariant
pub mod Safety
mod Tests
use tiny_libc.Prelude.{ℕ, ◌+◌, ◌-◌, ◌%◌, ◌^◌, ◌≡◌, ◌≢◌, Bool, true, false, ◌==◌, if◌then◌else◌}

abbrev pub unlocked : ℕ
unlocked = 0

abbrev pub locked_no_wait : ℕ
locked_no_wait = 1

abbrev pub locked_wait : ℕ
locked_wait = 2

-- Where a thread stands. `timed` says whether `abstime` is not null (`pthread_mutex_lock` passes
-- null), and `c` is the local variable of `pthread_mutex_timedlock`.
pub data Pc : Type 0 where
  idle : Pc  -- in no call, and not the owner
  locking : (timed : Bool) → Pc  -- before the first compare-exchange
  contended : (timed : Bool) → (c : ℕ) → Pc  -- at the head of the `do` loop
  waiting : (timed : Bool) → Pc  -- before `__wait_abs`
  sleeping : (timed : Bool) → Pc  -- queued by the kernel
  retry : (timed : Bool) → Pc  -- before the compare-exchange of the `while`
  holding : Pc  -- after a call that returned 0
  storing : Pc  -- in `pthread_mutex_unlock`, before the store
  waking : Pc  -- before `__wake`

-- `atomic_fetch_sub(mutex, 1)` on a `uint32_t`.
abbrev pub decrement : ℕ → ℕ
decrement w = (w + 2 ^ 32 - 1) % 2 ^ 32

-- One step of a thread on the word `w`. The kernel puts a thread to sleep only if the word is still
-- LOCKED_WAIT, and may wake it at any time; a weak compare-exchange may fail at any time.
pub data Move (w : ℕ) : Pc → ℕ → Pc → Type 0 where
  call_lock : {timed : Bool} → Move w idle w (locking timed)
  acquire : {timed : Bool} → w ≡ unlocked → Move w (locking timed) locked_no_wait holding
  busy : {timed : Bool} → w ≢ unlocked → Move w (locking timed) w (contended timed w)
  waiters_known :
      {timed : Bool} {c : ℕ} → c ≡ locked_wait → Move w (contended timed c) w (waiting timed)
  announce :
      {timed : Bool} {c : ℕ}
      → c ≢ locked_wait
      → w ≡ locked_no_wait
      → Move w (contended timed c) locked_wait (waiting timed)
  announced :
      {timed : Bool} {c : ℕ}
      → c ≢ locked_wait
      → w ≢ locked_no_wait
      → w ≢ unlocked
      → Move w (contended timed c) w (waiting timed)
  freed :
      {timed : Bool} {c : ℕ}
      → c ≢ locked_wait
      → w ≡ unlocked
      → Move w (contended timed c) w (retry timed)
  time_out : {timed : Bool} → timed ≡ true → Move w (waiting timed) w idle
  sleep : {timed : Bool} → w ≡ locked_wait → Move w (waiting timed) w (sleeping timed)
  changed : {timed : Bool} → w ≢ locked_wait → Move w (waiting timed) w (retry timed)
  wake_up : {timed : Bool} → Move w (sleeping timed) w (retry timed)
  take_over : {timed : Bool} → w ≡ unlocked → Move w (retry timed) locked_wait holding
  lose : {timed : Bool} → Move w (retry timed) w (contended timed w)
  try_lock : w ≡ unlocked → Move w idle locked_no_wait holding
  try_busy : w ≢ unlocked → Move w idle w idle
  unlock : w ≡ locked_no_wait → Move w holding (decrement w) idle
  unlock_waiters : w ≢ locked_no_wait → Move w holding (decrement w) storing
  release : Move w storing unlocked waking

-- The word and the threads, an unbounded number of them.
pub record System : Type 0 where
  pub word : ℕ
  pub pc : ℕ → Pc

abbrev pub update : (ℕ → Pc) → ℕ → Pc → ℕ → Pc
update pc i p j = if j == i then p else pc j

abbrev pub is_sleeping : Pc → Bool
is_sleeping (sleeping _) = true
is_sleeping _ = false

-- `__wake(mutex, 1)` takes one thread out of the kernel's queue, if there is one.
pub data Step (s : System) : System → Type 0 where
  move :
      (i : ℕ) {w : ℕ} {p : Pc}
      → Move s.word (s.pc i) w p
      → Step s (record { word = w; pc = update s.pc i p })
  wake_one :
      (i j : ℕ) {timed : Bool}
      → s.pc i ≡ waking
      → s.pc j ≡ sleeping timed
      → Step s (record { word = s.word; pc = update (update s.pc i idle) j (retry timed) })
  wake_none :
      (i : ℕ)
      → s.pc i ≡ waking
      → ((j : ℕ) → is_sleeping (s.pc j) ≡ false)
      → Step s (record { word = s.word; pc = update s.pc i idle })

-- `PTHREAD_MUTEX_INITIALIZER` and `pthread_mutex_init`.
abbrev pub init : System
init = record { word = unlocked; pc = λ _. idle }

pub data Reach : System → Type 0 where
  start : Reach init
  later : {s t : System} → Reach s → Step s t → Reach t
