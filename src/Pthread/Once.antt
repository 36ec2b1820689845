-- ===== src/Pthread/Once.antt =====
-- libc/src/pthread/once.c: `pthread_once` as a step relation on the word and the threads.
pub mod Safety
mod Tests
use tiny_libc.Prelude.{ℕ, suc, ◌+◌, ◌≡◌, ◌≢◌, Bool, true, false, ◌==◌, if◌then◌else◌}

abbrev pub uninitialized : ℕ
uninitialized = 0

abbrev pub pending : ℕ
pending = 1

abbrev pub initialized : ℕ
initialized = 2

-- Where a thread stands.
pub data Caller : Type 0 where
  outside : Caller  -- before a call
  running : Caller  -- in `init_routine`
  waking : Caller  -- before `__wake`
  waiting : Caller  -- before `__wait`
  asleep : Caller  -- queued by the kernel
  returned : Caller  -- after a call

-- One step of a thread on the word `w`, which may start `init_routine`. The kernel puts a thread to
-- sleep only if the word is still PENDING; `spurious` says whether it may wake one by itself.
pub data Act (spurious : Bool) (w : ℕ) : Caller → ℕ → ℕ → Caller → Type 0 where
  first : w ≡ uninitialized → Act spurious w outside pending 1 running
  store : Act spurious w running initialized 0 waking
  join : w ≡ pending → Act spurious w outside w 0 waiting
  skip : w ≢ uninitialized → w ≢ pending → Act spurious w outside w 0 returned
  sleep : w ≡ pending → Act spurious w waiting w 0 asleep
  changed : w ≢ pending → Act spurious w waiting w 0 returned
  wake_up : spurious ≡ true → Act spurious w asleep w 0 returned
  call_again : Act spurious w returned w 0 outside

-- The word, the calls of `init_routine` so far, and an unbounded number of threads.
pub record State : Type 0 where
  pub word : ℕ
  pub runs : ℕ
  pub caller : ℕ → Caller

abbrev pub put_caller : (ℕ → Caller) → ℕ → Caller → ℕ → Caller
put_caller callers i p j = if j == i then p else callers j

-- `__wake(once_ctrl, INT32_MAX)` wakes all that sleep.
abbrev pub woken : Caller → Caller
woken asleep = returned
woken p = p

pub data Next (spurious : Bool) (s : State) : State → Type 0 where
  act :
      (i : ℕ) {w n : ℕ} {p : Caller}
      → Act spurious s.word (s.caller i) w n p
      → Next spurious s (record { word = w; runs = s.runs + n; caller = put_caller s.caller i p })
  wake_all :
      (i : ℕ)
      → s.caller i ≡ waking
      → Next spurious s (record {
        word = s.word;
        runs = s.runs;
        caller = put_caller (λ j. woken (s.caller j)) i returned;
      })

-- `PTHREAD_ONCE_INIT`
abbrev pub fresh : State
fresh = record { word = uninitialized; runs = 0; caller = λ _. outside }

pub data Run (spurious : Bool) : State → Type 0 where
  start : Run spurious fresh
  later : {s t : State} → Run spurious s → Next spurious s t → Run spurious t
