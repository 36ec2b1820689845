-- ===== src/Pthread/Once/Tests.antt =====
-- Runs of libc/src/pthread/once.c, and the theorems in a state that they reach.
use tiny_libc.Prelude.{◌≤◌, ◌≡◌, refl, true, false}
use tiny_libc.Pthread.Once.{
  State, first, join, sleep, wake_up, store, pending, initialized, returned, act, wake_all, Run,
  start, later,
}
use tiny_libc.Pthread.Once.Safety.{runs_once, returned-initialized}

-- Thread 0 runs the routine while thread 1 sleeps.
abbrev both : (s : State) × Run false s
both = (
  _,
  later (later (later (later start (act 0 (first refl))) (act 1 (join refl))) (act 1 (sleep refl)))
      (act 0 store),
)

abbrev ended : (s : State) × Run false s
ended = (_, later both.1 (wake_all 0 refl))

-- A thread that the kernel wakes by itself returns while the routine is still running.
too_early : (s : State) × Run true s × (s.caller 1 ≡ returned) × (s.word ≡ pending)
too_early = (
  _,
  later (later (later (later start (act 0 (first refl))) (act 1 (join refl))) (act 1 (sleep refl)))
      (act 1 (wake_up refl)),
  refl,
  refl,
)

runs_once_example : ended.0.runs ≤ 1
runs_once_example = runs_once ended.1

returned-initialized_example : (ended.0.word ≡ initialized) × (ended.0.runs ≡ 1)
returned-initialized_example = returned-initialized ended.1 1 refl
