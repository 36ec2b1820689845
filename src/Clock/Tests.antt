-- ===== src/Clock/Tests.antt =====
-- Runs of the waits and clocks, and the theorems at concrete times.
use tiny_libc.Prelude.{ℕ, ◌+◌, ◌*◌, ◌<◌, ◌≡◌, ◌⊎◌, refl, some}
use tiny_libc.Prelude.Int.{pos, ◌+ℤ◌, ◌-ℤ◌, ◌≤ℤ◌}
use tiny_libc.Clock.{Timespec, timed_out, waits, undefined, wait_abs, wait_timeout}
use tiny_libc.Clock.Deadline.{nanoseconds, wait_abs-IsExact}

-- Two and a half seconds after 1970.
abbrev deadline : Timespec
deadline = record { tv_sec = pos 2; tv_nsec = pos 500000000 }

half_a_second : wait_abs (some deadline) (pos 2000000000) ≡ waits (some (0, 500000000))
unfolding wait_abs wait_timeout ◌+ℤ◌ ◌-ℤ◌
half_a_second = refl

-- A deadline in the year 2300: the product is over 64 bits.
far_deadline :
    wait_abs (some (record { tv_sec = pos 10413792000; tv_nsec = pos 0 })) (pos 0) ≡ undefined
unfolding wait_abs wait_timeout ◌+ℤ◌ ◌-ℤ◌
far_deadline = refl

wait_abs-IsExact_example :
    ((wait_abs (some deadline) (pos 7) ≡ timed_out) × (nanoseconds deadline ≤ℤ pos 7))
    ⊎ ((s n : ℕ) × (wait_abs (some deadline) (pos 7) ≡ waits (some (s, n)))
        × (n < 1000000000)
        × (pos 7 +ℤ pos (s * 1000000000 + n) ≡ nanoseconds deadline))
unfolding ◌+ℤ◌
wait_abs-IsExact_example = wait_abs-IsExact deadline (pos 7) refl refl
