-- ===== src/Clock.antt =====
-- The clocks and the waits with a deadline: libc/src/time.c, libc/src/pthread/futex.h, and `__unixtime_nsec`
-- and `__wait` of libc/arch/x86_64-linux.c. What the kernel's clock says is a parameter.
pub mod Deadline
mod Tests
use tiny_libc.Prelude.{
  ℕ, ◌+◌, ◌*◌, ◌/◌, ◌%◌, ◌^◌, Bool, ◌&&◌, ltb, leb, if◌then◌else◌, Option, none, some,
}
use tiny_libc.Prelude.Int.{ℤ, pos, pos_part, neg_part, ◌+ℤ◌, ◌-ℤ◌, mul_ℤ, quot_ℤ, rem_ℤ, ltb_ℤ}

-- `struct timespec`
pub record Timespec : Type 0 where
  pub tv_sec : ℤ
  pub tv_nsec : ℤ

-- `struct timeval`
pub record Timeval : Type 0 where
  pub sec : ℤ
  pub tv_usec : ℤ

-- `__unixtime_nsec`, from what the kernel stores in `ts`.
pub unixtime_nsec : Timespec → ℤ
unixtime_nsec ts = mul_ℤ ts.tv_sec 1000000000 +ℤ ts.tv_nsec

-- The number of nanoseconds since 1970 is an argument.
unfoldable pub clock_gettime : ℤ → Timespec
clock_gettime ts = record { tv_sec = quot_ℤ ts 1000000000; tv_nsec = rem_ℤ ts 1000000000 }

unfoldable pub gettimeofday : ℤ → Timeval
gettimeofday ts =
    let tp = clock_gettime ts in record { sec = tp.tv_sec; tv_usec = quot_ℤ tp.tv_nsec 1000 }

-- What `__wait` gives the kernel as its timeout: none, or seconds and nanoseconds.
unfoldable pub wait_timeout : ℕ → Option (ℕ × ℕ)
wait_timeout timeout_nsec =
    if ltb 0 timeout_nsec then some (timeout_nsec / 1000000000, timeout_nsec % 1000000000) else none

-- What `__wait_abs` does: it returns ETIMEDOUT at once, or calls `__wait`. `undefined` is an overflow of
-- an `int64_t`.
pub data WaitCall : Type 0 where
  timed_out : WaitCall
  undefined : WaitCall
  waits : Option (ℕ × ℕ) → WaitCall

-- The nanoseconds of the deadline are computed in 64 bits.
abbrev pub fits_int64 : ℤ → Bool
fits_int64 z = ltb (pos_part z) (2 ^ 63) && leb (neg_part z) (2 ^ 63)

unfoldable pub wait_abs : Option Timespec → ℤ → WaitCall
wait_abs none now = waits (wait_timeout 0)
wait_abs (some abstime) now =
    let secs = mul_ℤ abstime.tv_sec 1000000000 in
    let abstime_nsec = secs +ℤ abstime.tv_nsec in
    let reltime_nsec = abstime_nsec -ℤ now in
    if fits_int64 secs && fits_int64 abstime_nsec
    then if ltb_ℤ (pos 0) reltime_nsec
      then waits (wait_timeout (pos_part reltime_nsec))
      else timed_out
    else undefined
