-- ===== src/Clock/Deadline.antt =====
-- The time that a wait with a deadline lasts, and the parts of a time.
use tiny_libc.Prelude.{
  ℕ, ◌+◌, ◌*◌, ◌/◌, ◌%◌, ◌≤◌, ◌<◌, ◌≡◌, ◌⊎◌, inl, inr, refl, arith, Bool-cases, true, false, lt→ltb,
  some,
}
use tiny_libc.Prelude.Int.{
  ℤ, pos, negsuc, pos_part, neg_part, ◌+ℤ◌, ◌-ℤ◌, ◌≤ℤ◌, mul_ℤ, ltb_ℤ, eq_of_parts, quot_ℤ, rem_ℤ,
  +ℤ_parts, -ℤ_parts,
}
use tiny_libc.Clock.{
  Timespec, clock_gettime, gettimeofday, wait_timeout, timed_out, waits, fits_int64, wait_abs,
}

-- A deadline in nanoseconds.
abbrev pub nanoseconds : Timespec → ℤ
nanoseconds t = mul_ℤ t.tv_sec 1000000000 +ℤ t.tv_nsec

positive : (z : ℤ) → ltb_ℤ (pos 0) z ≡ true → (n : ℕ) × (z ≡ pos n) × (0 < n)
positive (pos n) h = (n, refl, ground arith)
positive (negsuc n) h = absurd (ground arith)

not_positive : (z : ℤ) → ltb_ℤ (pos 0) z ≡ false → pos_part z ≤ neg_part z
not_positive (pos n) h = ground arith
not_positive (negsuc n) h = omega arith

sub_back : (d now : ℤ) (n : ℕ) → d -ℤ now ≡ pos n → now +ℤ pos n ≡ d
sub_back d now n e =
    eq_of_parts (now +ℤ pos n) d (omega (arith, +ℤ_parts now (pos n), rw e at (-ℤ_parts d now)))

not_later : (d now : ℤ) → ltb_ℤ (pos 0) (d -ℤ now) ≡ false → d ≤ℤ now
not_later d now h = omega (arith, not_positive (d -ℤ now) h, -ℤ_parts d now)

quot_pos : (n k : ℕ) → quot_ℤ (pos n) k ≡ pos (n / k)
quot_pos n k = ground arith

rem_pos : (n k : ℕ) → rem_ℤ (pos n) k ≡ pos (n % k)
rem_pos n k = ground arith

-- A wait with a deadline whose nanoseconds fit 64 bits is refused when the deadline has passed, and else lasts, in seconds and
-- nanoseconds of less than one second, exactly the time from now to the deadline.
pub wait_abs-IsExact :
    (abstime : Timespec) (now : ℤ)
    → fits_int64 (mul_ℤ abstime.tv_sec 1000000000) ≡ true
    → fits_int64 (nanoseconds abstime) ≡ true
    → ((wait_abs (some abstime) now ≡ timed_out) × (nanoseconds abstime ≤ℤ now))
      ⊎ ((s n : ℕ) × (wait_abs (some abstime) now ≡ waits (some (s, n)))
          × (n < 1000000000)
          × (now +ℤ pos (s * 1000000000 + n) ≡ nanoseconds abstime))
unfolding wait_abs wait_timeout
wait_abs-IsExact abstime now small fits =
    rw (small, fits)
      (elim (Bool-cases (ltb_ℤ (pos 0) rel)) [
        | inl later ↦
            let p = positive rel later in
            let total : p.0 / 1000000000 * 1000000000 + p.0 % 1000000000 ≡ p.0 = omega arith in
            inr (
              p.0 / 1000000000,
              p.0 % 1000000000,
              rw (later, p.1, lt→ltb 0 p.0 p.2),
              omega arith,
              rw total (sub_back deadline now p.0 p.1),
            )
        | inr passed ↦ inl (rw passed, not_later deadline now passed)
      ])
  where
    deadline : ℤ
    deadline = nanoseconds abstime

    rel : ℤ
    rel = deadline -ℤ now

-- For a time that is not before 1970, the seconds and nanoseconds of clock_gettime make up the time, and
-- gettimeofday gives the same seconds and the whole microseconds of the rest.
pub clock_gettime-gettimeofday :
    (n : ℕ)
    → (s ns : ℕ) × (clock_gettime (pos n) ≡ record { tv_sec = pos s; tv_nsec = pos ns })
      × (s * 1000000000 + ns ≡ n)
      × (ns < 1000000000)
      × (gettimeofday (pos n) ≡ record { sec = pos s; tv_usec = pos (ns / 1000) })
unfolding clock_gettime gettimeofday
clock_gettime-gettimeofday n = (
  n / 1000000000,
  n % 1000000000,
  rw (quot_pos n 1000000000, rem_pos n 1000000000),
  omega arith,
  omega arith,
  rw (quot_pos n 1000000000, rem_pos n 1000000000, quot_pos (n % 1000000000) 1000),
)
