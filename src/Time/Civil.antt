-- ===== src/Time/Civil.antt =====
-- The Gregorian calendar, by itself: what libc/src/localtime.c is measured against.
use tiny_libc.Prelude.{ℕ, zero, suc, ◌+◌, ◌-◌, ◌*◌, ◌/◌, ◌%◌, Bool, true, ◌==◌, ◌&&◌, if◌then◌else◌}
use tiny_libc.Prelude.Int.{ℤ, pos, negsuc, ◌+ℤ◌, ◌-ℤ◌, mul_ℤ}

-- Division rounded down, and its remainder.
abbrev pub floor_ℤ : ℤ → ℕ → ℤ
floor_ℤ (pos a) n = pos (a / n)
floor_ℤ (negsuc a) n = negsuc (a / n)

abbrev pub mod_ℤ : ℤ → ℕ → ℕ
mod_ℤ (pos a) n = a % n
mod_ℤ (negsuc a) n = n - 1 - a % n

-- A year y of the 400 of a cycle, year 0 first.
abbrev pub is_leap : ℕ → Bool
is_leap y = (y % 4 == 0) && (if y % 100 == 0 then y % 400 == 0 else true)

-- The length of the month, January is 0.
abbrev pub month_length : Bool → ℕ → ℕ
month_length leap zero = 31
month_length leap (suc zero) = if leap then 29 else 28
month_length leap (suc (suc zero)) = 31
month_length leap (suc (suc (suc zero))) = 30
month_length leap (suc (suc (suc (suc zero)))) = 31
month_length leap (suc (suc (suc (suc (suc zero))))) = 30
month_length leap (suc (suc (suc (suc (suc (suc zero)))))) = 31
month_length leap (suc (suc (suc (suc (suc (suc (suc zero))))))) = 31
month_length leap (suc (suc (suc (suc (suc (suc (suc (suc zero)))))))) = 30
month_length leap (suc (suc (suc (suc (suc (suc (suc (suc (suc zero))))))))) = 31
month_length leap (suc (suc (suc (suc (suc (suc (suc (suc (suc (suc zero)))))))))) = 30
month_length leap (suc (suc (suc (suc (suc (suc (suc (suc (suc (suc (suc zero))))))))))) = 31
month_length leap _ = 0

-- The days of a year before its m-th month.
abbrev pub days_before : Bool → ℕ → ℕ
days_before leap zero = 0
days_before leap (suc m) = days_before leap m + month_length leap m

-- The leap days of a cycle before its year y.
abbrev pub leap_days : ℕ → ℕ
leap_days zero = 0
leap_days (suc y) = leap_days y + (if is_leap y then 1 else 0)

-- The days from 2000-01-01 to January 1st of a year.
abbrev pub year_start : ℤ → ℤ
year_start year =
    mul_ℤ (floor_ℤ year 400 -ℤ pos 5) (365 * 400 + 97)
    +ℤ pos (365 * mod_ℤ year 400 + leap_days (mod_ℤ year 400))

abbrev pub leap_year : ℤ → Bool
leap_year year = is_leap (mod_ℤ year 400)

-- The days of the year before a day of it.
abbrev pub day_of_year : ℤ → ℕ → ℕ → ℕ
day_of_year year mon mday = days_before (leap_year year) mon + (mday - 1)

-- The days from 2000-01-01 to a date. January is month 0.
abbrev pub day_number : ℤ → ℕ → ℕ → ℤ
day_number year mon mday = year_start year +ℤ pos (day_of_year year mon mday)
