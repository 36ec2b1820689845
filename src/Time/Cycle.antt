-- ===== src/Time/Cycle.antt =====
-- The arithmetic of libc/src/localtime.c within a cycle of 400 years from March 1st on.
use native.Mathlib.Numerals.{add-one}
use tiny_libc.Prelude.{
  ℕ, zero, suc, ◌+◌, ◌-◌, ◌*◌, ◌/◌, ◌≤◌, ◌<◌, ◌≡◌, ◌⊎◌, refl, ap, ◌∙◌, arith, Bool, true, leb,
  if◌then◌else◌, Option, none, some,
}
use tiny_libc.Time.{YearParts, year_parts, days_per_400y, leap, year_day, find_month, days_in_month}
use tiny_libc.Time.Civil.{is_leap, month_length, days_before, leap_days}

-- What the three divisions find.
pub record Parts (d : ℕ) (p : YearParts) : Type 0 where
  pub c_le : p.c_cycles ≤ 3
  pub q_le : p.q_cycles ≤ 24
  pub r_le : p.remyears ≤ 3
  pub total : p.c_cycles * 36524 + p.q_cycles * 1461 + p.remyears * 365 + p.remdays ≡ d
  pub day_le : p.remdays ≤ 365
  pub last_day : p.remdays ≡ 365 → (p.remyears ≡ 3) × (p.q_cycles ≡ 24 → p.c_cycles ≡ 3)

pub year_parts-Parts : (d : ℕ) → d < days_per_400y → Parts d (year_parts d)
unfolding year_parts
year_parts-Parts d h = ground arith

-- The year of a cycle, from the March with which it begins.
abbrev pub march_year : YearParts → ℕ
march_year p = p.remyears + 4 * p.q_cycles + 100 * p.c_cycles

pub leap_days-closed : (y : ℕ) → leap_days y + (y + 99) / 100 ≡ (y + 3) / 4 + (y + 399) / 400
leap_days-closed zero = refl
leap_days-closed (suc y) = ground (arith, leap_days-closed y)

pub leap_days-add-one : (y : ℕ) → leap_days (y + 1) ≡ leap_days y + (if is_leap y then 1 else 0)
leap_days-add-one y = rw (add-one y)

-- The flag `leap` is the leap rule for the calendar year in which the March year begins.
pub leap-is_leap :
    (d : ℕ) (p : YearParts) → Parts d p → leap p ≡ (if is_leap (march_year p) then 1 else 0)
leap-is_leap d p v = ground (arith, v.c_le, v.q_le, v.r_le)

-- A day 365 of a March year is the February 29th of a leap year.
pub last-is_leap :
    (d : ℕ) (p : YearParts) → Parts d p → p.remdays ≡ 365 → is_leap (march_year p + 1) ≡ true
last-is_leap d p v e = ground (arith, v.c_le, v.q_le, v.r_le, v.last_day e)

pub march_year-lt : (d : ℕ) (p : YearParts) → Parts d p → march_year p < 400
march_year-lt d p v = omega (arith, v.c_le, v.q_le, v.r_le)

-- The day of the cycle, by the years before it and their leap days (year 0 begins before the cycle).
pub day-of-cycle :
    (d : ℕ) (p : YearParts)
    → Parts d p
    → 365 * march_year p + leap_days (march_year p + 1) + p.remdays ≡ d + 1
day-of-cycle d p v =
    omega (arith, v.c_le, v.q_le, v.r_le, v.total, leap_days-closed (march_year p + 1))

-- What the loop finds: a month m from March on, and a day of it. With b the leap rule of the year in
-- which the March year begins and b' that of the next, the day of the calendar year is as many days
-- behind January 1st as the months before it have, and it lies in its month.
abbrev pub IsMonth : ℕ → Bool → Bool → Option (ℕ × ℕ) → Type 0
IsMonth rem b b' none = ⊥
IsMonth rem b b' (some (m, d)) =
    ((m ≤ 9)
      × (rem < 306)
      × (days_before b (m + 2) + d ≡ rem + 59 + (if b then 1 else 0))
      × (d < month_length b (m + 2)))
    ⊎ ((10 ≤ m)
        × (m ≤ 11)
        × (days_before b' (m - 10) + d + 306 ≡ rem)
        × (d < month_length b' (m - 10)))

pub find_month-IsMonth :
    (rem : ℕ) (b b' : Bool)
    → rem ≤ 365
    → (rem ≡ 365 → b' ≡ true)
    → IsMonth rem b b' (find_month days_in_month 0 rem)
unfolding find_month
find_month-IsMonth rem b b' h last = ground arith

early_day :
    (r l : ℕ)
    → r < 306
    → (if leb (365 + l) (r + 31 + 28 + l) then r + 31 + 28 + l - (365 + l) else r + 31 + 28 + l)
      ≡ r + 59 + l
early_day r l h = ground arith

late_day :
    (r l : ℕ)
    → 306 ≤ r
    → (if leb (365 + l) (r + 31 + 28 + l) then r + 31 + 28 + l - (365 + l) else r + 31 + 28 + l)
        + 306
      ≡ r
late_day r l h = ground arith

-- The day of the calendar year, before and from January 1st on.
pub year_day-early :
    (d : ℕ) (p : YearParts)
    → Parts d p
    → p.remdays < 306
    → year_day p ≡ p.remdays + 59 + (if is_leap (march_year p) then 1 else 0)
year_day-early d p v h =
    early_day p.remdays (leap p) h ∙ ap (λ l. p.remdays + 59 + l) (leap-is_leap d p v)

pub year_day-late : (p : YearParts) → 306 ≤ p.remdays → year_day p + 306 ≡ p.remdays
year_day-late p h = late_day p.remdays (leap p) h
