-- ===== src/Time/Correct.antt =====
-- `__secs_to_tm` of libc/src/localtime.c against the calendar.
use tiny_libc.Prelude.{
  ℕ, ◌+◌, ◌-◌, ◌*◌, ◌/◌, ◌%◌, ◌≤◌, ◌<◌, ◌≡◌, inl, inr, refl, sym, ap, ◌∙◌, subst, arith, true,
  false, Bool-cases, ◌||◌, ℕ_discrete, lt→leb-false, le→leb, if◌then◌else◌, Option, none, some,
}
use tiny_libc.Prelude.Int.{
  IsInt, int_of_small, ℤ, pos, negsuc, ◌+ℤ◌, ◌-ℤ◌, ◌≤ℤ◌, mul_ℤ, ltb_ℤ, int_laws,
}
use tiny_libc.Time.{
  Tm, Result, converted, overflow, stuck, leapoch, YearParts, year_parts, int_max, year_day, split,
  find_month, days_in_month, years_of, store_fields, finish, with_month, from_days, secs_to_tm,
}
use tiny_libc.Time.Civil.{
  floor_ℤ, mod_ℤ, is_leap, month_length, days_before, leap_days, leap_year, day_of_year, day_number,
}
use tiny_libc.Time.Cycle.{
  Parts, year_parts-Parts, march_year, march_year-lt, last-is_leap, day-of-cycle, leap_days-closed,
  leap_days-add-one, year_day-early, year_day-late, IsMonth, find_month-IsMonth,
}

split-146097 : (a : ℤ) → split a 146097 ≡ (floor_ℤ a 146097, mod_ℤ a 146097)
unfolding split ◌-ℤ◌ ◌+ℤ◌
split-146097 (pos a) = ground arith
split-146097 (negsuc a) = ground arith

split-86400 : (a : ℤ) → split a 86400 ≡ (floor_ℤ a 86400, mod_ℤ a 86400)
unfolding split ◌-ℤ◌ ◌+ℤ◌
split-86400 (pos a) = ground arith
split-86400 (negsuc a) = ground arith

split-7 : (a : ℤ) → (split a 7).1 ≡ mod_ℤ a 7
unfolding split ◌-ℤ◌ ◌+ℤ◌
split-7 (pos a) = ground arith
split-7 (negsuc a) = ground arith

-- The year y of the cycle c, counted from the cycle of 2000.
place :
    (c : ℤ) (y : ℕ)
    → y < 400
    → let year = mul_ℤ (c +ℤ pos 5) 400 +ℤ pos y in
      (floor_ℤ year 400 -ℤ pos 5 ≡ c) × (mod_ℤ year 400 ≡ y)
unfolding ◌-ℤ◌ ◌+ℤ◌
place (pos c) y h = ground arith
place (negsuc c) y h = ground arith

-- The date that lies `dd` days into the month `mon` of that year.
placed_day :
    (c : ℤ) (y mon dd : ℕ)
    → y < 400
    → day_number (mul_ℤ (c +ℤ pos 5) 400 +ℤ pos y) mon (dd + 1)
      ≡ mul_ℤ c 146097 +ℤ pos (365 * y + leap_days y) +ℤ pos (days_before (is_leap y) mon + dd)
placed_day c y mon dd h =
    let (cycle, year) = place c y h in let e : dd + 1 - 1 ≡ dd = omega arith in rw (cycle, year, e)

-- `t` is the date `days` behind 2000-01-01.
pub record IsDate (days : ℤ) (t : Tm) : Type 0 where
  pub day : days ≡ day_number (pos 1900 +ℤ t.tm_year) t.tm_mon t.tm_mday
  pub month_in : t.tm_mon ≤ 11
  pub day_pos : 1 ≤ t.tm_mday
  pub day_in : t.tm_mday ≤ month_length (leap_year (pos 1900 +ℤ t.tm_year)) t.tm_mon
  pub year_day : t.tm_yday ≡ day_of_year (pos 1900 +ℤ t.tm_year) t.tm_mon t.tm_mday

-- The time of day, in seconds.
pub record IsClock (secs : ℕ) (t : Tm) : Type 0 where
  pub total : 3600 * t.tm_hour + 60 * t.tm_min + t.tm_sec ≡ secs
  pub minutes : t.tm_min < 60
  pub seconds : t.tm_sec < 60

-- The year of the date, counted from 1900, is no `int`.
pub record IsOutOfRange (days : ℤ) : Type 0 where
  pub year : ℤ
  pub mon : ℕ
  pub mday : ℕ
  pub day : days ≡ day_number (pos 1900 +ℤ year) mon mday
  pub month_in : mon ≤ 11
  pub day_pos : 1 ≤ mday
  pub day_in : mday ≤ month_length (leap_year (pos 1900 +ℤ year)) mon
  pub no_int : (ltb_ℤ (pos int_max) year || ltb_ℤ year (negsuc int_max)) ≡ true

-- What a result may be for the date `days` behind 2000-01-01 and the time `secs`.
abbrev pub Good : ℤ → ℕ → ℕ → Result → Type 0
Good days wday secs (converted t) =
    IsDate days t × IsInt t.tm_year × IsClock secs t × (t.tm_wday ≡ wday)
Good days wday secs overflow = IsOutOfRange days
Good days wday secs stuck = ⊥

fits-IsInt : (z : ℤ) → (ltb_ℤ (pos int_max) z || ltb_ℤ z (negsuc int_max)) ≡ false → IsInt z
fits-IsInt (pos n) h = (ground (arith, h), ground arith)
fits-IsInt (negsuc n) h = (ground arith, ground (arith, h))

-- The fields that the end of the function stores, for the year y of the cycle c.
module _ (c years : ℤ) (y mon dd wday yday secs : ℕ) (lt : y < 400)
    (year_is : pos 1900 +ℤ (years +ℤ pos 100) ≡ mul_ℤ (c +ℤ pos 5) 400 +ℤ pos y)
    (yday_is : yday ≡ days_before (is_leap y) mon + dd) (mon_in : mon ≤ 11)
    (day_in : dd < month_length (is_leap y) mon) where
  abbrev days_of : ℤ
  days_of = mul_ℤ c 146097 +ℤ pos (365 * y + leap_days y) +ℤ pos (days_before (is_leap y) mon + dd)

  abbrev tm_of : Tm
  tm_of = record {
    tm_sec = secs % 60;
    tm_min = secs / 60 % 60;
    tm_hour = secs / 3600;
    tm_mday = dd + 1;
    tm_mon = mon;
    tm_year = years +ℤ pos 100;
    tm_wday = wday;
    tm_yday = yday;
  }

  IsDate-of : IsDate days_of tm_of
  IsDate-of = record {
    day = rw year_is (sym (placed_day c y mon dd lt));
    month_in = mon_in;
    day_pos = omega arith;
    day_in = rw leap_is (omega arith);
    year_day = rw leap_is (omega (arith, yday_is));
  }
    where
      leap_is : leap_year (pos 1900 +ℤ (years +ℤ pos 100)) ≡ is_leap y
      leap_is = rw year_is (ap is_leap (place c y lt).1)

  IsClock-of : IsClock secs tm_of
  IsClock-of = record { total = omega arith; minutes = omega arith; seconds = omega arith }

  out_of_range :
      (ltb_ℤ (pos int_max) (years +ℤ pos 100) || ltb_ℤ (years +ℤ pos 100) (negsuc int_max)) ≡ true
      → IsOutOfRange days_of
  out_of_range out = record {
    year = years +ℤ pos 100;
    mon = mon;
    mday = dd + 1;
    day = IsDate-of.day;
    month_in = IsDate-of.month_in;
    day_pos = IsDate-of.day_pos;
    day_in = IsDate-of.day_in;
    no_int = out;
  }

  Good-store_fields : Good days_of wday secs (store_fields years mon dd wday yday secs)
  unfolding store_fields
  Good-store_fields =
      elim (Bool-cases
        (ltb_ℤ (pos int_max) (years +ℤ pos 100) || ltb_ℤ (years +ℤ pos 100) (negsuc int_max))) [
          | inl out ↦ rw out (out_of_range out)
          | inr fits ↦
              let int = fits-IsInt (years +ℤ pos 100) fits in
              rw (fits, int_of_small (years +ℤ pos 100) int) (IsDate-of, int, IsClock-of, refl)
        ]

year_same :
    (qc : ℤ) (my : ℕ)
    → pos 1900 +ℤ (pos my +ℤ mul_ℤ qc 400 +ℤ pos 100) ≡ mul_ℤ (qc +ℤ pos 5) 400 +ℤ pos my
unfolding ◌+ℤ◌
year_same (pos c) my = ground arith
year_same (negsuc c) my = ground arith

year_next :
    (qc : ℤ) (my : ℕ)
    → pos 1900 +ℤ (pos my +ℤ mul_ℤ qc 400 +ℤ pos 1 +ℤ pos 100)
      ≡ mul_ℤ (qc +ℤ pos 5) 400 +ℤ pos (my + 1)
unfolding ◌+ℤ◌
year_next (pos c) my = ground arith
year_next (negsuc c) my = ground arith

cycle_next :
    (qc : ℤ) → mul_ℤ (qc +ℤ pos 5) 400 +ℤ pos (399 + 1) ≡ mul_ℤ (qc +ℤ pos 1 +ℤ pos 5) 400 +ℤ pos 0
unfolding ◌+ℤ◌
cycle_next (pos c) = ground arith
cycle_next (negsuc c) = ground arith

-- The day number of the parts, for the three places of a month.
days_same : (qc : ℤ) (a b : ℕ) → mul_ℤ qc 146097 +ℤ pos a +ℤ pos b ≡ mul_ℤ qc 146097 +ℤ pos (a + b)
unfolding ◌+ℤ◌
days_same (pos c) a b = ground arith
days_same (negsuc c) a b = ground arith

days_next :
    (qc : ℤ) (a : ℕ) → mul_ℤ (qc +ℤ pos 1) 146097 +ℤ pos a ≡ mul_ℤ qc 146097 +ℤ pos (146097 + a)
unfolding ◌+ℤ◌
days_next (pos c) a = ground arith
days_next (negsuc c) a = ground arith

module _ (qc : ℤ) (rem wday secs : ℕ) (p : YearParts) (v : Parts rem p) where
  abbrev my : ℕ
  my = march_year p

  abbrev days : ℤ
  days = mul_ℤ qc 146097 +ℤ pos (rem + 60)

  Good-early :
      (m d : ℕ)
      → m ≤ 9
      → p.remdays < 306
      → days_before (is_leap my) (m + 2) + d ≡ p.remdays + 59 + (if is_leap my then 1 else 0)
      → d < month_length (is_leap my) (m + 2)
      → Good days wday secs (store_fields (years_of qc p) (m + 2) d wday (year_day p) secs)
  Good-early m d m_le early day_is in_month =
      subst (λ n. Good n wday secs (store_fields (years_of qc p) (m + 2) d wday (year_day p) secs))
        same_days
        (Good-store_fields qc (years_of qc p) my (m + 2) d wday (year_day p) secs
          (march_year-lt rem p v) (year_same qc my) yday_is (omega arith) in_month)
    where
      yday_is : year_day p ≡ days_before (is_leap my) (m + 2) + d
      yday_is = year_day-early rem p v early ∙ sym day_is

      same_days :
          mul_ℤ qc 146097
            +ℤ pos (365 * my + leap_days my)
            +ℤ pos (days_before (is_leap my) (m + 2) + d)
          ≡ days
      same_days =
          days_same qc _ _
          ∙ ap (λ n. mul_ℤ qc 146097 +ℤ pos n)
              (omega (arith, day-of-cycle rem p v, leap_days-add-one my, day_is))

  module _ (m d : ℕ) (m_ge : 10 ≤ m) (m_le : m ≤ 11)
      (day_is : days_before (is_leap (my + 1)) (m - 10) + d + 306 ≡ p.remdays)
      (in_month : d < month_length (is_leap (my + 1)) (m - 10)) where
    late_yday : year_day p ≡ days_before (is_leap (my + 1)) (m - 10) + d
    late_yday = omega (arith, year_day-late p (omega (arith, day_is)), day_is)

    -- January or February of the next year of the cycle.
    Good-late :
        my < 399
        → Good days wday secs
            (store_fields (years_of qc p +ℤ pos 1) (m - 10) d wday (year_day p) secs)
    Good-late lt =
        subst
          (λ n.
            Good n wday secs
              (store_fields (years_of qc p +ℤ pos 1) (m - 10) d wday (year_day p) secs))
          (days_same qc _ _
            ∙ ap (λ n. mul_ℤ qc 146097 +ℤ pos n) (omega (arith, day-of-cycle rem p v, day_is)))
          (Good-store_fields qc (years_of qc p +ℤ pos 1) (my + 1) (m - 10) d wday (year_day p) secs
            (omega arith) (year_next qc my) late_yday (omega arith) in_month)

    -- January or February of the first year of the next cycle.
    Good-last :
        my ≡ 399
        → Good days wday secs
            (store_fields (years_of qc p +ℤ pos 1) (m - 10) d wday (year_day p) secs)
    Good-last e =
        subst
          (λ n.
            Good n wday secs
              (store_fields (years_of qc p +ℤ pos 1) (m - 10) d wday (year_day p) secs))
          (days_same (qc +ℤ pos 1) _ _
            ∙ days_next qc _
            ∙ ap (λ n. mul_ℤ qc 146097 +ℤ pos n) day_sum)
          (Good-store_fields (qc +ℤ pos 1) (years_of qc p +ℤ pos 1) 0 (m - 10) d wday (year_day p)
            secs (omega arith)
            (year_next qc my ∙ ap (λ y. mul_ℤ (qc +ℤ pos 5) 400 +ℤ pos (y + 1)) e ∙ cycle_next qc)
            (late_yday ∙ ap (λ b. days_before b (m - 10) + d) leap_400) (omega arith)
            (rw leap_400 at in_month))
      where
        leap_400 : is_leap (my + 1) ≡ is_leap 0
        leap_400 = ap (λ y. is_leap (y + 1)) e

        day_sum :
            146097 + (365 * 0 + leap_days 0 + (days_before (is_leap 0) (m - 10) + d)) ≡ rem + 60
        day_sum =
            omega (arith, day-of-cycle rem p v, leap_days-closed (my + 1), (rw leap_400 at day_is))

  Good-finish :
      (m d : ℕ)
      → IsMonth p.remdays (is_leap my) (is_leap (my + 1)) (some (m, d))
      → Good days wday secs (finish (years_of qc p) wday (year_day p) secs (m, d))
  unfolding finish
  Good-finish m d (inl (m_le, early, day_is, in_month)) =
      rw (lt→leb-false 10 m (omega arith)) (Good-early m d m_le early day_is in_month)
  Good-finish m d (inr (m_ge, m_le, day_is, in_month)) =
      rw (le→leb 10 m m_ge) (elim (ℕ_discrete my 399) [
        | yes last ↦ Good-last m d m_ge m_le day_is in_month last
        | no other ↦ Good-late m d m_ge m_le day_is in_month (omega (arith, march_year-lt rem p v))
      ])

  Good-with_month :
      (found : Option (ℕ × ℕ))
      → IsMonth p.remdays (is_leap my) (is_leap (my + 1)) found
      → Good days wday secs (with_month (years_of qc p) wday (year_day p) secs found)
  unfolding with_month
  Good-with_month none h = h
  Good-with_month (some (m, d)) h = Good-finish m d h

floor_parts : (d : ℤ) → d +ℤ pos 60 ≡ mul_ℤ (floor_ℤ d 146097) 146097 +ℤ pos (mod_ℤ d 146097 + 60)
unfolding ◌+ℤ◌
floor_parts (pos a) = ground arith
floor_parts (negsuc a) = ground arith

mod-lt-cycle : (d : ℤ) → mod_ℤ d 146097 < 146097
mod-lt-cycle (pos a) = omega arith
mod-lt-cycle (negsuc a) = omega arith

week_shift : (d : ℤ) → mod_ℤ (pos 3 +ℤ d) 7 ≡ mod_ℤ (d +ℤ pos 66) 7
unfolding ◌+ℤ◌
week_shift (pos a) = ground arith
week_shift (negsuc a) = ground arith

-- `d` days behind 2000-03-01.
Good-from_days :
    (d : ℤ) (secs : ℕ) → Good (d +ℤ pos 60) (mod_ℤ (d +ℤ pos 66) 7) secs (from_days d secs)
unfolding from_days
Good-from_days d secs =
    rw (split-146097 d, split-7 (pos 3 +ℤ d), week_shift d, floor_parts d)
      (Good-with_month (floor_ℤ d 146097) rem (mod_ℤ (d +ℤ pos 66) 7) secs p v
        (find_month days_in_month 0 p.remdays)
        (find_month-IsMonth p.remdays (is_leap (march_year p)) (is_leap (march_year p + 1)) v.day_le
          (last-is_leap rem p v)))
  where
    rem : ℕ
    rem = mod_ℤ d 146097

    p : YearParts
    p = year_parts rem

    v : Parts rem p
    v = year_parts-Parts rem (mod-lt-cycle d)

floor_unique :
    (a q : ℤ) (r : ℕ)
    → r < 86400
    → a ≡ mul_ℤ q 86400 +ℤ pos r
    → (floor_ℤ a 86400 ≡ q) × (mod_ℤ a 86400 ≡ r)
unfolding ◌+ℤ◌
floor_unique (pos a) (pos q) r lt h = ground arith
floor_unique (pos a) (negsuc q) r lt h = ground arith
floor_unique (negsuc a) (pos q) r lt h = ground arith
floor_unique (negsuc a) (negsuc q) r lt h = ground arith

from_leapoch :
    (days : ℤ) (secs : ℕ)
    → pos 946684800 +ℤ mul_ℤ days 86400 +ℤ pos secs -ℤ pos leapoch
      ≡ mul_ℤ (days -ℤ pos 60) 86400 +ℤ pos secs
unfolding ◌+ℤ◌ ◌-ℤ◌
from_leapoch (pos d) secs = ground arith
from_leapoch (negsuc d) secs = ground arith

-- The code's division of the seconds behind 2000-03-01 into days and a time of day.
split_secs :
    (t days : ℤ) (secs : ℕ)
    → secs < 86400
    → t ≡ pos 946684800 +ℤ mul_ℤ days 86400 +ℤ pos secs
    → split (t -ℤ pos leapoch) 86400 ≡ (days -ℤ pos 60, secs)
split_secs t days secs lt h =
    let (q, r) =
      floor_unique (t -ℤ pos leapoch) (days -ℤ pos 60) secs lt
        (ap (λ a. a -ℤ pos leapoch) h ∙ from_leapoch days secs) in
    rw (split-86400 (t -ℤ pos leapoch), q, r)

Good-days :
    (days : ℤ) (secs : ℕ)
    → Good days (mod_ℤ (days +ℤ pos 6) 7) secs (from_days (days -ℤ pos 60) secs)
Good-days days secs = rw (same, week) at (Good-from_days (days -ℤ pos 60) secs)
  where
    same : days -ℤ pos 60 +ℤ pos 60 ≡ days
    same = omega int_laws

    week : days -ℤ pos 60 +ℤ pos 66 ≡ days +ℤ pos 6
    week = omega int_laws

-- The range of times that the function does not refuse at once.
abbrev pub IsTime : ℤ → Type 0
IsTime t = (mul_ℤ (negsuc int_max) 31622400 ≤ℤ t) × (t ≤ℤ pos (int_max * 31622400))

in_range :
    (t : ℤ)
    → IsTime t
    → (ltb_ℤ t (mul_ℤ (negsuc int_max) 31622400) || ltb_ℤ (pos (int_max * 31622400)) t) ≡ false
in_range t h = ground arith

-- For a time of that range `__secs_to_tm` ends, and its result is right. Say that the time is `secs`
-- seconds (less than a day) behind midnight of the day `days` behind 2000-01-01. Either the result is
-- a `struct tm` with the date of that day in the Gregorian calendar, each field in its range and the
-- year, counted from 1900, an `int`, with that time of day and that day of the week (2000-01-01 was a
-- Saturday), or it is -1 and the year of the date, counted from 1900, is no `int`.
pub secs_to_tm-Good :
    (t days : ℤ) (secs : ℕ)
    → secs < 86400
    → IsTime t
    → t ≡ pos 946684800 +ℤ mul_ℤ days 86400 +ℤ pos secs
    → Good days (mod_ℤ (days +ℤ pos 6) 7) secs (secs_to_tm t)
unfolding secs_to_tm
secs_to_tm-Good t days secs lt range h =
    rw (in_range t range, split_secs t days secs lt h) (Good-days days secs)
