-- ===== src/Time.antt =====
-- libc/src/localtime.c: broken-down time. A `long long` that may be negative is in ℤ (the range test
-- keeps every sum far below 2^63), and so is the year; what the code has made non-negative is in ℕ.
pub mod Civil
pub mod Cycle
pub mod Correct
mod Tests
use tiny_libc.Prelude.{
  ℕ, zero, suc, ◌+◌, ◌-◌, ◌*◌, ◌/◌, ◌%◌, ◌^◌, Bool, true, false, ◌==◌, ◌&&◌, ◌||◌, ltb, leb,
  if◌then◌else◌, List, [], ◌∷◌, get_or, Option, none, some,
}
use tiny_libc.Prelude.Int.{
  ℤ, pos, negsuc, pos_part, ◌+ℤ◌, ◌-ℤ◌, mul_ℤ, quot_ℤ, rem_ℤ, ltb_ℤ, int_of,
}

-- `struct tm`. `tm_zone` is always "GMT".
pub record Tm : Type 0 where
  pub tm_sec : ℕ
  pub tm_min : ℕ
  pub tm_hour : ℕ
  pub tm_mday : ℕ
  pub tm_mon : ℕ
  pub tm_year : ℤ
  pub tm_wday : ℕ
  pub tm_yday : ℕ

-- `overflow` is the result -1, and `stuck` a read beyond the table of months.
pub data Result : Type 0 where
  converted : Tm → Result
  overflow stuck : Result

-- 2000-03-01
abbrev pub leapoch : ℕ
leapoch = 946684800 + 86400 * (31 + 29)

abbrev pub days_per_400y : ℕ
days_per_400y = 365 * 400 + 97

abbrev pub days_per_100y : ℕ
days_per_100y = 365 * 100 + 24

abbrev pub days_per_4y : ℕ
days_per_4y = 365 * 4 + 1

-- From March to February.
abbrev pub days_in_month : List ℕ
days_in_month = 31 ∷ 30 ∷ 31 ∷ 30 ∷ 31 ∷ 31 ∷ 30 ∷ 31 ∷ 30 ∷ 31 ∷ 31 ∷ 29 ∷ []

-- `q = a / n; r = a % n; if (r < 0) { r += n; q--; }`. The remainder is not negative then.
pub split : ℤ → ℕ → ℤ × ℕ
split a n =
    if ltb_ℤ (rem_ℤ a n) (pos 0)
    then (quot_ℤ a n -ℤ pos 1, pos_part (rem_ℤ a n +ℤ pos n))
    else (quot_ℤ a n, pos_part (rem_ℤ a n))

-- `c = days / n; if (c == most + 1) c--`
abbrev pub cycles : ℕ → ℕ → ℕ → ℕ
cycles days n most = if days / n == most + 1 then days / n - 1 else days / n

-- The years and days within a cycle of 400 years from March 1st on.
pub record YearParts : Type 0 where
  pub c_cycles : ℕ
  pub q_cycles : ℕ
  pub remyears : ℕ
  pub remdays : ℕ

pub year_parts : ℕ → YearParts
year_parts days =
    let c = cycles days days_per_100y 3 in
    let days' = days - c * days_per_100y in
    let q = cycles days' days_per_4y 24 in
    let days'' = days' - q * days_per_4y in
    let r = cycles days'' 365 3 in
    record { c_cycles = c; q_cycles = q; remyears = r; remdays = days'' - r * 365 }

-- `leap = !remyears && (q_cycles || !c_cycles)`
abbrev pub leap : YearParts → ℕ
leap p = if (p.remyears == 0) && (if p.q_cycles == 0 then p.c_cycles == 0 else true) then 1 else 0

abbrev pub year_day : YearParts → ℕ
year_day p =
    let yday = p.remdays + 31 + 28 + leap p in
    if leb (365 + leap p) yday then yday - (365 + leap p) else yday

-- `for (months=0; days_in_month[months] <= remdays; months++) remdays -= days_in_month[months]`, over
-- the rest of the table.
pub find_month : List ℕ → ℕ → ℕ → Option (ℕ × ℕ)
find_month [] months remdays = none
find_month (n ∷ table) months remdays =
    let next = find_month table (months + 1) (remdays - n) in
    if leb n remdays then next else some (months, remdays)

abbrev pub int_max : ℕ
int_max = 2 ^ 31 - 1

-- The range of the year, and the fields; the year is converted to an `int` as it is stored. Here `mon` is `months + 2`.
pub store_fields : ℤ → ℕ → ℕ → ℕ → ℕ → ℕ → Result
store_fields years mon remdays wday yday remsecs =
    if ltb_ℤ (pos int_max) (years +ℤ pos 100) || ltb_ℤ (years +ℤ pos 100) (negsuc int_max)
    then overflow
    else converted (record {
      tm_sec = remsecs % 60;
      tm_min = remsecs / 60 % 60;
      tm_hour = remsecs / 3600;
      tm_mday = remdays + 1;
      tm_mon = mon;
      tm_year = int_of (years +ℤ pos 100);
      tm_wday = wday;
      tm_yday = yday;
    })

-- `if (months >= 10) { months -= 12; years++; }`
pub finish : ℤ → ℕ → ℕ → ℕ → ℕ × ℕ → Result
unfolding store_fields
finish years wday yday remsecs (months, remdays) =
    if leb 10 months
    then store_fields (years +ℤ pos 1) (months - 10) remdays wday yday remsecs
    else store_fields years (months + 2) remdays wday yday remsecs

pub with_month : ℤ → ℕ → ℕ → ℕ → Option (ℕ × ℕ) → Result
with_month years wday yday remsecs none = stuck
with_month years wday yday remsecs (some found) = finish years wday yday remsecs found

-- `wday = (3+days)%7; if (wday < 0) wday += 7`
abbrev pub week_day : ℤ → ℕ
week_day days = (split (pos 3 +ℤ days) 7).1

abbrev pub years_of : ℤ → YearParts → ℤ
years_of qc_cycles p = pos (p.remyears + 4 * p.q_cycles + 100 * p.c_cycles) +ℤ mul_ℤ qc_cycles 400

pub from_days : ℤ → ℕ → Result
from_days days remsecs =
    let (qc_cycles, remdays) = split days days_per_400y in
    let p = year_parts remdays in
    with_month (years_of qc_cycles p) (week_day days) (year_day p) remsecs
      (find_month days_in_month 0 p.remdays)

unfoldable pub secs_to_tm : ℤ → Result
secs_to_tm t =
    if ltb_ℤ t (mul_ℤ (negsuc int_max) 31622400) || ltb_ℤ (pos (int_max * 31622400)) t
    then overflow
    else (let (days, remsecs) = split (t -ℤ pos leapoch) 86400 in from_days days remsecs)
