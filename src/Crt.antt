-- ===== src/Crt.antt =====
-- libc/src/crt.c: the division of 128-bit integers that the compiler calls.
mod Leading
mod Divide
mod Signed
mod Tests
use tiny_libc.Prelude.{
  ℕ, zero, suc, ◌+◌, ◌-◌, ◌*◌, ◌/◌, ◌%◌, ◌^◌, Bool, true, false, ◌==◌, leb, if◌then◌else◌, Option,
  some, none,
}

abbrev pub u128 : ℕ → ℕ
u128 n = n % 2 ^ 128

abbrev pub u64 : ℕ → ℕ
u64 n = n % 2 ^ 64

-- The digits of a binary number, of `w` at most.
bit_length : ℕ → ℕ → ℕ
bit_length zero x = 0
bit_length (suc w) x = if x == 0 then 0 else suc (bit_length w (x / 2))

-- The compiler's `__builtin_clzll`: the leading zeros of a 64-bit number.
clzll : ℕ → ℕ
clzll x = 64 - bit_length 64 (u64 x)

pub clz128 : ℕ → ℕ
clz128 x = if x == 0 then 128 else if x / 2 ^ 64 == 0 then 64 + clzll x else clzll (x / 2 ^ 64)

-- The variables of the loop of `__udivmodti4`.
pub record Division : Type 0 where
  pub num : ℕ
  pub den : ℕ
  pub quot : ℕ
  pub qbit : ℕ

-- `quotient` carries the quotient and the remainder that goes through `rem`; a caller that passes a
-- null `rem` drops it. `trap` is the division by zero, and `stuck` a loop that ran out of fuel.
pub data Outcome : Type 0 where
  quotient : ℕ → ℕ → Outcome
  trap stuck : Outcome

-- `if (den <= num) { num -= den; quot += qbit; } den >>= 1; qbit >>= 1;`
subtract : Division → Division
subtract s =
    if leb s.den s.num then record s { num = s.num - s.den; quot = u128 (s.quot + s.qbit) } else s

halve : Division → Division
halve s = record s { den = s.den / 2; qbit = s.qbit / 2 }

-- `while (qbit)`
divide : ℕ → Division → Outcome
divide zero s = stuck
divide (suc fuel) s = elim (s.qbit == 0) [
  | true ↦ quotient s.quot s.num
  | false ↦ divide fuel (halve (subtract s))
]

-- At `den == 0` the code divides `(uint64_t)num` by zero.
pub udivmodti4 : ℕ → ℕ → Outcome
udivmodti4 num den =
    if den == 0
    then trap
    else divide 130 (record {
      num = num;
      den = u128 (den * 2 ^ clz128 den);
      quot = 0;
      qbit = u128 (1 * 2 ^ clz128 den);
    })

-- An `int128_t` is its bit pattern.
abbrev pub is_neg : ℕ → Bool
is_neg x = leb (2 ^ 127) x

abbrev pub negate : ℕ → ℕ
negate x = u128 (2 ^ 128 - x)

-- The signs that `__divmodti4` gives to the results.
fix_signs : Bool → Bool → Outcome → Outcome
fix_signs num_neg den_neg (quotient q r) =
    quotient
      (if num_neg then (if den_neg then q else negate q) else (if den_neg then negate q else q))
      (if num_neg then negate r else r)
fix_signs num_neg den_neg trap = trap
fix_signs num_neg den_neg stuck = stuck

pub divmodti4 : ℕ → ℕ → Outcome
divmodti4 num den =
    fix_signs (is_neg num) (is_neg den)
      (udivmodti4 (if is_neg num then negate num else num) (if is_neg den then negate den else den))

-- `__udivti3` and `__divti3` pass a null `rem`, and `__umodti3` and `__modti3` read what was
-- stored through it.
get_quotient : Outcome → Option ℕ
get_quotient (quotient q r) = some q
get_quotient trap = none
get_quotient stuck = none

get_rem : Outcome → Option ℕ
get_rem (quotient q r) = some r
get_rem trap = none
get_rem stuck = none

pub udivti3 : ℕ → ℕ → Option ℕ
udivti3 a b = get_quotient (udivmodti4 a b)

pub umodti3 : ℕ → ℕ → Option ℕ
umodti3 a b = get_rem (udivmodti4 a b)

pub divti3 : ℕ → ℕ → Option ℕ
divti3 a b = get_quotient (divmodti4 a b)

pub modti3 : ℕ → ℕ → Option ℕ
modti3 a b = get_rem (divmodti4 a b)
