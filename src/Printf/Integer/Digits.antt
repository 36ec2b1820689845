-- ===== src/Printf/Integer/Digits.antt =====
-- The digits that `_ntoa_long` of libc/src/printf.c puts in its buffer denote the value.

use native.Mathlib.Nat.{pow-suc, pow-zero, mul-le-mul_right}
use tiny_libc.Prelude.{
  ℕ, zero, suc, ◌+◌, ◌-◌, ◌*◌, ◌/◌, ◌%◌, ◌^◌, ◌<◌, ◌≤◌, ◌≡◌, refl, ap, ◌∙◌, arith, Bool-cases, inl,
  inr, ◌&&◌, ◌==◌, leb, if◌then◌else◌, List, [], ◌∷◌, length, ℕ_discrete, dec_lt, ==-ne, lt→ltb,
}
use tiny_libc.Printf.Output.{Flags}
use tiny_libc.Printf.Integer.{put_digits, digit_char, digits}

-- The digit that a character denotes, in either case.
abbrev pub digit_value : ℕ → ℕ
digit_value c = if leb c b'9' then c - b'0' else if leb c b'Z' then c - b'A' + 10 else c - b'a' + 10

-- The number that the characters denote, from the value of those before.
abbrev pub number_value : ℕ → ℕ → List ℕ → ℕ
number_value base n [] = n
number_value base n (c ∷ cs) = number_value base (n * base + digit_value c) cs

digit_char-value : (d : ℕ) (flags : Flags) → d < 16 → digit_value (digit_char d flags) ≡ d
digit_char-value d flags h = ground arith

pushed_value :
    (value base : ℕ) (flags : Flags) (buf : List ℕ)
    → 2 ≤ base
    → base ≤ 16
    → number_value base (value / base) (digit_char (value % base) flags ∷ buf)
      ≡ number_value base value buf
pushed_value value base flags buf two sixteen = ap (λ n. number_value base n buf) whole
  where
    below : value % base < 16
    below = omega arith

    whole : value / base * base + digit_value (digit_char (value % base) flags) ≡ value
    whole = rw (digit_char-value (value % base) flags below) (omega arith)

pub quotient_small :
    (value base fuel : ℕ) → 2 ≤ base → value < base ^ suc fuel → value / base < base ^ fuel
quotient_small value base fuel two h = elim (dec_lt (value / base) (base ^ fuel)) [
  | yes small ↦ small
  | no large ↦ absurd (
      omega (
        arith,
        pow-suc base fuel,
        mul-le-mul_right {m = base ^ fuel} {n = value / base} base (omega arith),
      ))
]

-- A loop that has room for the digits puts them all before what is in the buffer.
put_digits-value :
    (fuel value base : ℕ) (flags : Flags) (buf : List ℕ)
    → 2 ≤ base
    → base ≤ 16
    → value < base ^ suc fuel
    → length buf + suc fuel ≡ 32
    → number_value base 0 (put_digits (suc fuel) value base flags buf) ≡ number_value base value buf
unfolding put_digits
put_digits-value zero value base flags buf two sixteen small room =
    let last : value / base ≡ 0 =
      omega (arith, pow-zero base, quotient_small value base 0 two small) in
    rw last (rw last at (pushed_value value base flags buf two sixteen))
put_digits-value (suc fuel) value base flags buf two sixteen small room =
    elim (ℕ_discrete (value / base) 0) [
      | yes last ↦ rw last (rw last at (pushed_value value base flags buf two sixteen))
      | no more ↦
          rw (==-ne (value / base) 0 more, lt→ltb (suc (length buf)) 32 (omega arith))
            (put_digits-value fuel (value / base) base flags (digit_char (value % base) flags ∷ buf)
                two sixteen (quotient_small value base (suc fuel) two small) (omega arith)
              ∙ pushed_value value base flags buf two sixteen)
    ]

-- For a base from 2 to 16 and a value of at most 32 digits, the digits that go to the buffer denote
-- the value.
pub digits-value :
    (value base : ℕ) (flags : Flags)
    → 2 ≤ base
    → base ≤ 16
    → value < base ^ 32
    → number_value base 0 (digits value base flags) ≡ value
digits-value value base flags two sixteen small =
    elim (Bool-cases (flags.precision && value == 0)) [
      | inl none_needed ↦ rw none_needed (ground arith)
      | inr needed ↦ rw needed (put_digits-value 31 value base flags [] two sixteen small refl)
    ]
