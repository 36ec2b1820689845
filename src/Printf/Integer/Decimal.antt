-- ===== src/Printf/Integer/Decimal.antt =====
-- What `_ntoa_long` of libc/src/printf.c writes for a plain decimal conversion.
use mathlib.Core.List.{append-nil}
use native.Mathlib.Nat.{pow-zero}
use tiny_libc.Prelude.{
  ℕ, zero, suc, ◌+◌, ◌-◌, ◌/◌, ◌%◌, ◌^◌, ◌<◌, ◌≤◌, ◌≡◌, refl, arith, Bool, true, false, Bool-cases,
  inl, inr, ◌||◌, ◌==◌, ltb, if◌then◌else◌, List, [], ◌∷◌, length, not_less, lt→ltb,
}
use tiny_libc.Printf.Output.{Flags, no_flags, OutFct, Cursor, put_list}
use tiny_libc.Printf.Output.Text.{out_rev-justify}
use tiny_libc.Printf.Integer.{
  put_digits, digit_char, digits, hash_flags, pad_zeros, format_buffer, ntoa_format, ntoa_long,
  ntoa_buffer_size,
}
use tiny_libc.Printf.Integer.Digits.{quotient_small}

-- Decimal digits.
abbrev pub AllDecimal : List ℕ → Type 0
AllDecimal [] = Unit
AllDecimal (c ∷ cs) = (b'0' ≤ c) × (c ≤ b'9') × AllDecimal cs

-- The loop stops after this digit.
abbrev is_last : ℕ → ℕ → List ℕ → Bool
is_last value base buf =
    value / base == 0 || (if ltb (suc (length buf)) ntoa_buffer_size then false else true)

put_digits-AllDecimal :
    (fuel value : ℕ) (flags : Flags) (buf : List ℕ)
    → AllDecimal buf
    → AllDecimal (put_digits fuel value 10 flags buf)
unfolding put_digits
put_digits-AllDecimal zero value flags buf d = d
put_digits-AllDecimal (suc fuel) value flags buf d = elim (Bool-cases (is_last value 10 buf)) [
  | inl last ↦ rw last next
  | inr more ↦
      rw more
        (put_digits-AllDecimal fuel (value / 10) flags (digit_char (value % 10) flags ∷ buf) next)
]
  where
    next : AllDecimal (digit_char (value % 10) flags ∷ buf)
    next = (ground arith, ground arith, d)

put_digits-length :
    (fuel k value base : ℕ) (flags : Flags) (buf : List ℕ)
    → 2 ≤ base
    → value < base ^ suc k
    → length (put_digits fuel value base flags buf) ≤ length buf + suc k
unfolding put_digits
put_digits-length zero k value base flags buf two small = omega arith
put_digits-length (suc fuel) zero value base flags buf two small =
    let last : value / base ≡ 0 =
      omega (arith, pow-zero base, quotient_small value base 0 two small) in
    rw last (omega arith)
put_digits-length (suc fuel) (suc k) value base flags buf two small =
    elim (Bool-cases (is_last value base buf)) [
      | inl last ↦ rw last (omega arith)
      | inr more ↦ rw more (
          omega (
            arith,
            put_digits-length fuel k (value / base) base flags
                (digit_char (value % base) flags ∷ buf) two
                (quotient_small value base (suc k) two small),
          ))
    ]

pub digits-AllDecimal : (value : ℕ) → AllDecimal (digits value 10 no_flags)
digits-AllDecimal value = put_digits-AllDecimal 32 value no_flags [] tt

pub digits-length : (value k : ℕ) → value < 10 ^ suc k → length (digits value 10 no_flags) ≤ suc k
digits-length value k small =
    omega (arith, put_digits-length 32 k value 10 no_flags [] (omega arith) small)

-- The sign and the digits.
abbrev pub decimal : Bool → ℕ → List ℕ
decimal negative value =
    if negative then b'-' ∷ digits value 10 no_flags else digits value 10 no_flags

hash_flags-none : (value : ℕ) → hash_flags value no_flags ≡ no_flags
hash_flags-none value = elim (Bool-cases (value == 0)) [ inl e ↦ rw e | inr e ↦ rw e ]

pad_zeros-none : (fuel : ℕ) (buf : List ℕ) → pad_zeros fuel 0 buf ≡ buf
unfolding pad_zeros
pad_zeros-none zero buf = refl
pad_zeros-none (suc fuel) buf = rw (not_less (length buf) 0 (omega arith))

format_buffer-decimal :
    (negative : Bool) (value : ℕ)
    → value < 10 ^ 31
    → format_buffer (digits value 10 no_flags) negative 10 0 0 no_flags ≡ decimal negative value
unfolding format_buffer
format_buffer-decimal false value small = rw (pad_zeros-none 32 (digits value 10 no_flags))
format_buffer-decimal true value small = rw (
  pad_zeros-none 32 (digits value 10 no_flags),
  lt→ltb (length (digits value 10 no_flags)) 32
      (omega (arith, put_digits-length 32 30 value 10 no_flags [] (omega arith) small)),
)

nothing : (n : ℕ) → 0 - n ≡ 0
nothing n = omega arith

module _ {S : Type 0} (out : OutFct S) (maxlen : ℕ) where
  -- With no flags, width and precision, the text is the sign and the digits.
  pub ntoa_long-decimal :
      (value : ℕ) (negative : Bool) (k : Cursor S)
      → value < 10 ^ 31
      → ntoa_long out maxlen value negative 10 0 0 no_flags k
        ≡ put_list out maxlen (decimal negative value) k
  unfolding ntoa_long ntoa_format
  ntoa_long-decimal value negative k small = rw (
    hash_flags-none value,
    format_buffer-decimal negative value small,
    out_rev-justify out maxlen (decimal negative value) 0 no_flags k,
    nothing (length (decimal negative value)),
    append-nil (decimal negative value),
  )
