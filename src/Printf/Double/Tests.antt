-- ===== src/Printf/Double/Tests.antt =====
-- Runs of `_ftoa` of libc/src/printf.c on a small arithmetic, and the theorems at it.
use tiny_libc.Prelude.{
  ℕ, ◌+◌, ◌-◌, ◌*◌, ◌/◌, ◌^◌, ◌≤◌, ◌≡◌, inr, refl, arith, true, ltb, leb, ◌==◌, none, some, List,
  [], ◌∷◌, ◌++◌, length,
}
use tiny_libc.Prelude.Int.{pos, pos_part, ◌+ℤ◌, ◌-ℤ◌}
use tiny_libc.Printf.Output.{
  Flags, no_flags, OutFct, out_null, out_rev, put_list, put_spaces, Cursor,
}
use tiny_libc.Printf.Integer.Digits.{number_value}
use tiny_libc.Printf.Double.{
  Doubles, is_large, special_text, number_text, put_decimals, put_fraction, put_zeros, put_whole,
  limit_precision, finish_number, round_parts, pow10,
}
use tiny_libc.Printf.Double.Scientific.{
  ftoa, etoa, estimate_exponent, power_of_ten, find_exponent, choose_layout, scaled,
}
use tiny_libc.Printf.Double.Fraction.{AreDigits, finish_number-Decimal}
use tiny_libc.Printf.Double.Bounds.{number_text_bound}
use tiny_libc.Printf.Double.Calls.{IsWritten, ftoa-IsWritten, etoa-IsWritten}

-- Numbers that are not negative, as multiples of 1/1000.
abbrev pub thousandths : Doubles ℕ
thousandths = record {
  literal = λ m e. m * 1000 / 10 ^ e;
  of_int = λ n. pos_part n * 1000;
  of_long = λ n. n * 1000;
  truncate = λ x. pos (x / 1000);
  truncate_long = λ x. x / 1000;
  bits = λ x. x;
  of_bits = λ n. n;
  dbl_max = 10 ^ 30;
  add = λ x y. x + y;
  sub = λ x y. x - y;
  mul = λ x y. x * y / 1000;
  div = λ x y. x * 1000 / y;
  neg = λ x. 0;
  lt = ltb;
  le = leb;
  eq = λ x y. x == y;
}

abbrev precise : Flags
precise = record no_flags { precision = true }

-- 12.345 with two digits
two_digits : number_text thousandths 12345 2 0 precise ≡ some (49 ∷ 50 ∷ 46 ∷ 51 ∷ 52 ∷ [])
unfolding number_text put_decimals put_fraction put_zeros put_whole limit_precision finish_number
    round_parts pow10
two_digits = refl

-- 0.95 is half way between 0.9 and 1.0, where the carry into the whole part is not looked for: the
-- fractional part gets two digits, the count of the zeros wraps, and zeros fill the buffer.
half_way : put_decimals 1 10 [] ≡ put_zeros 30 30 (49 ∷ 48 ∷ [])
unfolding put_decimals put_fraction put_zeros
half_way = refl

half_way_parts : round_parts thousandths 950 10000 ≡ (0, 10)
unfolding round_parts
half_way_parts = refl

-- A precision of 52 reads pow10[20].
past_table : number_text thousandths 1000 52 0 precise ≡ none
unfolding number_text limit_precision pow10
past_table = refl

number_text_bound_example :
    (text : List ℕ) × (number_text thousandths 12345 40 0 precise ≡ some text) × (length text ≤ 32)
number_text_bound_example = number_text_bound thousandths 12345 40 0 precise (inr (omega arith))

finish_number-Decimal_example :
    (ws : List ℕ) × (ds : List ℕ) × (finish_number 12 true 0 precise (put_decimals 2 5 [])
      ≡ b'-' ∷ (ws ++ b'.' ∷ ds))
    × AreDigits ws
    × (number_value 10 0 ws ≡ 12)
    × (length ds ≡ 2)
    × AreDigits ds
    × (number_value 10 0 ds ≡ 5)
finish_number-Decimal_example =
    finish_number-Decimal 12 2 5 true precise (omega arith) (omega arith) (omega arith)
      (omega arith) refl refl refl

abbrev start : Cursor (List ℕ)
start = record { idx = 0; written = [] }

-- 5 * 10 ^ 9 is large; with this arithmetic `_etoa` hands on a number that is not.
large_value : is_large thousandths 5000000000000 ≡ true
large_value = refl

etoa-IsWritten_example :
    (k' : Cursor (List ℕ)) × (etoa thousandths out_null 10 2 5000000000000 2 0 precise start
      ≡ some k')
    × IsWritten thousandths out_null 10 5000000000000 0 precise start k'
unfolding estimate_exponent power_of_ten find_exponent choose_layout scaled ◌+ℤ◌ ◌-ℤ◌
etoa-IsWritten_example =
    etoa-IsWritten thousandths out_null 10 0 5000000000000 2 0 precise start refl
      (inr (omega arith)) (inr refl)

ftoa-IsWritten_example :
    (k' : Cursor (List ℕ)) × (ftoa thousandths out_null 10 3 5000000000000 2 0 precise start
      ≡ some k')
    × IsWritten thousandths out_null 10 5000000000000 0 precise start k'
unfolding estimate_exponent power_of_ten find_exponent choose_layout scaled ◌+ℤ◌ ◌-ℤ◌
ftoa-IsWritten_example =
    ftoa-IsWritten thousandths out_null 10 0 5000000000000 2 0 precise start refl
      (inr (omega arith)) (inr (inr refl))

-- The characters, the first one first.
abbrev collect : OutFct (List ℕ)
collect character idx maxlen text = text ++ character ∷ []

-- Above the greatest number.
plus_infinity :
    ftoa thousandths collect 10 1 (10 ^ 31) 2 0 precise start
    ≡ some (record { idx = 3; written = b'i' ∷ b'n' ∷ b'f' ∷ [] })
unfolding ftoa special_text out_rev put_list put_spaces
plus_infinity = refl
