-- ===== src/Crt/Signed.antt =====
-- The signed division of libc/src/crt.c against division that rounds towards zero.
use tiny_libc.Prelude.{ℕ, suc, ◌+◌, ◌-◌, ◌/◌, ◌%◌, ◌^◌, ◌≡◌, ◌≢◌, arith}
use tiny_libc.Prelude.Int.{ℤ, pos, negsuc, pos_part, neg_part, neg_ℤ, ◌≤ℤ◌}
use tiny_libc.Crt.{quotient, fix_signs, divmodti4}
use tiny_libc.Crt.Divide.{udivmodti4-eq-div}

-- The two's complement pattern of an integer.
abbrev pub bits128 : ℤ → ℕ
bits128 (pos n) = n
bits128 (negsuc n) = 2 ^ 128 - suc n

abbrev pub abs_ℤ : ℤ → ℕ
abs_ℤ a = pos_part a + neg_part a

abbrev pub with_sign : ℤ → ℕ → ℤ
with_sign (pos _) n = pos n
with_sign (negsuc _) n = neg_ℤ (pos n)

-- The quotient of C has the sign of the product, and the remainder that of the dividend.
abbrev pub trunc_quot : ℤ → ℤ → ℤ
trunc_quot a b = with_sign a (abs_ℤ a / abs_ℤ b)

abbrev pub trunc_div : ℤ → ℤ → ℤ
trunc_div a (pos n) = with_sign a (abs_ℤ a / n)
trunc_div a (negsuc n) = neg_ℤ (with_sign a (abs_ℤ a / suc n))

abbrev pub trunc_mod : ℤ → ℤ → ℤ
trunc_mod a b = with_sign a (abs_ℤ a % abs_ℤ b)

abbrev pub IsInt128 : ℤ → Type 0
IsInt128 a = (negsuc (2 ^ 127 - 1) ≤ℤ a) × (a ≤ℤ pos (2 ^ 127 - 1))

-- `__divmodti4` on the patterns of two integers, the divisor not zero, returns the patterns of the
-- quotient rounded towards zero and of its remainder. (-2^127 / -1 wraps to the pattern of 2^127.)
pub divmodti4-trunc :
    (a b : ℤ)
    → IsInt128 a
    → IsInt128 b
    → b ≢ pos 0
    → divmodti4 (bits128 a) (bits128 b)
      ≡ quotient (bits128 (trunc_div a b)) (bits128 (trunc_mod a b))
unfolding divmodti4 fix_signs
divmodti4-trunc (pos m) (pos n) ha hb nz = ground (arith, udivmodti4-eq-div m n)
divmodti4-trunc (pos m) (negsuc n) ha hb nz = ground (arith, udivmodti4-eq-div m (suc n))
divmodti4-trunc (negsuc m) (pos n) ha hb nz = ground (arith, udivmodti4-eq-div (suc m) n)
divmodti4-trunc (negsuc m) (negsuc n) ha hb nz = ground (arith, udivmodti4-eq-div (suc m) (suc n))
