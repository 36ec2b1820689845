-- ===== src/Prelude/Pow.antt =====
-- Powers of two at a variable exponent, and the uniqueness of a quotient and a remainder.
use native.Mathlib.Nat.{pow-suc, pow-zero, add-zero, add-suc, div-eq_of_lt-le, mod-eq-sub-div-mul}
use tiny_libc.Prelude.{ℕ, zero, suc, ◌+◌, ◌*◌, ◌/◌, ◌%◌, ◌^◌, ◌≤◌, ◌<◌, ◌≡◌, arith}

pub two-pow-suc : (n : ℕ) → 2 ^ suc n ≡ 2 ^ n + 2 ^ n
two-pow-suc n = omega (arith, pow-suc 2 n)

pub two-pow-pos : (n : ℕ) → 1 ≤ 2 ^ n
two-pow-pos zero = omega arith
two-pow-pos (suc n) = omega (arith, two-pow-suc n, two-pow-pos n)

pub two-pow-add : (m n : ℕ) → 2 ^ (m + n) ≡ 2 ^ m * 2 ^ n
two-pow-add m zero = rw (add-zero m) (omega (arith, pow-zero 2))
two-pow-add m (suc n) =
    rw (add-suc m n, two-pow-suc (m + n), two-pow-suc n) (omega (arith, two-pow-add m n))

-- The quotient and the remainder are the only numbers that fit.
pub div_mod_unique : (a d q r : ℕ) → q * d + r ≡ a → r < d → (a / d ≡ q) × (a % d ≡ r)
div_mod_unique a d q r e h = (quotient_is, remainder_is)
  where
    quotient_is : a / d ≡ q
    quotient_is = div-eq_of_lt-le d (omega arith) (omega arith)

    remainder_is : a % d ≡ r
    remainder_is = rw (mod-eq-sub-div-mul a d, quotient_is) (omega arith)
