-- ===== src/Crt/Leading.antt =====
-- The count of leading zeros in libc/src/crt.c.
use tiny_libc.Prelude.{
  ℕ, zero, suc, ◌+◌, ◌-◌, ◌*◌, ◌/◌, ◌^◌, ◌≤◌, ◌<◌, ◌≡◌, ◌≢◌, refl, arith, ℕ_discrete, dec_lt, ap,
}
use tiny_libc.Prelude.Pow.{two-pow-suc, two-pow-add}
use native.Mathlib.Nat.{mul-le-mul_right, mod-eq_of_lt}
use tiny_libc.Crt.{bit_length, clzll, clz128}

-- x has exactly n binary digits.
abbrev pub HasDigits : ℕ → ℕ → Type 0
HasDigits n x = (2 ^ n ≤ 2 * x) × (x < 2 ^ n)

bit_length-zero : (w : ℕ) → bit_length w 0 ≡ 0
unfolding bit_length
bit_length-zero zero = refl
bit_length-zero (suc w) = refl

bit_length_lem : (w x : ℕ) → x < 2 ^ w → x ≢ 0 → HasDigits (bit_length w x) x × (bit_length w x ≤ w)
unfolding bit_length
bit_length_lem zero x h nz = absurd (nz (omega arith))
bit_length_lem (suc w) x h nz = elim (ℕ_discrete (x / 2) 0) [
  | yes one ↦ rw (one, bit_length-zero w) (ground arith)
  | no more ↦ ground (
    arith,
    two-pow-suc w,
    two-pow-suc (bit_length w (x / 2)),
    bit_length_lem w (x / 2) (omega (arith, two-pow-suc w)) more,
  )
]

-- Shifted left by the n of its leading zeros, x has its highest digit at the top of the w digits.
abbrev pub IsLeading : ℕ → ℕ → ℕ → Type 0
IsLeading w n x = (2 ^ w ≤ 2 * (x * 2 ^ n)) × ((x + 1) * 2 ^ n ≤ 2 ^ w) × (n ≤ w)

HasDigits-IsLeading : (w n x : ℕ) → n ≤ w → HasDigits n x → IsLeading w (w - n) x
HasDigits-IsLeading w n x le h =
    let split : 2 ^ w ≡ 2 ^ n * 2 ^ (w - n) =
      rw (← two-pow-add n (w - n)) (ap (λ k. 2 ^ k) (omega arith)) in
    omega (
      arith,
      split,
      mul-le-mul_right (2 ^ (w - n)) h.0,
      mul-le-mul_right {m = x + 1} {n = 2 ^ n} (2 ^ (w - n)) (omega arith),
    )

clzll-IsLeading : (x : ℕ) → x < 2 ^ 64 → x ≢ 0 → IsLeading 64 (clzll x) x
unfolding clzll
clzll-IsLeading x h nz =
    rw (mod-eq_of_lt h)
      (let (digits, le) = bit_length_lem 64 x h nz in HasDigits-IsLeading 64 _ x le digits)

clz128-low : (x : ℕ) → x < 2 ^ 64 → x ≢ 0 → clz128 x ≡ 64 + clzll x
unfolding clz128
clz128-low x h nz = ground arith

clz128-high : (x : ℕ) → 2 ^ 64 ≤ x → clz128 x ≡ clzll (x / 2 ^ 64)
unfolding clz128
clz128-high x h = ground arith

pub clz128-IsLeading : (x : ℕ) → x < 2 ^ 128 → x ≢ 0 → IsLeading 128 (clz128 x) x
clz128-IsLeading x h nz = elim (dec_lt x (2 ^ 64)) [
  | yes low ↦
      rw (clz128-low x low nz, two-pow-add 64 (clzll x)) (omega (arith, clzll-IsLeading x low nz))
  | no high ↦ rw (clz128-high x (omega arith)) (
      omega (
        arith,
        clzll-IsLeading (x / 2 ^ 64) (omega arith) (omega arith),
        mul-le-mul_right {m = x + 1} {n = (x / 2 ^ 64 + 1) * 2 ^ 64} (2 ^ clzll (x / 2 ^ 64))
            (omega arith),
        mul-le-mul_right {m = x / 2 ^ 64 * 2 ^ 64} {n = x} (2 ^ clzll (x / 2 ^ 64)) (omega arith),
      ))
]
