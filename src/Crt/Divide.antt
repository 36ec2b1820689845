-- ===== src/Crt/Divide.antt =====
-- The shift-and-subtract loop of libc/src/crt.c finds the quotient and the remainder.
use tiny_libc.Prelude.{
  ℕ, zero, suc, ◌+◌, ◌-◌, ◌*◌, ◌/◌, ◌%◌, ◌^◌, ◌≤◌, ◌<◌, ◌≡◌, ◌≢◌, refl, arith, dec_lt, ==-ne, some,
}
use tiny_libc.Prelude.Pow.{two-pow-suc, two-pow-pos, div_mod_unique}
use native.Mathlib.Nat.{mul-le-mul_left, mul-le-mul_right, mod-eq_of_lt}
use tiny_libc.Crt.{
  Division, quotient, trap, u128, subtract, halve, divide, udivmodti4, udivti3, umodti3,
  get_quotient, get_rem, clz128,
}
use tiny_libc.Crt.Leading.{IsLeading, clz128-IsLeading}

-- The loop's state at qbit = 2 ^ k, for a dividend a and a divisor d.
abbrev state : ℕ → ℕ → ℕ → ℕ → Division
state k d num quot = record { num = num; den = d * 2 ^ k; quot = quot; qbit = 2 ^ k }

record Inv (a d k num quot : ℕ) : Type 0 where
  total : quot * d + num ≡ a
  below : num < 2 * (d * 2 ^ k)
  fits : a < 2 ^ 128
  divisor : 1 ≤ d

product_step : (d k : ℕ) → d * 2 ^ suc k ≡ 2 * (d * 2 ^ k)
product_step d k = rw (two-pow-suc k) (omega arith)

-- One round on a state that is not yet below d: the two ways of the test.
subtract_yes :
    (d k num quot : ℕ)
    → d * 2 ^ k ≤ num
    → quot + 2 ^ k < 2 ^ 128
    → subtract (state k d num quot) ≡ state k d (num - d * 2 ^ k) (quot + 2 ^ k)
unfolding subtract
subtract_yes d k num quot h fits = ground arith

subtract_no :
    (d k num quot : ℕ) → num < d * 2 ^ k → subtract (state k d num quot) ≡ state k d num quot
unfolding subtract
subtract_no d k num quot h = ground arith

halve-state : (d k num quot : ℕ) → halve (state (suc k) d num quot) ≡ state k d num quot
unfolding halve
halve-state d k num quot = rw (product_step d k, two-pow-suc k) (ground arith)

-- The quotient so far and the next bit stay below the dividend.
quot-fits : (a d k num quot : ℕ) → Inv a d k num quot → d * 2 ^ k ≤ num → quot + 2 ^ k ≤ a
quot-fits a d k num quot v h =
    omega (arith, v.total, mul-le-mul_left {m = 1} {n = d} (quot + 2 ^ k) v.divisor)

Inv-subtract :
    (a d k num quot : ℕ)
    → Inv a d (suc k) num quot
    → d * 2 ^ suc k ≤ num
    → Inv a d k (num - d * 2 ^ suc k) (quot + 2 ^ suc k)
Inv-subtract a d k num quot v h = record {
  total = omega (arith, v.total);
  below = omega (arith, v.below, product_step d k);
  fits = v.fits;
  divisor = v.divisor;
}

Inv-skip :
    (a d k num quot : ℕ) → Inv a d (suc k) num quot → num < d * 2 ^ suc k → Inv a d k num quot
Inv-skip a d k num quot v h = record {
  total = v.total;
  below = omega (arith, product_step d k);
  fits = v.fits;
  divisor = v.divisor;
}

-- The last round leaves the quotient bit at 0.
divide-last :
    (fuel d num quot : ℕ) → divide (suc fuel) (halve (state 0 d num quot)) ≡ quotient quot num
unfolding divide halve
divide-last fuel d num quot = refl

divide-step :
    (fuel d k num quot : ℕ)
    → divide (suc fuel) (state k d num quot) ≡ divide fuel (halve (subtract (state k d num quot)))
unfolding divide
divide-step fuel d k num quot = ground (arith, two-pow-pos k)

divide_lem :
    (k fuel a d num quot : ℕ)
    → k + 1 < fuel
    → Inv a d k num quot
    → divide fuel (state k d num quot) ≡ quotient (a / d) (a % d)
divide_lem k zero a d num quot h v = absurd (omega arith)
divide_lem k (suc zero) a d num quot h v = absurd (omega arith)
divide_lem zero (suc (suc fuel)) a d num quot h v = elim (dec_lt num (d * 2 ^ 0)) [
  | yes below ↦
      rw (divide-step (suc fuel) d 0 num quot, subtract_no d 0 num quot below, divide-last)
        (let (q, r) = div_mod_unique a d quot num v.total (omega arith) in rw (q, r))
  | no fits ↦
      rw
        (
          divide-step (suc fuel) d 0 num quot,
          subtract_yes d 0 num quot (omega arith)
              (omega (arith, v.fits, quot-fits a d 0 num quot v (omega arith))),
          divide-last,
        )
        (let (q, r) =
            div_mod_unique a d (quot + 1) (num - d * 1) (omega (arith, v.total))
              (omega (arith, v.below)) in
          rw (q, r))
]
divide_lem (suc k) (suc (suc fuel)) a d num quot h v = elim (dec_lt num (d * 2 ^ suc k)) [
  | yes below ↦
      rw
        (
          divide-step (suc fuel) d (suc k) num quot,
          subtract_no d (suc k) num quot below,
          halve-state,
        )
        (divide_lem k (suc fuel) a d num quot (omega arith) (Inv-skip a d k num quot v below))
  | no fits ↦
      rw
        (
          divide-step (suc fuel) d (suc k) num quot,
          subtract_yes d (suc k) num quot (omega arith)
              (omega (arith, v.fits, quot-fits a d (suc k) num quot v (omega arith))),
          halve-state,
        )
        (divide_lem k (suc fuel) a d _ _ (omega arith)
          (Inv-subtract a d k num quot v (omega arith)))
]

-- For a divisor that is not zero, `__udivmodti4` returns the quotient and the remainder.
pub udivmodti4-eq-div :
    (num den : ℕ)
    → num < 2 ^ 128
    → den < 2 ^ 128
    → den ≢ 0
    → udivmodti4 num den ≡ quotient (num / den) (num % den)
unfolding udivmodti4
udivmodti4-eq-div num den hn hd nz =
    rw (==-ne den 0 nz, bit, shifted) (divide_lem n 130 num den num 0 (omega (arith, top)) start)
  where
    n : ℕ
    n = clz128 den

    top : IsLeading 128 n den
    top = clz128-IsLeading den hd nz

    one_le : 2 ^ n ≤ den * 2 ^ n
    one_le = omega (arith, mul-le-mul_right {m = 1} {n = den} (2 ^ n) (omega arith))

    bit : u128 (1 * 2 ^ n) ≡ 2 ^ n
    bit = omega (arith, top, one_le, two-pow-pos n)

    shifted : u128 (den * 2 ^ n) ≡ den * 2 ^ n
    shifted = mod-eq_of_lt (omega (arith, top, two-pow-pos n))

    start : Inv num den n num 0
    start = record {
      total = omega arith;
      below = omega (arith, top);
      fits = hn;
      divisor = omega arith;
    }

udivmodti4-zero : (num : ℕ) → udivmodti4 num 0 ≡ trap
unfolding udivmodti4
udivmodti4-zero num = refl

-- `__udivti3` and `__umodti3` return, for 128-bit operands with a divisor that is not zero, the q and
-- r with q * den + r = num and r < den.
pub udivti3-umodti3 :
    (num den : ℕ)
    → num < 2 ^ 128
    → den < 2 ^ 128
    → den ≢ 0
    → (q r : ℕ) × (udivti3 num den ≡ some q)
      × (umodti3 num den ≡ some r)
      × (q * den + r ≡ num)
      × (r < den)
unfolding udivti3 umodti3 get_quotient get_rem
udivti3-umodti3 num den hn hd nz = (
  num / den,
  num % den,
  rw (udivmodti4-eq-div num den hn hd nz),
  rw (udivmodti4-eq-div num den hn hd nz),
  omega arith,
  omega arith,
)
