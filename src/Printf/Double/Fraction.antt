-- ===== src/Printf/Double/Fraction.antt =====
-- The characters that `_ftoa` of libc/src/printf.c puts in its buffer for the two parts of a number.
use native.Mathlib.Nat.{pow-zero}
use tiny_libc.Prelude.{
  ℕ, zero, suc, ◌+◌, ◌*◌, ◌/◌, ◌%◌, ◌^◌, ◌≤◌, ◌<◌, ◌≡◌, refl, ap, ◌∙◌, arith, Bool, true, false,
  not, ◌&&◌, ltb, if◌then◌else◌, ==-ne, lt→ltb, Bool-cases, inl, inr, ℕ_discrete, List, [], ◌∷◌,
  ◌++◌, length, length-append,
}
use tiny_libc.Printf.Integer.Digits.{digit_value, number_value, quotient_small}
use tiny_libc.Printf.Double.{
  count_down, put_fraction, put_zeros, put_decimals, put_whole, finish_number,
}
use tiny_libc.Printf.Output.{Flags}

-- Decimal digits that denote a number.
abbrev pub AreDigits : List ℕ → Type 0
AreDigits [] = Unit
AreDigits (c ∷ cs) = (48 ≤ c) × (c ≤ 57) × AreDigits cs

-- A digit in front of others takes the value on from the quotient.
pushed_digit :
    (n : ℕ) (cs : List ℕ) → number_value 10 (n / 10) ((48 + n % 10) ∷ cs) ≡ number_value 10 n cs
pushed_digit n cs =
    ap (λ v. number_value 10 v cs) (whole (n / 10) (n % 10) (omega arith) ∙ omega arith)
  where
    whole : (q d : ℕ) → d < 10 → q * 10 + digit_value (48 + d) ≡ q * 10 + d
    whole q d h = ground arith

-- Digits to which others were added in front, up to a value.
abbrev Extends : ℕ → List ℕ → List ℕ → Type 0
Extends n cs ds = AreDigits ds × (number_value 10 0 ds ≡ number_value 10 n cs)

-- A number of at most k + 1 digits, of which `count` is not less.
put_fraction-Extends :
    (fuel k count n : ℕ) (cs : List ℕ)
    → k < fuel
    → n < 10 ^ suc k
    → suc k ≤ count
    → count < 2 ^ 32
    → length cs + suc k ≤ 32
    → AreDigits cs
    → (rest : ℕ) × (ds : List ℕ) × (put_fraction fuel count n cs ≡ (rest, ds))
      × (rest + length ds ≡ count + length cs)
      × Extends n cs ds
unfolding put_fraction
put_fraction-Extends zero k count n cs lt small enough wide room h = absurd (omega arith)
put_fraction-Extends (suc fuel) zero count n cs lt small enough wide room h =
    let last : n / 10 ≡ 0 = omega (arith, quotient_small n 10 0 (omega arith) small, pow-zero 10) in
    rw (lt→ltb (length cs) 32 (omega arith), last)
      (_, _, refl, omega arith, ((omega arith, omega arith, h), rw last at (pushed_digit n cs)))
put_fraction-Extends (suc fuel) (suc k) count n cs lt small enough wide room h =
    rw (lt→ltb (length cs) 32 (omega arith)) (elim (ℕ_discrete (n / 10) 0) [
      | yes last ↦
          rw last (
            _,
            _,
            refl,
            omega arith,
            ((omega arith, omega arith, h), rw last at (pushed_digit n cs)),
          )
      | no more ↦
          let r =
            put_fraction-Extends fuel k (count_down count) (n / 10) ((48 + n % 10) ∷ cs)
              (omega arith) (quotient_small n 10 (suc k) (omega arith) small) (omega arith)
              (omega arith) (omega arith) (omega arith, omega arith, h) in
          rw (==-ne (n / 10) 0 more)
            (r.0, r.1, r.2, omega (arith, r.3), (r.4.0, r.4.1 ∙ pushed_digit n cs))
    ])

put_zeros-Extends :
    (fuel count : ℕ) (cs : List ℕ)
    → count < fuel
    → length cs + count ≤ 32
    → AreDigits cs
    → (ds : List ℕ) × (put_zeros fuel count cs ≡ ds)
      × (length ds ≡ length cs + count)
      × Extends 0 cs ds
unfolding put_zeros
put_zeros-Extends zero count cs lt room h = absurd (omega arith)
put_zeros-Extends (suc fuel) zero cs lt room h = elim (Bool-cases (ltb (length cs) 32)) [
  | inl less ↦ rw less (cs, refl, omega arith, (h, refl))
  | inr full ↦ rw full (cs, refl, omega arith, (h, refl))
]
put_zeros-Extends (suc fuel) (suc count) cs lt room h =
    let r =
      put_zeros-Extends fuel count (b'0' ∷ cs) (omega arith) (omega arith)
        (omega arith, omega arith, h) in
    let next : count_down (suc count) ≡ count = omega arith in
    rw (lt→ltb (length cs) 32 (omega arith), lt→ltb 0 (suc count) (omega arith), next)
      (r.0, r.1, omega (arith, r.2), r.3)

-- For a precision of 1 to 17 and a fractional part below its power of 10, the buffer gets the point and
-- as many digits as the precision, which denote the fractional part.
put_decimals-Digits :
    (prec frac : ℕ)
    → 1 ≤ prec
    → prec ≤ 17
    → frac < 10 ^ prec
    → (ds : List ℕ) × (put_decimals prec frac [] ≡ b'.' ∷ ds)
      × (length ds ≡ prec)
      × AreDigits ds
      × (number_value 10 0 ds ≡ frac)
unfolding put_decimals
put_decimals-Digits zero frac pos le small = absurd (omega arith)
put_decimals-Digits (suc k) frac pos le small =
    let f =
      put_fraction-Extends 33 k (suc k) frac [] (omega arith) small (omega arith) (omega arith)
        (omega arith) tt in
    let z = put_zeros-Extends 33 f.0 f.1 (below f.0 f.1 f.3) (omega (arith, f.3)) f.4.0 in
    let long : length z.0 ≡ suc k = omega (arith, z.2, f.3) in
    (z.0, rw (f.2, z.1, lt→ltb (length z.0) 32 (omega (arith, long))), long, z.3.0, z.3.1 ∙ f.4.1)
  where
    below : (n : ℕ) (ds : List ℕ) → n + length ds ≡ suc k + 0 → n < 33
    below n ds e = omega arith

put_whole-Extends :
    (fuel k n : ℕ) (cs buf : List ℕ)
    → k < fuel
    → n < 10 ^ suc k
    → length cs + length buf + suc k ≤ 32
    → AreDigits cs
    → (ds : List ℕ) × (put_whole fuel n (cs ++ buf) ≡ ds ++ buf)
      × (length ds ≤ length cs + suc k)
      × Extends n cs ds
unfolding put_whole
put_whole-Extends zero k n cs buf lt small room h = absurd (omega arith)
put_whole-Extends (suc fuel) zero n cs buf lt small room h =
    let last : n / 10 ≡ 0 = omega (arith, quotient_small n 10 0 (omega arith) small, pow-zero 10) in
    rw (lt→ltb (length (cs ++ buf)) 32 (omega (arith, length-append cs buf)), last)
      (
        (48 + n % 10) ∷ cs,
        refl,
        omega arith,
        ((omega arith, omega arith, h), rw last at (pushed_digit n cs)),
      )
put_whole-Extends (suc fuel) (suc k) n cs buf lt small room h =
    rw (lt→ltb (length (cs ++ buf)) 32 (omega (arith, length-append cs buf)))
      (elim (ℕ_discrete (n / 10) 0) [
        | yes last ↦ rw last (
          (48 + n % 10) ∷ cs,
          refl,
          omega arith,
          ((omega arith, omega arith, h), rw last at (pushed_digit n cs)),
        )
        | no more ↦
            let r =
              put_whole-Extends fuel k (n / 10) ((48 + n % 10) ∷ cs) buf (omega arith)
                (quotient_small n 10 (suc k) (omega arith) small) (omega arith)
                (omega arith, omega arith, h) in
            rw (==-ne (n / 10) 0 more)
              (r.0, r.1, omega (arith, r.2), (r.3.0, r.3.1 ∙ pushed_digit n cs))
      ])

and_false : (b : Bool) → (b && false) ≡ false
and_false true = refl
and_false false = refl

-- For a whole part below 2 ^ 31, a precision of 1 to 17 and a fractional part below its power of 10, with
-- no width and none of the flags that pad or put a sign, the text is the digits of the whole part, the
-- point, and as many digits as the precision, which denote the fractional part; a minus sign stands before
-- them when the number is negative.
pub finish_number-Decimal :
    (whole prec frac : ℕ) (negative : Bool) (flags : Flags)
    → whole < 2 ^ 31
    → 1 ≤ prec
    → prec ≤ 17
    → frac < 10 ^ prec
    → flags.zeropad ≡ false
    → flags.plus ≡ false
    → flags.space ≡ false
    → (ws : List ℕ) × (ds : List ℕ) × (finish_number whole negative 0 flags
          (put_decimals prec frac [])
        ≡ (if negative then b'-' ∷ (ws ++ b'.' ∷ ds) else ws ++ b'.' ∷ ds))
      × AreDigits ws
      × (number_value 10 0 ws ≡ whole)
      × (length ds ≡ prec)
      × AreDigits ds
      × (number_value 10 0 ds ≡ frac)
unfolding finish_number
finish_number-Decimal whole prec frac negative flags fits pos le small pad plus space =
    let f = put_decimals-Digits prec frac pos le small in
    let w =
      put_whole-Extends 33 9 whole [] (b'.' ∷ f.0) (omega arith) (omega arith) (omega (arith, f.2))
        tt in
    let long : length (w.0 ++ b'.' ∷ f.0) < 32 =
      omega (arith, length-append w.0 (b'.' ∷ f.0), w.2, f.2) in
    (
      w.0,
      f.0,
      rw (f.1, w.1, pad, and_false (not flags.left))
          (elim (Bool-cases negative) [
            | inl minus ↦ rw (minus, lt→ltb (length (w.0 ++ b'.' ∷ f.0)) 32 long)
            | inr none ↦ rw (none, plus, space)
          ]),
      w.3.0,
      w.3.1,
      f.2,
      f.3,
      f.4,
    )
