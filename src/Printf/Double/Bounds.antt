-- ===== src/Printf/Double/Bounds.antt =====
-- The buffer of `_ftoa` of libc/src/printf.c, of 32 characters, and its table of powers of ten.
use tiny_libc.Prelude.{
  ℕ, zero, suc, ◌+◌, ◌-◌, ◌/◌, ◌%◌, ◌≤◌, ◌<◌, ◌≡◌, ◌⊎◌, inl, inr, refl, arith, Bool, true, false,
  not, ◌&&◌, ◌==◌, ltb, ltb→lt, lt→ltb, if◌then◌else◌, Bool-cases, some, List, [], ◌∷◌, length,
}
use tiny_libc.Printf.Output.{Flags}
use tiny_libc.Printf.Integer.{push, pad_zeros}
use tiny_libc.Printf.Double.{
  Doubles, limit_precision, put_fraction, put_zeros, put_whole, put_decimals, finish_number, pow10,
  number_text, count_down,
}

-- What the buffer holds.
abbrev pub Fits : List ℕ → Type 0
Fits buf = length buf ≤ 32

Fits-if : (b : Bool) (x y : List ℕ) → Fits x → Fits y → Fits (if b then x else y)
Fits-if true x y p q = p
Fits-if false x y p q = q

Fits-push : (c : ℕ) (buf : List ℕ) → Fits buf → Fits (push c buf)
Fits-push c buf h = ground arith

limit_precision-Fits :
    (fuel prec : ℕ) (buf : List ℕ) → Fits buf → Fits (limit_precision fuel prec buf).1
unfolding limit_precision
limit_precision-Fits zero prec buf h = h
limit_precision-Fits (suc fuel) prec buf h =
    elim (Bool-cases (ltb (length buf) 32 && ltb 17 prec)) [
      | inl more ↦
          rw more (limit_precision-Fits fuel (prec - 1) (b'0' ∷ buf) (ground (arith, more)))
      | inr done ↦ rw done h
    ]

-- A precision that the zeros can bring down to 17.
limit_precision-small :
    (fuel prec n : ℕ) (buf : List ℕ)
    → n < fuel
    → prec ≤ 17 + n
    → length buf + n ≤ 32
    → (limit_precision fuel prec buf).0 ≤ 17
unfolding limit_precision
limit_precision-small zero prec n buf lt le room = absurd (omega arith)
limit_precision-small (suc fuel) prec zero buf lt le room =
    elim (Bool-cases (ltb (length buf) 32 && ltb 17 prec)) [
      | inl more ↦ absurd (ground (arith, more))
      | inr done ↦ rw done le
    ]
limit_precision-small (suc fuel) prec (suc n) buf lt le room =
    elim (Bool-cases (ltb (length buf) 32 && ltb 17 prec)) [
      | inl more ↦ rw more (
          limit_precision-small fuel (prec - 1) n (b'0' ∷ buf) (omega arith) (omega arith)
            (omega arith))
      | inr done ↦ rw done (ground (arith, done))
    ]

put_fraction-Fits :
    (fuel count frac : ℕ) (buf : List ℕ) → Fits buf → Fits (put_fraction fuel count frac buf).1
unfolding put_fraction
put_fraction-Fits zero count frac buf h = h
put_fraction-Fits (suc fuel) count frac buf h = elim (Bool-cases (ltb (length buf) 32)) [
  | inl less ↦ rw less (elim (Bool-cases (frac / 10 == 0)) [
    | inl last ↦ rw last (omega (arith, ltb→lt (length buf) 32 less))
    | inr more ↦ rw more (
        put_fraction-Fits fuel (count_down count) (frac / 10) ((48 + frac % 10) ∷ buf)
          (omega (arith, ltb→lt (length buf) 32 less)))
  ])
  | inr full ↦ rw full h
]

put_zeros-Fits : (fuel count : ℕ) (buf : List ℕ) → Fits buf → Fits (put_zeros fuel count buf)
unfolding put_zeros
put_zeros-Fits zero count buf h = h
put_zeros-Fits (suc fuel) count buf h = elim (Bool-cases (ltb (length buf) 32 && ltb 0 count)) [
  | inl more ↦ rw more (put_zeros-Fits fuel (count_down count) (b'0' ∷ buf) (ground (arith, more)))
  | inr done ↦ rw done h
]

put_whole-Fits : (fuel whole : ℕ) (buf : List ℕ) → Fits buf → Fits (put_whole fuel whole buf)
unfolding put_whole
put_whole-Fits zero whole buf h = h
put_whole-Fits (suc fuel) whole buf h = elim (Bool-cases (ltb (length buf) 32)) [
  | inl less ↦ rw less (
      Fits-if (whole / 10 == 0) _ _ (omega (arith, ltb→lt (length buf) 32 less)) (
        put_whole-Fits fuel (whole / 10) ((48 + whole % 10) ∷ buf)
          (omega (arith, ltb→lt (length buf) 32 less))))
  | inr full ↦ rw full h
]

pad_zeros-Fits : (fuel bound : ℕ) (buf : List ℕ) → Fits buf → Fits (pad_zeros fuel bound buf)
unfolding pad_zeros
pad_zeros-Fits zero bound buf h = h
pad_zeros-Fits (suc fuel) bound buf h =
    elim (Bool-cases (ltb (length buf) bound && ltb (length buf) 32)) [
      | inl more ↦ rw more (pad_zeros-Fits fuel bound (b'0' ∷ buf) (ground (arith, more)))
      | inr done ↦ rw done h
    ]

finish_number-Fits :
    (whole : ℕ) (negative : Bool) (width : ℕ) (flags : Flags) (buf : List ℕ)
    → Fits buf
    → Fits (finish_number whole negative width flags buf)
unfolding finish_number
finish_number-Fits whole negative width flags buf h =
    let digits = put_whole-Fits 33 whole buf h in
    let padded =
      Fits-if (not flags.left && flags.zeropad) _ _ (pad_zeros-Fits 32 _ _ digits) digits in
    Fits-if negative _ _ (Fits-push b'-' _ padded) (
      Fits-if flags.plus _ _ (Fits-push b'+' _ padded)
        (Fits-if flags.space _ _ (Fits-push b' ' _ padded) padded))

put_decimals-Fits : (prec frac : ℕ) (buf : List ℕ) → Fits buf → Fits (put_decimals prec frac buf)
unfolding put_decimals
put_decimals-Fits prec frac buf h =
    Fits-push b'.' _ (put_zeros-Fits 33 _ _ (put_fraction-Fits 33 prec frac buf h))

-- For a number that is neither special nor large, and a precision that is absent or at most 49, the table
-- of powers of ten is read inside its 20 entries, and the text is at most the 32 characters of the
-- buffer, whatever the arithmetic of doubles gives.
pub number_text_bound :
    {D : Type 0} (d : Doubles D) (x : D) (prec width : ℕ) (flags : Flags)
    → (flags.precision ≡ false) ⊎ (prec ≤ 49)
    → (text : List ℕ) × (number_text d x prec width flags ≡ some text) × (length text ≤ 32)
unfolding number_text pow10
number_text_bound d x prec width flags h =
    let l = limit_precision 33 chosen [] in
    let small : l.0 ≤ 17 =
      limit_precision-small 33 chosen 32 [] (omega arith) (allowed h) (omega arith) in
    let kept = limit_precision-Fits 33 chosen [] (omega arith) in
    rw (lt→ltb l.0 20 (omega (arith, small))) (
      _,
      refl,
      Fits-if (l.0 == 0) _ _ (finish_number-Fits _ _ width flags _ kept)
          (finish_number-Fits _ _ width flags _ (put_decimals-Fits _ _ _ kept)),
    )
  where
    chosen : ℕ
    chosen = if flags.precision then prec else 6

    allowed : (flags.precision ≡ false) ⊎ (prec ≤ 49) → chosen ≤ 49
    allowed (inl none) = rw none (omega arith)
    allowed (inr le) = ground arith
