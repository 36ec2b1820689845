-- ===== src/Printf/Double/Calls.antt =====
-- How many calls `_ftoa` and `_etoa` of libc/src/printf.c make of each other before they return.
use tiny_libc.Prelude.{
  ℕ, suc, ◌≤◌, ◌≡◌, refl, Bool-cases, inl, inr, arith, Bool, true, false, not, ◌||◌, if◌then◌else◌,
  Option, none, some, List, [], ◌∷◌, ◌++◌, ◌⊎◌, ◌∙◌,
}
use tiny_libc.Prelude.Int.{ℤ}
use tiny_libc.Prelude.Options.{◌>>=◌}
use tiny_libc.Printf.Output.{Flags, OutFct, Cursor, out_rev}
use tiny_libc.Printf.Output.Printed.{Printed, Printed-trans, Printed-out_rev}
use tiny_libc.Printf.Double.{Doubles, special_text, is_large}
use tiny_libc.Printf.Double.Bounds.{number_text_bound}
use tiny_libc.Printf.Double.Scientific.{
  Layout, find_exponent, choose_layout, scaled, float_width, is_special, print_special,
  put_exponent, ftoa, etoa,
}
use tiny_libc.Printf.Double.Written.{Printed-put_exponent}

module _ {D S : Type 0} (d : Doubles D) (out : OutFct S) (maxlen : ℕ) where
  -- A cursor behind a text.
  abbrev pub Returns : Cursor S → Option (Cursor S) → Type 0
  Returns k o = (k' : Cursor S) × (o ≡ some k') × Printed out maxlen k k'

  -- The precision is absent, or leaves the index of `pow10` in its table.
  abbrev pub IsShort : ℕ → Flags → Type 0
  IsShort prec flags = (flags.precision ≡ false) ⊎ (prec ≤ 49)

  Returns-special :
      (special : Option (List ℕ)) (width : ℕ) (flags : Flags) (k : Cursor S)
      (rest : Option (Cursor S))
      → Returns k rest
      → Returns k (print_special d out maxlen special width flags k rest)
  Returns-special none width flags k rest r = r
  Returns-special (some text) width flags k rest r = (_, refl, Printed-out_rev text width flags k)

  -- A number within 10 ^ 9 takes one call.
  Returns-ftoa_direct :
      (fuel : ℕ) (x : D) (prec width : ℕ) (flags : Flags) (k : Cursor S)
      → IsShort prec flags
      → is_large d x ≡ false
      → Returns k (ftoa d out maxlen (suc fuel) x prec width flags k)
  unfolding ftoa
  Returns-ftoa_direct fuel x prec width flags k short small =
      let n = number_text_bound d x prec width flags short in
      Returns-special (special_text d x flags) width flags k _
        (rw (small, n.1) (_, refl, Printed-out_rev n.0 _ flags k))

  -- How a special value is called.
  abbrev pub special_name : D → Flags → List ℕ
  special_name x flags =
      let sign =
        if d.lt x (d.neg d.dbl_max) then b'-' ∷ [] else if flags.plus then b'+' ∷ [] else [] in
      if not (d.eq x x) then b'n' ∷ b'a' ∷ b'n' ∷ [] else sign ++ b'i' ∷ b'n' ∷ b'f' ∷ []

  special_cases :
      (x : D) (flags : Flags)
      → ((is_special d out maxlen x ≡ true)
          × (special_text d x flags ≡ some (special_name x flags)))
        ⊎ (is_special d out maxlen x ≡ false)
  unfolding special_text
  special_cases x flags = elim (Bool-cases (d.eq x x)) [
    | inr nan ↦ inl (rw nan refl, rw nan refl)
    | inl same ↦ elim (Bool-cases (d.lt x (d.neg d.dbl_max))) [
      | inl minus ↦ inl (rw (same, minus) (or_true (d.lt d.dbl_max x)), rw (same, minus) refl)
      | inr above ↦ elim (Bool-cases (d.lt d.dbl_max x)) [
        | inl high ↦ inl (rw (same, high) refl, rw (same, above, high) (some_sign flags.plus))
        | inr low ↦ inr (rw (same, low, above) refl)
      ]
    ]
  ]
    where
      or_true : (b : Bool) → (b || true) ≡ true
      or_true true = refl
      or_true false = refl

      some_sign :
          (plus : Bool)
          → ◌≡◌ {A = Option (List ℕ)}
              (some (if plus then b'+' ∷ b'i' ∷ b'n' ∷ b'f' ∷ [] else b'i' ∷ b'n' ∷ b'f' ∷ []))
              (some ((if plus then b'+' ∷ [] else []) ++ b'i' ∷ b'n' ∷ b'f' ∷ []))
      some_sign true = refl
      some_sign false = refl

  -- What is written: the name of a special value, or a text.
  abbrev pub IsWritten : D → ℕ → Flags → Cursor S → Cursor S → Type 0
  IsWritten x width flags k k' =
      ((is_special d out maxlen x ≡ true)
        × (k' ≡ out_rev out maxlen (special_name x flags) width flags k))
      ⊎ ((is_special d out maxlen x ≡ false) × Printed out maxlen k k')

  ftoa-special :
      (fuel : ℕ) (x : D) (prec width : ℕ) (flags : Flags) (k : Cursor S) (text : List ℕ)
      → special_text d x flags ≡ some text
      → ftoa d out maxlen (suc fuel) x prec width flags k
        ≡ some (out_rev out maxlen text width flags k)
  unfolding ftoa
  ftoa-special fuel x prec width flags k text e = rw e refl

  -- The value that `_etoa` hands to `_ftoa`.
  abbrev pub handed : D → ℕ → Flags → D
  handed x prec flags =
      let negative = d.lt x (d.literal 0 0) in
      let value = if negative then d.neg x else x in
      let e = find_exponent d value in
      let l = choose_layout d value (if flags.precision then prec else 6) flags e.expval in
      scaled d out maxlen negative value e l

  -- The value is special, or what is handed on is within 10 ^ 9.
  abbrev pub IsScaled : D → ℕ → Flags → Type 0
  IsScaled x prec flags =
      (is_special d out maxlen x ≡ true) ⊎ (is_large d (handed x prec flags) ≡ false)

  Returns-exponent :
      (start_idx width : ℕ) (flags : Flags) (l : Layout) (k : Cursor S) (x : Option (Cursor S))
      → Returns k x
      → Returns k (x >>= λ k'. some (put_exponent d out maxlen start_idx width flags l k'))
  Returns-exponent start_idx width flags l k x (k', e, p) =
      rw e (_, refl, Printed-trans p (Printed-put_exponent d out maxlen start_idx width flags l k'))

  IsShort-layout :
      (value : D) (prec : ℕ) (flags : Flags) (expval : ℤ)
      → flags.adapt_exp ≡ false
      → IsShort prec flags
      → (let l = choose_layout d value (if flags.precision then prec else 6) flags expval in
          IsShort l.layout_prec (record flags { adapt_exp = false; precision = l.precise }))
  unfolding choose_layout
  IsShort-layout value prec flags expval plain short = rw plain (elim (Bool-cases flags.precision) [
    | inr absent ↦ inl absent
    | inl present ↦
        rw present
          (elim short [ inl absent ↦ absurd (ground (arith, present, absent)) | inr le ↦ inr le ])
  ])

  -- The calls for a number that is not special.
  Returns-etoa_number :
      (fuel : ℕ) (x : D) (prec width : ℕ) (flags : Flags) (k : Cursor S)
      → flags.adapt_exp ≡ false
      → IsShort prec flags
      → is_special d out maxlen x ≡ false
      → is_large d (handed x prec flags) ≡ false
      → Returns k (etoa d out maxlen (suc (suc fuel)) x prec width flags k)
  unfolding etoa
  Returns-etoa_number fuel x prec width flags k plain short number small =
      let negative = d.lt x (d.literal 0 0) in
      let value = if negative then d.neg x else x in
      let expval = (find_exponent d value).expval in
      let l = choose_layout d value (if flags.precision then prec else 6) flags expval in
      rw number (
        Returns-exponent k.idx width flags l k _ (
          Returns-ftoa_direct fuel (handed x prec flags) l.layout_prec (float_width d width flags l)
            (record flags { adapt_exp = false; precision = l.precise }) k
            (IsShort-layout value prec flags expval plain short) small))

  etoa-special :
      (fuel : ℕ) (x : D) (prec width : ℕ) (flags : Flags) (k : Cursor S)
      → is_special d out maxlen x ≡ true
      → etoa d out maxlen (suc fuel) x prec width flags k
        ≡ ftoa d out maxlen fuel x prec width flags k
  unfolding etoa
  etoa-special fuel x prec width flags k special = rw special refl

  -- Without the flag of "%g", for a precision that is absent or at most 49, and a value that is special or
  -- that `_etoa` brings within 10 ^ 9: `_etoa` returns, two calls deep, having written a text, which is
  -- "nan" or "inf" with its sign for a special value.
  pub etoa-IsWritten :
      (fuel : ℕ) (x : D) (prec width : ℕ) (flags : Flags) (k : Cursor S)
      → flags.adapt_exp ≡ false
      → IsShort prec flags
      → IsScaled x prec flags
      → (k' : Cursor S) × (etoa d out maxlen (suc (suc fuel)) x prec width flags k ≡ some k')
        × IsWritten x width flags k k'
  etoa-IsWritten fuel x prec width flags k plain short scale = elim (special_cases x flags) [
    | inl (special, text) ↦ (
      _,
      etoa-special (suc fuel) x prec width flags k special
          ∙ ftoa-special fuel x prec width flags k (special_name x flags) text,
      inl (special, refl),
    )
    | inr number ↦
        let r =
          Returns-etoa_number fuel x prec width flags k plain short number (small scale number) in
        (r.0, r.1, inr (number, r.2))
  ]
    where
      small :
          IsScaled x prec flags
          → is_special d out maxlen x ≡ false
          → is_large d (handed x prec flags) ≡ false
      small (inl special) number = absurd (ground (arith, special, number))
      small (inr h) number = h

  Returns-if :
      (b : Bool) (k : Cursor S) (x y : Option (Cursor S))
      → b ≡ true
      → Returns k x
      → Returns k (if b then x else y)
  Returns-if b k x y holds r = rw holds r

  -- The call of `_etoa` for a large number.
  Returns-ftoa_large :
      (fuel : ℕ) (x : D) (prec width : ℕ) (flags : Flags) (k : Cursor S)
      → is_large d x ≡ true
      → Returns k (etoa d out maxlen fuel x prec width flags k)
      → Returns k (ftoa d out maxlen (suc fuel) x prec width flags k)
  unfolding ftoa
  Returns-ftoa_large fuel x prec width flags k large r =
      Returns-special (special_text d x flags) width flags k _
        (Returns-if (is_large d x) k _ _ large r)

  -- Without the flag of "%g", for a precision that is absent or at most 49, and a value that is within
  -- 10 ^ 9, is special, or is brought within 10 ^ 9 by `_etoa`: `_ftoa` returns, three calls deep, having
  -- written a text, which is "nan" or "inf" with its sign for a special value.
  pub ftoa-IsWritten :
      (fuel : ℕ) (x : D) (prec width : ℕ) (flags : Flags) (k : Cursor S)
      → flags.adapt_exp ≡ false
      → IsShort prec flags
      → (is_large d x ≡ false) ⊎ IsScaled x prec flags
      → (k' : Cursor S) × (ftoa d out maxlen (suc (suc (suc fuel))) x prec width flags k ≡ some k')
        × IsWritten x width flags k k'
  ftoa-IsWritten fuel x prec width flags k plain short h = elim (special_cases x flags) [
    | inl (special, text) ↦ (
      _,
      ftoa-special (suc (suc fuel)) x prec width flags k (special_name x flags) text,
      inl (special, refl),
    )
    | inr number ↦ let r = by_size h number in (r.0, r.1, inr (number, r.2))
  ]
    where
      by_size :
          (is_large d x ≡ false) ⊎ IsScaled x prec flags
          → is_special d out maxlen x ≡ false
          → Returns k (ftoa d out maxlen (suc (suc (suc fuel))) x prec width flags k)
      by_size (inl small) number =
          Returns-ftoa_direct (suc (suc fuel)) x prec width flags k short small
      by_size (inr (inl special)) number = absurd (ground (arith, special, number))
      by_size (inr (inr scaled_small)) number = elim (Bool-cases (is_large d x)) [
        | inr small ↦ Returns-ftoa_direct (suc (suc fuel)) x prec width flags k short small
        | inl large ↦
            Returns-ftoa_large (suc (suc fuel)) x prec width flags k large
              (Returns-etoa_number fuel x prec width flags k plain short number scaled_small)
      ]
