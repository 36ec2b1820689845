-- ===== src/Printf/Double/Scientific.antt =====
-- libc/src/printf.c: _etoa, and _ftoa as a whole, which call each other. The fuel counts the calls.
use tiny_libc.Prelude.{
  ℕ, zero, suc, ◌+◌, ◌-◌, ◌*◌, ◌/◌, ◌%◌, ◌^◌, Bool, true, false, not, ◌&&◌, ◌||◌, ◌==◌, ltb,
  if◌then◌else◌, Option, none, some, List,
}
use tiny_libc.Prelude.Int.{ℤ, pos, negsuc, pos_part, neg_part, ◌+ℤ◌, ◌-ℤ◌, ltb_ℤ, to_int}
use tiny_libc.Prelude.Options.{◌>>=◌}
use tiny_libc.Printf.Output.{Flags, no_flags, OutFct, Cursor, put_char, put_spaces, out_rev}
use tiny_libc.Printf.Integer.{ntoa_long}
use tiny_libc.Printf.Double.{Doubles, special_text, is_large, number_text, out_width}

-- The variables of `_etoa` that the exponent decides.
pub record Exponent (D : Type 0) : Type 0 where
  pub expval : ℤ
  pub power : D

-- What `%g` makes of the precision, the flags and the exponent.
pub record Layout : Type 0 where
  pub layout_prec : ℕ
  pub precise : Bool
  pub minwidth : ℕ
  pub layout_exp : ℤ

-- `(uint64_t)` of an `int`.
abbrev pub to_u64 : ℤ → ℕ
to_u64 (pos n) = n % 2 ^ 64
to_u64 (negsuc n) = 2 ^ 64 - 1 - n

-- `(unsigned)` of an `int`.
abbrev pub to_unsigned : ℤ → ℕ
to_unsigned (pos n) = n % 2 ^ 32
to_unsigned (negsuc n) = 2 ^ 32 - 1 - n

module _ {D : Type 0} (d : Doubles D) where
  abbrev nat : ℕ → D
  nat n = d.of_int (pos n)

  -- An approximation of the decimal exponent.
  unfoldable pub estimate_exponent : D → ℤ
  estimate_exponent value =
      let u = d.bits value in
      let exp2 = pos (u / 2 ^ 52 % 2 ^ 11) -ℤ pos 1023 in
      let f = d.of_bits (u % 2 ^ 52 + 1023 * 2 ^ 52) in
      d.truncate (
        d.add
          (d.add (d.literal 1760912590558 13)
            (d.mul (d.of_int exp2) (d.literal 301029995663981 15)))
          (d.mul (d.sub f (d.literal 15 1)) (d.literal 289529654602168 15)))

  -- `2 - z + (z2 / (6 + (z2 / (10 + z2 / 14))))`
  abbrev continued_fraction : D → D
  continued_fraction z =
      let z2 = d.mul z z in
      d.add (d.sub (nat 2) z)
        (d.div z2 (d.add (nat 6) (d.div z2 (d.add (nat 10) (d.div z2 (nat 14))))))

  -- 10 ^ expval, approximately.
  unfoldable pub power_of_ten : ℤ → D
  power_of_ten expval =
      let exp2 =
        d.truncate (d.add (d.mul (d.of_int expval) (d.literal 3321928094887362 15)) half) in
      let z =
        d.sub (d.mul (d.of_int expval) (d.literal 2302585092994046 15))
          (d.mul (d.of_int exp2) (d.literal 6931471805599453 16)) in
      let f = d.of_bits (to_u64 (exp2 +ℤ pos 1023) * 2 ^ 52 % 2 ^ 64) in
      d.mul f (d.add (nat 1) (d.div (d.mul (nat 2) z) (continued_fraction z)))
    where
      half : D
      half = d.literal 5 1

  -- The exponent and its power, corrected.
  unfoldable pub find_exponent : D → Exponent D
  find_exponent value =
      let expval = estimate_exponent value in
      let power = power_of_ten expval in
      if d.lt value power
      then record { expval = expval -ℤ pos 1; power = d.div power (nat 10) }
      else record { expval = expval; power = power }

  abbrev exponent_width : ℤ → ℕ
  exponent_width expval = if ltb_ℤ expval (pos 100) && ltb_ℤ (negsuc 99) expval then 4 else 5

  unfoldable pub choose_layout : D → ℕ → Flags → ℤ → Layout
  choose_layout value prec flags expval =
      let fixed = d.le (d.literal 1 4) value && d.lt value (d.literal (10 ^ 6) 0) in
      let fewer = to_unsigned (to_int prec -ℤ expval -ℤ pos 1) in
      if not flags.adapt_exp
      then record {
        layout_prec = prec;
        precise = flags.precision;
        minwidth = exponent_width expval;
        layout_exp = expval;
      }
      else if fixed
      then record {
        layout_prec = if ltb_ℤ expval (to_int prec) then fewer else 0;
        precise = true;
        minwidth = 0;
        layout_exp = pos 0;
      }
      else record {
        layout_prec = if ltb 0 prec && flags.precision then prec - 1 else prec;
        precise = flags.precision;
        minwidth = exponent_width expval;
        layout_exp = expval;
      }

  -- The width of the floating part.
  abbrev pub float_width : ℕ → Flags → Layout → ℕ
  float_width width flags l =
      if flags.left && not (l.minwidth == 0)
      then 0
      else if ltb l.minwidth width
      then width - l.minwidth
      else 0

  module _ {S : Type 0} (out : OutFct S) (maxlen : ℕ) where
    -- `if (minwidth)`: the exponent, behind the floating part that began at an index.
    unfoldable pub put_exponent : ℕ → ℕ → Flags → Layout → Cursor S → Cursor S
    put_exponent start_idx width flags l k =
        let expval = l.layout_exp in
        let letter = put_char out maxlen (if flags.uppercase then b'E' else b'e') k in
        let number =
          ntoa_long out maxlen (pos_part expval + neg_part expval) (ltb_ℤ expval (pos 0)) 10 0
            (l.minwidth - 1) (record no_flags { zeropad = true; plus = true }) letter in
        if l.minwidth == 0
        then k
        else if flags.left
        then put_spaces out maxlen (width - (number.idx - start_idx)) number
        else number

    -- The value of the floating part, and how it is printed.
    unfoldable pub scaled : Bool → D → Exponent D → Layout → D
    scaled negative value e l =
        let value' =
          if ltb_ℤ l.layout_exp (pos 0) || ltb_ℤ (pos 0) l.layout_exp
          then d.div value e.power
          else value in
        if negative then d.neg value' else value'

    -- `return _out_rev(...)` for a special value, or the rest.
    abbrev pub print_special :
        Option (List ℕ) → ℕ → Flags → Cursor S → Option (Cursor S) → Option (Cursor S)
    print_special none width flags k rest = rest
    print_special (some text) width flags k rest = some (out_rev out maxlen text width flags k)

    abbrev pub is_special : D → Bool
    is_special x = not (d.eq x x) || (d.lt d.dbl_max x || d.lt x (d.neg d.dbl_max))

    unfoldable mutual
      pub ftoa : ℕ → D → ℕ → ℕ → Flags → Cursor S → Option (Cursor S)
      ftoa zero x prec width flags k = none
      ftoa (suc fuel) x prec width flags k =
          let exponential = etoa fuel x prec width flags k in
          print_special (special_text d x flags) width flags k (
            if is_large d x
            then exponential
            else number_text d x prec width flags >>= λ text.
                some (
                  out_rev out maxlen text (out_width (d.lt x (d.literal 0 0)) width flags) flags k))

      pub etoa : ℕ → D → ℕ → ℕ → Flags → Cursor S → Option (Cursor S)
      etoa zero x prec width flags k = none
      etoa (suc fuel) x prec width flags k =
          let negative = d.lt x (d.literal 0 0) in
          let value = if negative then d.neg x else x in
          let e = find_exponent value in
          let l = choose_layout value (if flags.precision then prec else 6) flags e.expval in
          let flags' : Flags = record flags { adapt_exp = false; precision = l.precise } in
          if is_special x
          then ftoa fuel x prec width flags k
          else ftoa fuel (scaled negative value e l) l.layout_prec (float_width width flags l)
              flags' k
            >>= λ k'. some (put_exponent k.idx width flags l k')
