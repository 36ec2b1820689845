-- ===== src/Printf/Double/Written.antt =====
-- `_ftoa` and `_etoa` of libc/src/printf.c do nothing but write a text.
use tiny_libc.Prelude.{
  ℕ, zero, suc, ◌+◌, ◌-◌, Bool, true, false, if◌then◌else◌, Option, none, some, List,
}
use tiny_libc.Prelude.Int.{pos, pos_part, neg_part, ltb_ℤ}
use tiny_libc.Prelude.Options.{◌>>=◌}
use tiny_libc.Printf.Output.{Flags, no_flags, OutFct, Cursor, put_char, out_rev}
use tiny_libc.Printf.Output.Printed.{
  Printed, Printed-refl, Printed-trans, Printed-put_char, Printed-put_spaces, Printed-out_rev,
  Printed-if,
}
use tiny_libc.Printf.Integer.Printed.{Printed-ntoa_long}
use tiny_libc.Printf.Integer.{ntoa_long}
use tiny_libc.Printf.Double.{Doubles, special_text, is_large, number_text}
use tiny_libc.Printf.Double.Scientific.{Layout, print_special, put_exponent, ftoa, etoa}

module _ {D S : Type 0} (d : Doubles D) (out : OutFct S) (maxlen : ℕ) where
  -- A result, if there is one, is the cursor behind a text.
  abbrev pub Writes : Cursor S → Option (Cursor S) → Type 0
  Writes k none = Unit
  Writes k (some k') = Printed out maxlen k k'

  Writes-if :
      (b : Bool) (k : Cursor S) (x y : Option (Cursor S))
      → Writes k x
      → Writes k y
      → Writes k (if b then x else y)
  Writes-if true k x y p q = p
  Writes-if false k x y p q = q

  Writes-text :
      (x : Option (List ℕ)) (width : ℕ) (flags : Flags) (k : Cursor S)
      → Writes k (x >>= λ text. some (out_rev out maxlen text width flags k))
  Writes-text none width flags k = tt
  Writes-text (some text) width flags k = Printed-out_rev text width flags k

  pub Printed-put_exponent :
      (start_idx width : ℕ) (flags : Flags) (l : Layout) (k : Cursor S)
      → Printed out maxlen k (put_exponent d out maxlen start_idx width flags l k)
  unfolding put_exponent
  Printed-put_exponent start_idx width flags l k =
      Printed-if _ (Printed-refl k)
        (Printed-if _ (Printed-trans number (Printed-put_spaces _ _)) number)
    where
      letter : ℕ
      letter = if flags.uppercase then b'E' else b'e'

      number : Printed out maxlen k (
          ntoa_long out maxlen
            (pos_part l.layout_exp + neg_part l.layout_exp)
            (ltb_ℤ l.layout_exp (pos 0))
            10
            0
            (l.minwidth - 1)
            (record no_flags { zeropad = true; plus = true })
            (put_char out maxlen letter k))
      number = Printed-trans (Printed-put_char letter k) (Printed-ntoa_long _ _ _ _ _ _ _)

  Writes-exponent :
      (x : Option (Cursor S)) (start_idx width : ℕ) (flags : Flags) (l : Layout) (k : Cursor S)
      → Writes k x
      → Writes k (x >>= λ k'. some (put_exponent d out maxlen start_idx width flags l k'))
  Writes-exponent none start_idx width flags l k h = tt
  Writes-exponent (some k') start_idx width flags l k h =
      Printed-trans h (Printed-put_exponent start_idx width flags l k')

  Writes-special :
      (text : Option (List ℕ)) (width : ℕ) (flags : Flags) (k : Cursor S) (rest : Option (Cursor S))
      → Writes k rest
      → Writes k (print_special d out maxlen text width flags k rest)
  Writes-special none width flags k rest h = h
  Writes-special (some text) width flags k rest h = Printed-out_rev text width flags k

  mutual
    unfolding ftoa etoa

    pub ftoa-Writes :
        (fuel : ℕ) (x : D) (prec width : ℕ) (flags : Flags) (k : Cursor S)
        → Writes k (ftoa d out maxlen fuel x prec width flags k)
    ftoa-Writes zero x prec width flags k = tt
    ftoa-Writes (suc fuel) x prec width flags k =
        Writes-special (special_text d x flags) width flags k _ (
          Writes-if (is_large d x) k _ _ (etoa-Writes fuel x prec width flags k)
            (Writes-text (number_text d x prec width flags) _ flags k))

    pub etoa-Writes :
        (fuel : ℕ) (x : D) (prec width : ℕ) (flags : Flags) (k : Cursor S)
        → Writes k (etoa d out maxlen fuel x prec width flags k)
    etoa-Writes zero x prec width flags k = tt
    etoa-Writes (suc fuel) x prec width flags k =
        Writes-if _ k _ _ (ftoa-Writes fuel x prec width flags k)
          (Writes-exponent _ k.idx width flags _ k (ftoa-Writes fuel _ _ _ _ k))
