-- ===== src/Printf/Output/Printed.antt =====
-- The output functions of libc/src/printf.c do nothing but write a text.
use tiny_libc.Prelude.{
  ℕ, ◌≡◌, refl, sym, ap, ◌∙◌, Bool, true, false, if◌then◌else◌, List, [], ◌∷◌, ◌++◌,
}
use tiny_libc.Printf.Output.{Flags, OutFct, Cursor, put_char, put_list, put_spaces, out_rev}
use tiny_libc.Printf.Output.Text.{
  put_list-append, put_spaces-eq-put_list, out_rev-justify, justify, spaces,
}

module _ {S : Type 0} (out : OutFct S) (maxlen : ℕ) where
  -- The cursor has moved behind a text that was written.
  pub record Printed (k k' : Cursor S) : Type 0 where
    pub text : List ℕ
    pub done : k' ≡ put_list out maxlen text k

module _ {S : Type 0} {out : OutFct S} {maxlen : ℕ} where
  pub Printed-refl : (k : Cursor S) → Printed out maxlen k k
  unfolding put_list
  Printed-refl k = record { text = []; done = refl }

  pub Printed-trans :
      {k k' k'' : Cursor S}
      → Printed out maxlen k k'
      → Printed out maxlen k' k''
      → Printed out maxlen k k''
  Printed-trans {k} p q = record {
    text = p.text ++ q.text;
    done =
        q.done
        ∙ ap (put_list out maxlen q.text) p.done
        ∙ sym (put_list-append out maxlen p.text q.text k);
  }

  pub Printed-put_list :
      (xs : List ℕ) (k : Cursor S) → Printed out maxlen k (put_list out maxlen xs k)
  Printed-put_list xs k = record { text = xs; done = refl }

  pub Printed-put_char : (c : ℕ) (k : Cursor S) → Printed out maxlen k (put_char out maxlen c k)
  unfolding put_list
  Printed-put_char c k = record { text = c ∷ []; done = refl }

  pub Printed-put_spaces : (n : ℕ) (k : Cursor S) → Printed out maxlen k (put_spaces out maxlen n k)
  Printed-put_spaces n k = record { text = spaces n; done = put_spaces-eq-put_list out maxlen n k }

  pub Printed-out_rev :
      (buf : List ℕ) (width : ℕ) (flags : Flags) (k : Cursor S)
      → Printed out maxlen k (out_rev out maxlen buf width flags k)
  Printed-out_rev buf width flags k = record {
    text = justify buf width flags;
    done = out_rev-justify out maxlen buf width flags k;
  }

  pub Printed-if :
      (b : Bool) {k x y : Cursor S}
      → Printed out maxlen k x
      → Printed out maxlen k y
      → Printed out maxlen k (if b then x else y)
  Printed-if true p q = p
  Printed-if false p q = q
