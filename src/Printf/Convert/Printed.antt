-- ===== src/Printf/Convert/Printed.antt =====
-- `_vsnprintf` of libc/src/printf.c comes to an end and writes a text, whatever the format.
use native.Mathlib.Nat.{zero-add}
use tiny_libc.Prelude.{
  ℕ, zero, suc, ◌-◌, ◌<◌, ◌≤◌, ◌≡◌, ap, arith, Bool, true, false, ◌==◌, if◌then◌else◌, List, [],
  ◌∷◌, length, Option, none, some,
}
use tiny_libc.Prelude.Options.{◌>>=◌}
use tiny_libc.Printf.Output.{OutFct, Cursor, put_list, put_spaces}
use tiny_libc.Printf.Output.Printed.{
  Printed, Printed-refl, Printed-trans, Printed-put_char, Printed-put_list, Printed-put_spaces,
  Printed-if,
}
use tiny_libc.Printf.Output.Text.{put_list-idx}
use tiny_libc.Printf.Integer.Printed.{Printed-ntoa_long, Printed-ntoa_long_long}
use tiny_libc.Printf.Format.{Arg, Conversion, next_number, next_string, next_double}
use tiny_libc.Printf.Format.Shorter.{Within, read_conversion-length}
use tiny_libc.Prelude.Int.{ℤ, to_int}
use tiny_libc.Printf.Double.{Doubles}
use tiny_libc.Printf.Double.Written
use tiny_libc.Printf.Double.Written.{ftoa-Writes, etoa-Writes}
use tiny_libc.Printf.Convert.{
  double_calls, Outcome, printed, undefined, stuck, convert_integer, convert_char, convert_string,
  convert_pointer, convert_fixed, convert_exponential, is_integer, is_fixed, is_exponential,
  convert, specifier, print_all, terminate, finish, print_format, print_formatted,
}

module _ {D S : Type 0} (d : Doubles D) (out : OutFct S) (maxlen : ℕ) where
  -- What holds of the result of a conversion that began at k.
  abbrev Writes : Cursor S → Option (List (Arg D) × Cursor S) → Type 0
  Writes k none = Unit
  Writes k (some (args, k')) = Printed out maxlen k k'

  Writes-if :
      (b : Bool) (k : Cursor S) (x y : Option (List (Arg D) × Cursor S))
      → Writes k x
      → Writes k y
      → Writes k (if b then x else y)
  Writes-if true k x y p q = p
  Writes-if false k x y p q = q

  Writes->>= :
      {A : Type 0} (k : Cursor S) (x : Option A) (f : A → Option (List (Arg D) × Cursor S))
      → ((a : A) → Writes k (f a))
      → Writes k (x >>= f)
  Writes->>= k none f h = tt
  Writes->>= k (some a) f h = h a

  Writes-convert_integer :
      (c : ℕ) (v : Conversion D) (k : Cursor S) → Writes k (convert_integer out maxlen d c v k)
  unfolding convert_integer
  Writes-convert_integer c v k =
      Writes->>= k (next_number v.args) _
        (λ a. Printed-if _ (Printed-ntoa_long_long _ _ _ _ _ _ k) (Printed-ntoa_long _ _ _ _ _ _ k))

  -- The field of a character or a string: spaces before or behind it.
  Printed-field :
      (left : Bool) (n : ℕ) (text : List ℕ) (k : Cursor S)
      → Printed out maxlen k (
          let after = put_list out maxlen text (if left then k else put_spaces out maxlen n k) in
          if left then put_spaces out maxlen n after else after)
  Printed-field true n text k = Printed-trans (Printed-put_list text k) (Printed-put_spaces n _)
  Printed-field false n text k = Printed-trans (Printed-put_spaces n k) (Printed-put_list text _)

  Writes-convert_char : (v : Conversion D) (k : Cursor S) → Writes k (convert_char out maxlen d v k)
  unfolding convert_char
  Writes-convert_char v k = Writes->>= k (next_number v.args) _ (λ a.
      let start = Printed-if v.flags.left (Printed-refl k) (Printed-put_spaces (v.width - 1) k) in
      let done = Printed-trans start (Printed-put_char _ _) in
      Printed-if v.flags.left (Printed-trans done (Printed-put_spaces (v.width - 1) _)) done)

  Writes-convert_string :
      (v : Conversion D) (k : Cursor S) → Writes k (convert_string out maxlen d v k)
  unfolding convert_string
  Writes-convert_string v k =
      Writes->>= k (next_string v.args) _ (λ a. Printed-field v.flags.left _ _ k)

  Writes-convert_pointer :
      (v : Conversion D) (k : Cursor S) → Writes k (convert_pointer out maxlen d v k)
  unfolding convert_pointer
  Writes-convert_pointer v k =
      Writes->>= k (next_number v.args) _ (λ a. Printed-ntoa_long_long _ _ _ _ _ _ k)

  Writes-double :
      (k : Cursor S) (args : List (Arg D)) (x : Option (Cursor S))
      → Written.Writes d out maxlen k x
      → Writes k (x >>= λ k'. some (args, k'))
  Writes-double k args none h = tt
  Writes-double k args (some k') h = h

  Writes-convert_fixed :
      (c : ℕ) (v : Conversion D) (k : Cursor S) → Writes k (convert_fixed out maxlen d c v k)
  unfolding convert_fixed
  Writes-convert_fixed c v k =
      Writes->>= k (next_double v.args) _
        (λ a. Writes-double k a.1 _ (ftoa-Writes d out maxlen double_calls _ _ _ _ k))

  Writes-convert_exponential :
      (c : ℕ) (v : Conversion D) (k : Cursor S) → Writes k (convert_exponential out maxlen d c v k)
  unfolding convert_exponential
  Writes-convert_exponential c v k =
      Writes->>= k (next_double v.args) _
        (λ a. Writes-double k a.1 _ (etoa-Writes d out maxlen double_calls _ _ _ _ k))

  Writes-convert : (c : ℕ) (v : Conversion D) (k : Cursor S) → Writes k (convert out maxlen d c v k)
  unfolding convert
  Writes-convert c v k = Writes-if (is_integer c) k _ _ (Writes-convert_integer c v k) (
      Writes-if (is_fixed c) k _ _ (Writes-convert_fixed c v k) (
        Writes-if (is_exponential c) k _ _ (Writes-convert_exponential c v k) (
          Writes-if (c == b'c') k _ _ (Writes-convert_char v k) (
            Writes-if (c == b's') k _ _ (Writes-convert_string v k)
              (Writes-if (c == b'p') k _ _ (Writes-convert_pointer v k) (Printed-put_char c k))))))

  -- What holds of the result of a specifier, with `n` bytes of the format before it.
  abbrev Follows : ℕ → Cursor S → Option (List ℕ × List (Arg D) × Cursor S) → Type 0
  Follows n k none = Unit
  Follows n k (some (rest, args, k')) = (length rest < n) × Printed out maxlen k k'

  Follows-convert :
      (n : ℕ) (rest : List ℕ) (k : Cursor S) (x : Option (List (Arg D) × Cursor S))
      → length rest < n
      → Writes k x
      → Follows n k (x >>= λ (args, k'). some (rest, args, k'))
  Follows-convert n rest k none h p = tt
  Follows-convert n rest k (some (args, k')) h p = (h, p)

  Follows-specifier :
      (n : ℕ) (format : List ℕ) (v : Conversion D) (k : Cursor S)
      → length format ≤ n
      → Follows n k (specifier out maxlen d format v k)
  unfolding specifier
  Follows-specifier n [] v k h = tt
  Follows-specifier n (c ∷ rest) v k h =
      Follows-convert n rest k (convert out maxlen d c v k) h (Writes-convert c v k)

  Follows-conversion :
      (n : ℕ) (x : Option (Conversion D)) (k : Cursor S)
      → Within n x
      → Follows n k (x >>= λ v. specifier out maxlen d v.format v k)
  Follows-conversion n none k h = tt
  Follows-conversion n (some v) k h = Follows-specifier n v.format v k h

  -- A run that began at k ends, unless it reads what is not there, and has written a text.
  abbrev pub Ends : Cursor S → Outcome (Cursor S) → Type 0
  Ends k (printed k') = Printed out maxlen k k'
  Ends k undefined = Unit
  Ends k stuck = ⊥

  Ends-later :
      {k k' : Cursor S} (o : Outcome (Cursor S)) → Printed out maxlen k k' → Ends k' o → Ends k o
  Ends-later (printed k'') p q = Printed-trans p q
  Ends-later undefined p q = tt
  Ends-later stuck p q = q

  Ends-if :
      (b : Bool) (k : Cursor S) (x y : Outcome (Cursor S))
      → Ends k x
      → Ends k y
      → Ends k (if b then x else y)
  Ends-if true k x y p q = p
  Ends-if false k x y p q = q

  Ends-next :
      (n : ℕ) (k : Cursor S) (x : Option (List ℕ × List (Arg D) × Cursor S))
      (f : List ℕ → List (Arg D) → Cursor S → Outcome (Cursor S))
      → Follows n k x
      → ((rest : List ℕ) (args : List (Arg D)) (k' : Cursor S)
          → length rest < n
          → Ends k' (f rest args k'))
      → Ends k (elim x [ none ↦ undefined | some (rest, args, k') ↦ f rest args k' ])
  Ends-next n k none f p q = tt
  Ends-next n k (some (rest, args, k')) f p q = Ends-later (f rest args k') p.1 (q rest args k' p.0)

  -- With more fuel than bytes in the format, the loop of `_vsnprintf` ends unless it reads what is not
  -- there, and what it has then done is to write a text.
  pub Ends-print_all :
      (fuel : ℕ) (format : List ℕ) (args : List (Arg D)) (k : Cursor S)
      → length format < fuel
      → Ends k (print_all out maxlen d fuel format args k)
  unfolding print_all
  Ends-print_all zero format args k h = absurd (omega arith)
  Ends-print_all (suc fuel) [] args k h = Printed-refl k
  Ends-print_all (suc fuel) (c ∷ format) args k h =
      Ends-if (c == b'%') k _ _
        (Ends-next (length format) k _ (print_all out maxlen d fuel)
          (Follows-conversion (length format) _ k (read_conversion-length format args))
          (λ rest args' k' lt. Ends-print_all fuel rest args' k' (omega arith)))
        (Ends-later _ (Printed-put_char c k) (Ends-print_all fuel format args _ (omega arith)))

  -- `_vsnprintf` ends, unless it reads what is not there: then it has written a text and terminated it,
  -- and returns the length of the text as an `int`.
  abbrev pub Prints : S → Outcome (ℤ × S) → Type 0
  Prints s (printed (n, s')) =
      (text : List ℕ) × (n ≡ to_int (length text))
      × (s' ≡ terminate out maxlen (put_list out maxlen text (record { idx = 0; written = s })))
  Prints s undefined = Unit
  Prints s stuck = ⊥

  Ends-finish :
      (s : S) (o : Outcome (Cursor S))
      → Ends (record { idx = 0; written = s }) o
      → Prints s (finish out maxlen o)
  Ends-finish s (printed k) p = (
    p.text,
    ap to_int (rw (p.done, put_list-idx out maxlen p.text, zero-add (length p.text))),
    ap (terminate out maxlen) p.done,
  )
  Ends-finish s undefined p = tt
  Ends-finish s stuck p = p

  pub Prints-print_format :
      (format : List ℕ) (args : List (Arg D)) (s : S)
      → Prints s (print_format out maxlen d format args s)
  unfolding print_format
  Prints-print_format format args s =
      Ends-finish s _ (Ends-print_all (suc (length format)) format args _ (omega arith))

-- `_vsnprintf` on a buffer that is not null.
pub Prints-print_formatted :
    {D S : Type 0} (out : OutFct S) (maxlen : ℕ) (d : Doubles D) (format : List ℕ)
    (args : List (Arg D)) (s : S)
    → Prints d out maxlen s (print_formatted false out maxlen d format args s)
unfolding print_formatted
Prints-print_formatted out maxlen d format args s = Prints-print_format d out maxlen format args s
