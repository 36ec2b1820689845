-- ===== src/Printf/Format/Shorter.antt =====
-- The parser of libc/src/printf.c never goes back in the format.
use tiny_libc.Prelude.{
  ℕ, ◌+◌, ◌-◌, ◌*◌, ◌%◌, ◌^◌, ◌≤◌, arith, Bool, true, false, Bool-cases, inl, inr, ◌==◌,
  if◌then◌else◌, List, [], ◌∷◌, length, Option, none, some, drop, length-drop, head_or,
}
use tiny_libc.Prelude.Options.{◌>>=◌}
use tiny_libc.Printf.Output.{Flags, no_flags}
use tiny_libc.Printf.Format.{
  Arg, Conversion, is_digit, read_number, is_flag, set_flag, star_width, star_precision, read_flags,
  next_number, read_width, read_digits, read_precision, read_length, read_conversion,
}

read_number-length : (str : List ℕ) (i : ℕ) → length (read_number i str).1 ≤ length str
unfolding read_number
read_number-length [] i = omega arith
read_number-length (c ∷ str) i = elim (Bool-cases (is_digit c)) [
  | inl digit ↦ rw digit (omega (arith, read_number-length str ((i * 10 + (c - b'0')) % 2 ^ 32)))
  | inr other ↦ rw other (omega arith)
]

read_flags-length :
    (format : List ℕ) (flags : Flags) → length (read_flags format flags).1 ≤ length format
unfolding read_flags
read_flags-length [] flags = omega arith
read_flags-length (c ∷ format) flags = elim (Bool-cases (is_flag c)) [
  | inl flag ↦ rw flag (omega (arith, read_flags-length format (set_flag c flags)))
  | inr other ↦ rw other (omega arith)
]

module _ {D : Type 0} where
  -- What holds of a conversion that a step of the parser returns.
  abbrev pub Within : ℕ → Option (Conversion D) → Type 0
  Within n none = Unit
  Within n (some v) = length v.format ≤ n

  Within-if :
      (b : Bool) (n : ℕ) (x y : Option (Conversion D))
      → Within n x
      → Within n y
      → Within n (if b then x else y)
  Within-if true n x y p q = p
  Within-if false n x y p q = q

  Within->>= :
      (n : ℕ) (x : Option (Conversion D)) (f : Conversion D → Option (Conversion D))
      → Within n x
      → ((v : Conversion D) → length v.format ≤ n → Within n (f v))
      → Within n (x >>= f)
  Within->>= n none f p q = tt
  Within->>= n (some v) f p q = q v p

  star_width-length :
      (v : Conversion D) (n : Option (ℕ × List (Arg D))) → Within (length v.format) (star_width v n)
  unfolding star_width
  star_width-length v none = tt
  star_width-length v (some n) = omega (arith, length-drop 1 v.format)

  read_width-length : (v : Conversion D) → Within (length v.format) (read_width v)
  unfolding read_width
  read_width-length v =
      Within-if (is_digit (head_or 0 v.format)) _ _ _ (read_number-length v.format 0) (
        Within-if (head_or 0 v.format == b'*') _ _ _ (star_width-length v (next_number v.args))
          (omega arith))

  star_precision-length :
      (v : Conversion D) (n : Option (ℕ × List (Arg D)))
      → Within (length v.format) (star_precision v n)
  unfolding star_precision
  star_precision-length v none = tt
  star_precision-length v (some n) = omega (arith, length-drop 1 v.format)

  read_digits-length : (v : Conversion D) → Within (length v.format) (read_digits v)
  unfolding read_digits
  read_digits-length v =
      Within-if (is_digit (head_or 0 v.format)) _ _ _ (read_number-length v.format 0) (
        Within-if (head_or 0 v.format == b'*') _ _ _ (star_precision-length v (next_number v.args))
          (omega arith))

  Within-weaken : (n m : ℕ) (x : Option (Conversion D)) → n ≤ m → Within n x → Within m x
  Within-weaken n m none h p = tt
  Within-weaken n m (some v) h p = omega arith

  read_precision-length : (v : Conversion D) → Within (length v.format) (read_precision v)
  unfolding read_precision
  read_precision-length v =
      Within-if (head_or 0 v.format == b'.') _ _ _
        (Within-weaken (length (drop 1 v.format)) (length v.format) _
          (omega (arith, length-drop 1 v.format)) (read_digits-length _))
        (omega arith)

  read_length-length : (v : Conversion D) → length (read_length v).format ≤ length v.format
  unfolding read_length
  read_length-length v = ground (arith, length-drop 1 v.format, length-drop 1 (drop 1 v.format))

  -- A conversion never has more of the format left than it began with.
  pub read_conversion-length :
      (format : List ℕ) (args : List (Arg D)) → Within (length format) (read_conversion format args)
  unfolding read_conversion
  read_conversion-length format args =
      Within->>= (length format) (read_width _) _
        (Within-weaken _ (length format) (read_width _) (read_flags-length format no_flags)
          (read_width-length _))
        (λ v h.
          Within->>= (length format) (read_precision v) _
            (Within-weaken _ (length format) (read_precision v) h (read_precision-length v))
            (λ w h'. omega (arith, read_length-length w)))
