-- ===== src/Printf/Output/Text.antt =====
-- What the output functions of libc/src/printf.c write is a text, character by character.
use mathlib.Core.List.{append-nil}
use tiny_libc.Prelude.{
  ℕ, zero, suc, ◌+◌, ◌-◌, ◌≡◌, refl, arith, Bool-cases, inl, inr, ◌||◌, if◌then◌else◌, List, [],
  ◌∷◌, ◌++◌, length, replicate,
}
use tiny_libc.Printf.Output.{Flags, OutFct, Cursor, put_char, put_list, put_spaces, out_rev}

abbrev pub spaces : ℕ → List ℕ
spaces n = replicate n b' '

-- A text in a field of a width: to the left, to the right, or as it is where zeros fill the field.
abbrev pub justify : List ℕ → ℕ → Flags → List ℕ
justify text width flags =
    (if flags.left || flags.zeropad then [] else spaces (width - length text))
    ++ text
    ++ (if flags.left then spaces (width - length text) else [])

module _ {S : Type 0} (out : OutFct S) (maxlen : ℕ) where
  pub put_list-append :
      (xs ys : List ℕ) (k : Cursor S)
      → put_list out maxlen (xs ++ ys) k ≡ put_list out maxlen ys (put_list out maxlen xs k)
  unfolding put_list
  put_list-append [] ys k = refl
  put_list-append (x ∷ xs) ys k = put_list-append xs ys (put_char out maxlen x k)

  pub put_spaces-eq-put_list :
      (n : ℕ) (k : Cursor S) → put_spaces out maxlen n k ≡ put_list out maxlen (spaces n) k
  unfolding put_list put_spaces
  put_spaces-eq-put_list zero k = refl
  put_spaces-eq-put_list (suc n) k = put_spaces-eq-put_list n (put_char out maxlen b' ' k)

  pub put_list-idx :
      (xs : List ℕ) (k : Cursor S) → (put_list out maxlen xs k).idx ≡ k.idx + length xs
  unfolding put_list
  put_list-idx [] k = omega arith
  put_list-idx (x ∷ xs) k = omega (arith, put_list-idx xs (put_char out maxlen x k))

  -- `_out_rev` writes the reversed buffer as a field of the width.
  pub out_rev-justify :
      (buf : List ℕ) (width : ℕ) (flags : Flags) (k : Cursor S)
      → out_rev out maxlen buf width flags k ≡ put_list out maxlen (justify buf width flags) k
  unfolding out_rev
  out_rev-justify buf width flags k = elim (Bool-cases flags.left) [
    | inl left ↦ rw (
      left,
      put_list-append buf (spaces (width - length buf)),
      put_spaces-eq-put_list,
      put_list-idx buf k,
      back,
    )
    | inr right ↦ elim (Bool-cases flags.zeropad) [
      | inl filled ↦ rw (right, filled, append-nil buf)
      | inr open_field ↦ rw (
        right,
        open_field,
        append-nil (spaces (width - length buf) ++ buf),
        put_list-append (spaces (width - length buf)) buf,
        put_spaces-eq-put_list,
      )
    ]
  ]
    where
      back : k.idx + length buf - k.idx ≡ length buf
      back = omega arith
