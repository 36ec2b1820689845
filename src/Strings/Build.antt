-- ===== src/Strings/Build.antt =====
-- `strcpy`, `strcat` and `atoi` of libc/src/string.c.
use native.Mathlib.Nat.{add-zero}
use tiny_libc.Prelude.{
  ℕ, zero, suc, ◌+◌, ◌-◌, ◌*◌, ◌^◌, ◌≤◌, ◌<◌, ◌≡◌, ◌⊎◌, inl, refl, ap, ◌∙◌, arith, true, false,
  some, ◌==◌, ==-ne, List, [], ◌∷◌, ◌++◌, length,
}
use tiny_libc.Prelude.Bytes.{Memory, store}
use tiny_libc.Prelude.Int.{ℤ, pos, to_int, to_int_small, neg_ℤ}
use tiny_libc.Strings.{strcpy, seek_end, strcat, push_digit, is_digit, atoi_from, atoi}
use tiny_libc.Strings.Scan.{IsString}
use tiny_libc.Strings.Copy.{store_other, store_self}

-- A string does not change with memory outside it.
IsString-ext :
    (xs : List ℕ) (m m' : Memory) (p : ℕ)
    → ((b : ℕ) → p ≤ b → b ≤ p + length xs → m' b ≡ m b)
    → IsString m p xs
    → IsString m' p xs
IsString-ext [] m m' p h v = h p (omega arith) (omega arith) ∙ v
IsString-ext (x ∷ xs) m m' p h (e, nz, v) = (
  h p (omega arith) (omega arith) ∙ e,
  nz,
  IsString-ext xs m m' (p + 1) (λ b le lt. h b (omega arith) (omega arith)) v,
)

-- `m'` has the string at `dest`, and differs from `m` nowhere else.
pub record Written (m m' : Memory) (dest : ℕ) (xs : List ℕ) : Type 0 where
  pub string : IsString m' dest xs
  pub outside : (b : ℕ) → (b < dest) ⊎ (dest + length xs < b) → m' b ≡ m b

-- With more fuel than bytes `strcpy` ends on a string that does not overlap its destination, copies it
-- with its terminator, and changes nothing else.
pub strcpy-Written :
    (xs : List ℕ) (fuel : ℕ) (m : Memory) (dest src : ℕ)
    → length xs < fuel
    → IsString m src xs
    → (dest + length xs < src) ⊎ (src + length xs < dest)
    → (m' : Memory) × (strcpy fuel m dest src ≡ some m') × Written m m' dest xs
unfolding strcpy
strcpy-Written xs zero m dest src h v apart = absurd (omega arith)
strcpy-Written [] (suc fuel) m dest src h v apart = (
  store m dest (m src),
  rw v,
  record {
    string = store_self m dest (m src) dest refl ∙ v;
    outside = λ b o. store_other m dest (m src) b (omega arith);
  },
)
strcpy-Written (x ∷ xs) (suc fuel) m dest src h (e, nz, v) apart =
    let first : Memory = store m dest (m src) in
    let v' : IsString first (src + 1) xs =
      IsString-ext xs m first (src + 1) (λ b le lt. store_other m dest (m src) b (omega arith)) v in
    let (m', next, w) =
      strcpy-Written xs fuel first (dest + 1) (src + 1) (omega arith) v' (omega arith) in
    (
      m',
      rw (e, ==-ne x 0 nz) (rw e at next),
      record {
        string = (
          w.outside dest (inl (omega arith)) ∙ store_self m dest (m src) dest refl ∙ e,
          nz,
          w.string,
        );
        outside = λ b o. w.outside b (omega arith) ∙ store_other m dest (m src) b (omega arith);
      },
    )

seek_end-IsString :
    (xs : List ℕ) (fuel : ℕ) (m : Memory) (p : ℕ)
    → length xs < fuel
    → IsString m p xs
    → seek_end fuel m p ≡ some (p + length xs)
unfolding seek_end
seek_end-IsString xs zero m p h v = absurd (omega arith)
seek_end-IsString [] (suc fuel) m p h v = rw (v, add-zero p)
seek_end-IsString (x ∷ xs) (suc fuel) m p h (e, nz, v) =
    rw (e, ==-ne x 0 nz)
      (seek_end-IsString xs fuel m (p + 1) (omega arith) v ∙ ap some (omega arith))

-- Two pieces of a string make up the whole.
IsString-append :
    (xs ys : List ℕ) (m m' : Memory) (p : ℕ)
    → IsString m p xs
    → ((b : ℕ) → b < p + length xs → m' b ≡ m b)
    → IsString m' (p + length xs) ys
    → IsString m' p (xs ++ ys)
IsString-append [] ys m m' p v h w = rw (add-zero p) at w
IsString-append (x ∷ xs) ys m m' p (e, nz, v) h w = (
  h p (omega arith) ∙ e,
  nz,
  IsString-append xs ys m m' (p + 1) v (λ b lt. h b (omega arith)) (rw next at w),
)
  where
    next : p + suc (length xs) ≡ p + 1 + length xs
    next = omega arith

-- With more fuel than either has bytes `strcat` ends on two strings, the second outside the room that
-- the first grows into, puts their concatenation at the first, and changes nothing outside it.
pub strcat-Written :
    (xs ys : List ℕ) (fuel : ℕ) (m : Memory) (dest src : ℕ)
    → length xs < fuel
    → length ys < fuel
    → IsString m dest xs
    → IsString m src ys
    → (dest + length xs + length ys < src) ⊎ (src + length ys < dest + length xs)
    → (m' : Memory) × (strcat fuel m dest src ≡ some m')
      × IsString m' dest (xs ++ ys)
      × ((b : ℕ) → (b < dest) ⊎ (dest + length xs + length ys < b) → m' b ≡ m b)
unfolding strcat
strcat-Written xs ys fuel m dest src h k v w apart =
    let (m', copied, wr) = strcpy-Written ys fuel m (dest + length xs) src k w apart in
    (
      m',
      rw (seek_end-IsString xs fuel m dest h v) copied,
      IsString-append xs ys m m' dest v (λ b lt. wr.outside b (inl lt)) wr.string,
      λ b o. wr.outside b (omega arith),
    )

-- The value of decimal digits behind the value k of those before them.
abbrev pub digits_value : ℕ → List ℕ → ℕ
digits_value k [] = k
digits_value k (c ∷ cs) = digits_value (10 * k + (c - b'0')) cs

abbrev pub AllDigits : List ℕ → Type 0
AllDigits [] = Unit
AllDigits (c ∷ cs) = (is_digit c ≡ true) × AllDigits cs

digits_value_le : (k : ℕ) (cs : List ℕ) → k ≤ digits_value k cs
digits_value_le k [] = omega arith
digits_value_le k (c ∷ cs) = omega (arith, digits_value_le (10 * k + (c - b'0')) cs)

atoi_from-value :
    (cs : List ℕ) (fuel : ℕ) (m : Memory) (p k : ℕ)
    → length cs < fuel
    → IsString m p cs
    → AllDigits cs
    → digits_value k cs < 2 ^ 31
    → atoi_from fuel m p k ≡ some (digits_value k cs)
unfolding atoi_from
atoi_from-value cs zero m p k h v d small = absurd (omega arith)
atoi_from-value [] (suc fuel) m p k h v d small = rw v
atoi_from-value (c ∷ cs) (suc fuel) m p k h (e, nz, v) (dc, d) small =
    rw (e, ==-ne c 0 nz, dc, push)
      (atoi_from-value cs fuel m (p + 1) (10 * k + (c - b'0')) (omega arith) v d small)
  where
    push : push_digit k c ≡ 10 * k + (c - b'0')
    push = ground (arith, digits_value_le (10 * k + (c - b'0')) cs)

-- What may stand before the digits.
pub data Sign : Type 0 where
  plain plus minus : Sign

abbrev pub sign_text : Sign → List ℕ
sign_text plain = []
sign_text plus = b'+' ∷ []
sign_text minus = b'-' ∷ []

abbrev pub signed : Sign → ℕ → ℤ
signed plain n = pos n
signed plus n = pos n
signed minus n = neg_ℤ (pos n)

-- The first byte of digits is no sign.
no_sign :
    (cs : List ℕ) (m : Memory) (p : ℕ)
    → IsString m p cs
    → AllDigits cs
    → ((m p == b'-') ≡ false) × ((m p == b'+') ≡ false)
no_sign [] m p v d = rw v (refl, refl)
no_sign (c ∷ cs) m p (e, nz, v) (dc, d) = rw e (ground arith)

negated : (n : ℕ) → n < 2 ^ 31 → to_int (2 ^ 32 - n) ≡ neg_ℤ (pos n)
negated n h = ground arith

-- With more fuel than digits `atoi` ends on a string of decimal digits, with or without a sign, and returns the value that the
-- string denotes, if the digits stand for a number below 2^31.
pub atoi-signed :
    (sign : Sign) (cs : List ℕ) (fuel : ℕ) (m : Memory) (p : ℕ)
    → length cs < fuel
    → IsString m p (sign_text sign ++ cs)
    → AllDigits cs
    → digits_value 0 cs < 2 ^ 31
    → atoi fuel m p ≡ some (signed sign (digits_value 0 cs))
unfolding atoi
atoi-signed plain cs fuel m p h v d small =
    let (not_minus, not_plus) = no_sign cs m p v d in
    rw (not_minus, not_plus, atoi_from-value cs fuel m p 0 h v d small)
      (ap some (to_int_small _ small))
atoi-signed plus cs fuel m p h (e, nz, v) d small =
    rw (e, atoi_from-value cs fuel m (p + 1) 0 h v d small) (ap some (to_int_small _ small))
atoi-signed minus cs fuel m p h (e, nz, v) d small =
    rw (e, atoi_from-value cs fuel m (p + 1) 0 h v d small) (ap some (negated _ small))
