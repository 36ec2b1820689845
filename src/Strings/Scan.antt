-- ===== src/Strings/Scan.antt =====
-- `strlen`, `strchr`, `memchr` and `strcmp` of libc/src/string.c.
use tiny_libc.Prelude.{
  ℕ, zero, suc, ◌+◌, ◌-◌, ◌<◌, ◌≡◌, ◌≢◌, inl, inr, refl, sym, ap, ◌∙◌, arith, true, false,
  Bool-cases, Option, none, some, if◌then◌else◌, ==-ne, ==-refl, ℕ_discrete, dec_lt, List, [], ◌∷◌,
  length,
}
use tiny_libc.Prelude.Bytes.{Memory}
use tiny_libc.Prelude.Int.{ℤ, pos, negsuc, ◌-ℤ◌}
use tiny_libc.Strings.{strlen_from, strlen, strchr, memchr, strcmp, is_char, difference}

-- A string at `p`: its bytes, none of them 0, and the terminator.
abbrev pub IsString : Memory → ℕ → List ℕ → Type 0
IsString m p [] = m p ≡ 0
IsString m p (x ∷ xs) = (m p ≡ x) × (x ≢ 0) × IsString m (p + 1) xs

strlen_from-IsString :
    (xs : List ℕ) (fuel : ℕ) (m : Memory) (s n : ℕ)
    → length xs < fuel
    → IsString m s xs
    → strlen_from fuel m s n ≡ some (n + length xs)
unfolding strlen_from
strlen_from-IsString xs zero m s n h v = absurd (omega arith)
strlen_from-IsString [] (suc fuel) m s n h v = rw v (ground arith)
strlen_from-IsString (x ∷ xs) (suc fuel) m s n h (e, nz, v) =
    rw (e, ==-ne x 0 nz)
      (strlen_from-IsString xs fuel m (s + 1) (n + 1) (omega arith) v ∙ ap some (omega arith))

-- With more fuel than bytes `strlen` ends on a string, and returns its length.
pub strlen-IsString :
    (xs : List ℕ) (fuel : ℕ) (m : Memory) (p : ℕ)
    → length xs < fuel
    → IsString m p xs
    → strlen fuel m p ≡ some (length xs)
unfolding strlen
strlen-IsString xs fuel m p h v = strlen_from-IsString xs fuel m p 0 h v ∙ ap some (omega arith)

-- What `strchr` may return for the string at `p`: the first byte, the terminator included, that is
-- `c`, or null if there is none.
pub data FirstAt (m : Memory) (c : ℤ) : ℕ → List ℕ → Option ℕ → Type 0 where
  here : {p : ℕ} {xs : List ℕ} → is_char (m p) c ≡ true → FirstAt m c p xs (some p)
  ended : {p : ℕ} → is_char (m p) c ≡ false → FirstAt m c p [] none
  beyond :
      {p x : ℕ} {xs : List ℕ} {r : Option ℕ}
      → is_char (m p) c ≡ false
      → FirstAt m c (p + 1) xs r
      → FirstAt m c p (x ∷ xs) r

-- With more fuel than bytes `strchr` ends on a string, and returns the address of the first byte, the
-- terminator included, that is `c` as a `char`, or null if there is none.
pub strchr-FirstAt :
    (xs : List ℕ) (fuel : ℕ) (m : Memory) (p : ℕ) (c : ℤ)
    → length xs < fuel
    → IsString m p xs
    → (r : Option ℕ) × (strchr fuel m p c ≡ some r) × FirstAt m c p xs r
unfolding strchr
strchr-FirstAt xs zero m p c h v = absurd (omega arith)
strchr-FirstAt [] (suc fuel) m p c h v = elim (Bool-cases (is_char (m p) c)) [
  | inl found ↦ (some p, rw found, here found)
  | inr other ↦ (none, rw (other, v), ended other)
]
strchr-FirstAt (x ∷ xs) (suc fuel) m p c h (e, nz, v) = elim (Bool-cases (is_char (m p) c)) [
  | inl found ↦ (some p, rw found, here found)
  | inr other ↦
      let (r, next, first) = strchr-FirstAt xs fuel m (p + 1) c (omega arith) v in
      (r, rw (other, e, ==-ne x 0 nz) next, beyond other first)
]

-- The loop of `memchr` never moves on: for a length that is not zero the call looks at the first byte
-- only, and returns its address or null.
pub memchr-eq-first :
    (m : Memory) (s : ℕ) (c : ℤ) (len : ℕ)
    → memchr m s c (suc len) ≡ (if is_char (m s) c then some s else none)
unfolding memchr
memchr-eq-first m s c zero = refl
memchr-eq-first m s c (suc len) = elim (Bool-cases (is_char (m s) c)) [
  | inl found ↦ rw found
  | inr other ↦ rw other (rw other at (memchr-eq-first m s c len))
]

-- The order of strings by their first difference, as unsigned bytes.
pub data Before : List ℕ → List ℕ → Type 0 where
  shorter : {y : ℕ} {ys : List ℕ} → Before [] (y ∷ ys)
  smaller : {x y : ℕ} {xs ys : List ℕ} → x < y → Before (x ∷ xs) (y ∷ ys)
  same : {x y : ℕ} {xs ys : List ℕ} → x ≡ y → Before xs ys → Before (x ∷ xs) (y ∷ ys)

-- What each result of a comparison says.
pub data Ordered (xs ys : List ℕ) : ℤ → Type 0 where
  equal : xs ≡ ys → Ordered xs ys (pos 0)
  less : {n : ℕ} → Before xs ys → Ordered xs ys (negsuc n)
  greater : {n : ℕ} → Before ys xs → Ordered xs ys (pos (suc n))

difference-lt : (x y : ℕ) → x < y → difference x y ≡ negsuc (y - x - 1)
unfolding ◌-ℤ◌
difference-lt x y h = ground arith

difference-gt : (x y : ℕ) → y < x → difference x y ≡ pos (suc (x - y - 1))
unfolding ◌-ℤ◌
difference-gt x y h = ground arith

difference_self : (x y : ℕ) → x ≡ y → difference x y ≡ pos 0
unfolding ◌-ℤ◌
difference_self x y h = ground arith

less_at : {x y : ℕ} {xs ys : List ℕ} → x < y → Before xs ys → Ordered xs ys (difference x y)
less_at {x} {y} h b = rw (difference-lt x y h) (less b)

greater_at : {x y : ℕ} {xs ys : List ℕ} → y < x → Before ys xs → Ordered xs ys (difference x y)
greater_at {x} {y} h b = rw (difference-gt x y h) (greater b)

Ordered-difference : (x y : ℕ) (xs ys : List ℕ) → x ≢ y → Ordered (x ∷ xs) (y ∷ ys) (difference x y)
Ordered-difference x y xs ys ne = elim (dec_lt x y) [
  | yes lt ↦ less_at lt (smaller lt)
  | no ge ↦ let gt : y < x = omega arith in greater_at gt (smaller gt)
]

Ordered-cons : (x : ℕ) (xs ys : List ℕ) (r : ℤ) → Ordered xs ys r → Ordered (x ∷ xs) (x ∷ ys) r
Ordered-cons x xs ys r (equal e) = equal (ap (λ zs. x ∷ zs) e)
Ordered-cons x xs ys r (less b) = less (same refl b)
Ordered-cons x xs ys r (greater b) = greater (same refl b)

-- On two strings, with more fuel than the first has bytes, `strcmp` ends, and its result is zero, negative or positive as the first is equal to,
-- before or behind the second.
pub strcmp-Ordered :
    (xs ys : List ℕ) (fuel : ℕ) (m : Memory) (p q : ℕ)
    → length xs < fuel
    → IsString m p xs
    → IsString m q ys
    → (r : ℤ) × (strcmp fuel m p q ≡ some r) × Ordered xs ys r
unfolding strcmp
strcmp-Ordered xs ys zero m p q h v w = absurd (omega arith)
strcmp-Ordered [] [] (suc fuel) m p q h v w =
    (pos 0, rw v (ap some (difference_self 0 (m q) (sym w))), equal refl)
strcmp-Ordered [] (y ∷ ys) (suc fuel) m p q h v (e, nz, w) =
    (difference 0 y, rw (v, e), less_at (omega arith) shorter)
strcmp-Ordered (x ∷ xs) [] (suc fuel) m p q h (e, nz, v) w =
    (difference x 0, rw (e, w, ==-ne x 0 nz), greater_at (omega arith) shorter)
strcmp-Ordered (x ∷ xs) (y ∷ ys) (suc fuel) m p q h (e, nz, v) (e', nz', w) =
    elim (ℕ_discrete x y) [
      | yes eq ↦
          let (r, next, o) = strcmp-Ordered xs ys fuel m (p + 1) (q + 1) (omega arith) v w in
          (r, rw (e, e', ==-ne x 0 nz, eq, ==-refl y) next, rw (← eq) (Ordered-cons x xs ys r o))
      | no ne ↦
          (difference x y, rw (e, e', ==-ne x 0 nz, ==-ne x y ne), Ordered-difference x y xs ys ne)
    ]
