-- ===== src/Prelude/Bytes.antt =====
-- Memory as a function from addresses to bytes, and the list of the bytes of a range.
use native.Mathlib.Nat.{zero-add, add-zero, suc-add}
use tiny_libc.Prelude.{
  ℕ, zero, suc, ◌+◌, ◌≤◌, ◌<◌, ◌≡◌, refl, ap, ap₂, ◌∙◌, arith, ◌==◌, ==-ne, ==-refl, ◌⊎◌, inl, inr,
  if◌then◌else◌, List, [], ◌∷◌, ◌++◌, length, take,
}

abbrev pub Memory : Type 0
Memory = ℕ → ℕ

abbrev pub store : Memory → ℕ → ℕ → Memory
store m a v b = if b == a then v else m b

-- The n bytes from address a on.
abbrev pub slice : Memory → ℕ → ℕ → List ℕ
slice m a zero = []
slice m a (suc n) = m a ∷ slice m (a + 1) n

-- A range that holds the bytes of a list.
abbrev pub Holds : Memory → ℕ → List ℕ → Type 0
Holds m a xs = slice m a (length xs) ≡ xs

pub length-slice : (m : Memory) (a n : ℕ) → length (slice m a n) ≡ n
length-slice m a zero = refl
length-slice m a (suc n) = ap suc (length-slice m (a + 1) n)

-- Two memories that agree on a range have the same bytes there.
pub slice-ext :
    (m m' : Memory) (a n : ℕ)
    → ((b : ℕ) → a ≤ b → b < a + n → m b ≡ m' b)
    → slice m a n ≡ slice m' a n
slice-ext m m' a zero h = refl
slice-ext m m' a (suc n) h = rw (
  h a (omega arith) (omega arith),
  slice-ext m m' (a + 1) n (λ b le lt. h b (omega arith) (omega arith)),
)

pub slice-store_out :
    (m : Memory) (a n p v : ℕ) → (p < a) ⊎ (a + n ≤ p) → slice (store m p v) a n ≡ slice m a n
slice-store_out m a n p v h =
    slice-ext (store m p v) m a n (λ b le lt. rw (==-ne b p (omega arith)))

pub slice-add : (m : Memory) (a k n : ℕ) → slice m a (k + n) ≡ slice m a k ++ slice m (a + k) n
slice-add m a zero n = rw (zero-add n, add-zero a)
slice-add m a (suc k) n =
    let right : a + suc k ≡ a + 1 + k = omega arith in
    rw (suc-add k n, right, slice-add m (a + 1) k n)

-- The range grows by the byte behind it.
pub slice-snoc : (m : Memory) (a n : ℕ) → slice m a (n + 1) ≡ slice m a n ++ m (a + n) ∷ []
slice-snoc m a n = slice-add m a n 1

pub slice-store_end :
    (m : Memory) (a n v : ℕ) → slice (store m (a + n) v) a (n + 1) ≡ slice m a n ++ v ∷ []
slice-store_end m a n v = rw (
  slice-snoc (store m (a + n) v) a n,
  slice-store_out m a n (a + n) v (inr (omega arith)),
  ==-refl (a + n),
)

-- The bytes of a list written from address a on, in order.
unfoldable pub write_at : Memory → ℕ → List ℕ → Memory
write_at m a [] = m
write_at m a (x ∷ xs) = write_at (store m a x) (a + 1) xs

pub write_at_outside :
    (xs : List ℕ) (m : Memory) (a b : ℕ) → (b < a) ⊎ (a + length xs ≤ b) → write_at m a xs b ≡ m b
unfolding write_at
write_at_outside [] m a b h = refl
write_at_outside (x ∷ xs) m a b h =
    write_at_outside xs (store m a x) (a + 1) b (omega arith) ∙ rw (==-ne b a (omega arith))

pub slice-write_at : (xs : List ℕ) (m : Memory) (a : ℕ) → slice (write_at m a xs) a (length xs) ≡ xs
unfolding write_at
slice-write_at [] m a = refl
slice-write_at (x ∷ xs) m a =
    ap₂ ◌∷◌ (write_at_outside xs (store m a x) (a + 1) a (inl (omega arith)) ∙ rw (==-refl a))
      (slice-write_at xs (store m a x) (a + 1))

-- Two ranges with the same bytes.
pub slice-shift :
    (m m' : Memory) (a b n : ℕ)
    → ((i : ℕ) → i < n → m (a + i) ≡ m' (b + i))
    → slice m a n ≡ slice m' b n
slice-shift m m' a b zero h = refl
slice-shift m m' a b (suc n) h = ap₂ ◌∷◌ (rw (add-zero a, add-zero b) at (h 0 (omega arith))) (
    slice-shift m m' (a + 1) (b + 1) n λ i lt. rw (next a i, next b i) at (h (suc i) (omega arith)))
  where
    next : (a i : ℕ) → a + suc i ≡ a + 1 + i
    next a i = omega arith

pub take-slice : (m : Memory) (a n k : ℕ) → n ≤ k → take n (slice m a k) ≡ slice m a n
take-slice m a zero k h = refl
take-slice m a (suc n) zero h = absurd (omega arith)
take-slice m a (suc n) (suc k) h = ap (λ xs. m a ∷ xs) (take-slice m (a + 1) n k (omega arith))
