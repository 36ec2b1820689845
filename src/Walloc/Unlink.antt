-- ===== src/Walloc/Unlink.antt =====
-- How `maybe_merge_free_large_object` of libc/src/walloc.c takes an object out of the list of large objects.
use tiny_libc.Prelude.{
  ℕ, zero, suc, ◌≤◌, ◌<◌, ◌≡◌, ◌≢◌, refl, ap, ◌∙◌, sym, subst, arith, ◌⊎◌, inl, inr, Bool-cases,
  false, ◌==◌, ==-ne, ==-refl, ==_iff, if◌then◌else◌, some, List, [], ◌∷◌, ◌++◌, length,
}
use tiny_libc.Prelude.Bytes.{Memory, store}
use tiny_libc.Walloc.State.{Allocator}
use tiny_libc.Walloc.Chain.{IsChain, Each, IsIn, each_at, NoDup, IsChain-store}
use tiny_libc.Walloc.Merge.{find_link}

-- The list without an address.
abbrev pub without : ℕ → List ℕ → List ℕ
without a [] = []
without a (x ∷ xs) = if x == a then without a xs else x ∷ without a xs

-- The object in front of `next`, or the one before the list.
abbrev pub before : ℕ → List ℕ → ℕ → ℕ
before prev [] next = prev
before prev (x ∷ xs) next = if x == next then prev else before x xs next

pub without-absent : (a : ℕ) (xs : List ℕ) → Each (λ x. x ≢ a) xs → without a xs ≡ xs
without-absent a [] out = refl
without-absent a (x ∷ xs) out = rw (==-ne x a out.0) (ap (λ ys. x ∷ ys) (without-absent a xs out.1))

pub IsIn-without : (a b : ℕ) (xs : List ℕ) → IsIn b xs → b ≢ a → IsIn b (without a xs)
IsIn-without a b [] i ne = i
IsIn-without a b (x ∷ xs) (inl e) ne = rw (sym e, ==-ne b a ne) (inl refl)
IsIn-without a b (x ∷ xs) (inr i) ne = elim (Bool-cases (x == a)) [
  | inl hit ↦ rw hit (IsIn-without a b xs i ne)
  | inr miss ↦ rw miss (inr (IsIn-without a b xs i ne))
]

kept_IsIn :
    (a b x : ℕ) (xs : List ℕ)
    → (x == a) ≡ false
    → (IsIn b (without a xs) → IsIn b xs × (b ≢ a))
    → IsIn b (x ∷ without a xs)
    → IsIn b (x ∷ xs) × (b ≢ a)
kept_IsIn a b x xs miss rest (inl e) = (inl e, λ same. ground (arith, miss, e, same))
kept_IsIn a b x xs miss rest (inr j) = let r = rest j in (inr r.0, r.1)

pub without-IsIn : (a b : ℕ) (xs : List ℕ) → IsIn b (without a xs) → IsIn b xs × (b ≢ a)
without-IsIn a b [] i = absurd i
without-IsIn a b (x ∷ xs) i = elim (Bool-cases (x == a)) [
  | inl hit ↦ let r = without-IsIn a b xs (rw hit at i) in (inr r.0, r.1)
  | inr miss ↦ kept_IsIn a b x xs miss (without-IsIn a b xs) (rw miss at i)
]

pub Each-without : (P : ℕ → Type 0) (a : ℕ) (xs : List ℕ) → Each P xs → Each P (without a xs)
Each-without P a [] h = tt
Each-without P a (x ∷ xs) h = elim (Bool-cases (x == a)) [
  | inl hit ↦ rw hit (Each-without P a xs h.1)
  | inr miss ↦ rw miss (h.0, Each-without P a xs h.1)
]

pub NoDup-without : (a : ℕ) (xs : List ℕ) → NoDup xs → NoDup (without a xs)
NoDup-without a [] h = tt
NoDup-without a (x ∷ xs) h = elim (Bool-cases (x == a)) [
  | inl hit ↦ rw hit (NoDup-without a xs h.1)
  | inr miss ↦ rw miss (Each-without (λ y. y ≢ x) a xs h.0, NoDup-without a xs h.1)
]

pub without-append : (a : ℕ) (xs ys : List ℕ) → without a (xs ++ ys) ≡ without a xs ++ without a ys
without-append a [] ys = refl
without-append a (x ∷ xs) ys = elim (Bool-cases (x == a)) [
  | inl hit ↦ rw hit (without-append a xs ys)
  | inr miss ↦ rw miss (ap (λ zs. x ∷ zs) (without-append a xs ys))
]

pub length-without_le : (a : ℕ) (xs : List ℕ) → length (without a xs) ≤ length xs
length-without_le a [] = omega arith
length-without_le a (x ∷ xs) = elim (Bool-cases (x == a)) [
  | inl hit ↦ rw hit (omega (arith, length-without_le a xs))
  | inr miss ↦ rw miss (omega (arith, length-without_le a xs))
]

pub length-without_lt : (a : ℕ) (xs : List ℕ) → IsIn a xs → length (without a xs) < length xs
length-without_lt a [] i = absurd i
length-without_lt a (x ∷ xs) (inl e) = rw (sym e, ==-refl a) (omega (arith, length-without_le a xs))
length-without_lt a (x ∷ xs) (inr i) = elim (Bool-cases (x == a)) [
  | inl hit ↦ rw hit (omega (arith, length-without_lt a xs i))
  | inr miss ↦ rw miss (omega (arith, length-without_lt a xs i))
]

pub IsIn-behind : (a x : ℕ) (xs : List ℕ) → (x == a) ≡ false → IsIn a (x ∷ xs) → IsIn a xs
IsIn-behind a x xs miss (inl e) = absurd (ground (arith, miss, e))
IsIn-behind a x xs miss (inr j) = j

pub before-miss :
    (prev next x : ℕ) (xs : List ℕ)
    → (x == next) ≡ false
    → before x xs next ≡ before prev (x ∷ xs) next
before-miss prev next x xs miss = rw miss refl

-- The walk finds the object in front.
pub find_link-before :
    (n next : ℕ) (s : Allocator) (prev walk : ℕ) (xs : List ℕ)
    → IsChain s.words walk xs
    → IsIn next xs
    → length xs ≤ n
    → find_link n next s prev walk ≡ some (before prev xs next)
unfolding find_link
find_link-before n next s prev walk [] c i le = absurd i
find_link-before zero next s prev walk (x ∷ xs) c i le = absurd (omega arith)
find_link-before (suc n) next s prev walk (x ∷ xs) c i le = elim (Bool-cases (x == next)) [
  | inl hit ↦ rw (==-ne walk 0 c.1, c.0, hit)
  | inr miss ↦ rw (==-ne walk 0 c.1) (
      rw (c.0, miss)
        (find_link-before n next s x (s.words x) xs c.2 (IsIn-behind next x xs miss i)
          (omega (arith, le))))
]

-- The object in front leads to the object.
pub before-leads :
    (prev next : ℕ) (xs : List ℕ) (m : Memory) (walk : ℕ)
    → IsChain m walk xs
    → IsIn next xs
    → ((before prev xs next ≡ prev) × (walk ≡ next))
      ⊎ (IsIn (before prev xs next) xs × (m (before prev xs next) ≡ next))
before-leads prev next [] m walk c i = absurd i
before-leads prev next (x ∷ xs) m walk c i = elim (Bool-cases (x == next)) [
  | inl hit ↦ rw hit (inl (refl, c.0 ∙ (==_iff x next).0 hit))
  | inr miss ↦ inr (
      subst (λ b. IsIn b (x ∷ xs) × (m b ≡ next)) (before-miss prev next x xs miss)
        (further (before-leads x next xs m (m x) c.2 (IsIn-behind next x xs miss i))))
]
  where
    further :
        ((before x xs next ≡ x) × (m x ≡ next))
          ⊎ (IsIn (before x xs next) xs × (m (before x xs next) ≡ next))
        → IsIn (before x xs next) (x ∷ xs) × (m (before x xs next) ≡ next)
    further (inl (e, l)) = (inl e, rw e l)
    further (inr (j, l)) = (inr j, l)

pub before-IsIn : (prev next : ℕ) (xs : List ℕ) → IsIn (before prev xs next) (prev ∷ xs)
before-IsIn prev next [] = inl refl
before-IsIn prev next (x ∷ xs) = elim (Bool-cases (x == next)) [
  | inl hit ↦ inl (rw hit refl)
  | inr miss ↦
      inr (subst (λ b. IsIn b (x ∷ xs)) (before-miss prev next x xs miss) (before-IsIn x next xs))
]

-- A write of what follows `next` into the object in front of it takes it out of the chain.
pub IsChain-unlink :
    (xs : List ℕ) (m : Memory) (x next : ℕ)
    → IsChain m (m x) xs
    → NoDup (x ∷ xs)
    → IsIn next xs
    → (let m' = store m (before x xs next) (m next) in IsChain m' (m' x) (without next xs))
IsChain-unlink [] m x next c d i = absurd i
IsChain-unlink (y ∷ ys) m x next c d i = elim (Bool-cases (y == next)) [
  | inl hit ↦
      let same = (==_iff y next).0 hit in
      rw (hit, ==-refl x)
        (rw (without-absent next ys (rw same at (d.1.0)))
          (IsChain-store ys m (m next) x (m next) d.0.1 (rw same at (c.2))))
  | inr miss ↦
      let p = before y ys next in
      let apart = each_at (λ z. z ≢ x) (y ∷ ys) p d.0 (before-IsIn y next ys) in
      rw miss (
        rw (==-ne x p (λ e. apart (sym e)))
          (c.0, c.1, IsChain-unlink ys m y next c.2 d.1 (IsIn-behind next y ys miss i)))
]
