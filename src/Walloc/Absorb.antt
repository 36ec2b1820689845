-- ===== src/Walloc/Absorb.antt =====
-- One round of `maybe_merge_free_large_object` of libc/src/walloc.c: a free large object takes the one behind
-- it in, which leaves the list.
use tiny_libc.Prelude.{
  ℕ, ◌+◌, ◌≡◌, ◌≢◌, refl, ◌∙◌, sym, subst, arith, inl, inr, Bool-cases, ◌==◌, ==-ne, ==-refl,
  ==_iff, some, List, [], ◌∷◌,
}
use tiny_libc.Prelude.Bytes.{Memory}
use tiny_libc.Walloc.State.{Allocator, get_size, set_link}
use tiny_libc.Walloc.Chain.{IsChain, IsIn, each_at, NoDup}
use tiny_libc.Walloc.Merge.{next_free}
use tiny_libc.Walloc.Split.{IsPlaced}
use tiny_libc.Walloc.Unlink.{
  without, before, without-absent, without-IsIn, before-IsIn, IsIn-behind, before-miss,
  IsChain-unlink,
}

-- Behind a large object.
abbrev pub end_of : Allocator → ℕ → ℕ
end_of s x = x + 16 + get_size s x

-- A free large object in its place, with no free one behind it or one of the list.
abbrev pub IsMergeable : Allocator → List ℕ → ℕ → Type 0
IsMergeable s xs x = IsPlaced x (get_size s x) × ((e : ℕ) → next_free s x ≡ some e → IsIn e xs)

-- The list of the free large objects, of which no two end at one place.
abbrev pub IsLargeList : Allocator → List ℕ → Type 0
IsLargeList s xs =
    IsChain s.words s.large_objects xs
    × NoDup xs
    × ((x : ℕ) → IsIn x xs → IsMergeable s xs x)
    × ((x y : ℕ) → IsIn x xs → IsIn y xs → end_of s x ≡ end_of s y → x ≡ y)

-- The bytes of the objects, their headers counted.
abbrev pub free_bytes : Allocator → List ℕ → ℕ
free_bytes s [] = 0
free_bytes s (x ∷ xs) = 16 + get_size s x + free_bytes s xs

pub chain_nonzero : (xs : List ℕ) (m : Memory) (p x : ℕ) → IsChain m p xs → IsIn x xs → x ≢ 0
chain_nonzero [] m p x c i = absurd i
chain_nonzero (y ∷ ys) m p x c (inl e) = λ z. c.1 (c.0 ∙ sym e ∙ z)
chain_nonzero (y ∷ ys) m p x c (inr i) = chain_nonzero ys m (m y) x c.2 i

-- The bytes of a list whose objects keep their sizes.
pub free_bytes-frame :
    (xs : List ℕ) (s s' : Allocator)
    → ((x : ℕ) → IsIn x xs → get_size s' x ≡ get_size s x)
    → free_bytes s' xs ≡ free_bytes s xs
free_bytes-frame [] s s' same = refl
free_bytes-frame (x ∷ xs) s s' same =
    omega (arith, same x (inl refl), free_bytes-frame xs s s' (λ y i. same y (inr i)))

-- The bytes of an object go with it.
pub free_bytes-without :
    (a : ℕ) (xs : List ℕ) (s : Allocator)
    → NoDup xs
    → IsIn a xs
    → free_bytes s (without a xs) + (16 + get_size s a) ≡ free_bytes s xs
free_bytes-without a [] s d i = absurd i
free_bytes-without a (x ∷ xs) s d (inl e) =
    rw (sym e, ==-refl a) (rw (without-absent a xs (rw (sym e) at (d.0))) (omega arith))
free_bytes-without a (x ∷ xs) s d (inr i) =
    let ne = each_at (λ y. y ≢ x) xs a d.0 i in
    rw (==-ne x a (λ e. ne (sym e))) (omega (arith, free_bytes-without a xs s d.1 i))

-- The bytes when one object grows.
pub free_bytes-grow :
    (a n : ℕ) (xs : List ℕ) (s s' : Allocator)
    → NoDup xs
    → IsIn a xs
    → ((x : ℕ) → IsIn x xs → x ≢ a → get_size s' x ≡ get_size s x)
    → get_size s' a ≡ get_size s a + n
    → free_bytes s' xs ≡ free_bytes s xs + n
free_bytes-grow a n xs s s' d i same grown =
    let rest =
      free_bytes-frame (without a xs) s s'
        (λ x j. let r = without-IsIn a x xs j in same x r.0 r.1) in
    omega (arith, rest, grown, free_bytes-without a xs s d i, free_bytes-without a xs s' d i)

-- The list after the link at p leads to what follows `next`.
abbrev pub IsUnlinked : Allocator → List ℕ → ℕ → ℕ → Type 0
IsUnlinked s xs next p =
    let s' = set_link p (s.words next) s in IsChain s'.words s'.large_objects (without next xs)

pub set_link-IsUnlinked :
    (xs : List ℕ) (next : ℕ) (s : Allocator)
    → IsChain s.words s.large_objects xs
    → NoDup xs
    → IsIn next xs
    → IsUnlinked s xs next (before 0 xs next)
set_link-IsUnlinked [] next s c d i = absurd i
set_link-IsUnlinked (x ∷ xs) next s c d i = elim (Bool-cases (x == next)) [
  | inl hit ↦
      let same = (==_iff x next).0 hit in
      rw hit (rw (without-absent next xs (rw same at (d.0))) (rw same at (c.2)))
  | inr miss ↦
      let p = before x xs next in
      let nz = chain_nonzero (x ∷ xs) s.words s.large_objects p c (before-IsIn x next xs) in
      subst (IsUnlinked s (x ∷ xs) next) (before-miss 0 next x xs miss) (
        rw (==-ne p 0 nz) (
          rw miss
            (c.0, c.1, IsChain-unlink xs s.words x next c.2 d (IsIn-behind next x xs miss i))))
]
