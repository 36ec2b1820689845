-- ===== src/Walloc/FreeLists.antt =====
-- The free lists of small objects in libc/src/walloc.c implement lists: free puts an object in front of the
-- list of its kind, malloc takes the first one, or makes a list of a whole chunk.
use tiny_libc.Prelude.{
  ℕ, ◌%◌, ◌≤◌, ◌<◌, ◌≡◌, ◌≢◌, refl, ap, ◌∙◌, sym, subst, arith, ◌==◌, ==-ne, ==-refl, ==_iff,
  Bool-cases, inl, inr, if◌then◌else◌, some, List, ◌∷◌,
}
use tiny_libc.Walloc.{small_object_chunk_kinds, get_chunk_index, malloc_kind}
use tiny_libc.Walloc.State.{Allocator, kind_of, granules_32, push_small}
use tiny_libc.Walloc.Chain.{
  IsChain, Each, Each-map, Each-all, Each-zip, NoDup, IsChain-frame, IsChain-store,
}
use tiny_libc.Walloc.Small.{malloc, free, pop_small}
use tiny_libc.Walloc.RoundTrip.{malloc-pop, free-push}

-- The chain of a kind: no object twice, each in a chunk of the kind, and whole chunks that are no page
-- headers.
abbrev pub IsFreeList : Allocator → ℕ → List ℕ → Type 0
IsFreeList s kind xs =
    IsChain s.words (s.small_object_freelists kind) xs
    × Each (λ x. kind_of s x ≡ kind) xs
    × NoDup xs
    × Each (λ x. kind ≡ granules_32 → (x % 256 ≡ 0) × (1 ≤ get_chunk_index x)) xs

-- The lists that the memory holds, by the kind.
abbrev pub HasLists : Allocator → (ℕ → List ℕ) → Type 0
HasLists s lists = (kind : ℕ) → kind < small_object_chunk_kinds → IsFreeList s kind (lists kind)

-- The lists with another one for a kind.
abbrev pub with_list : ℕ → List ℕ → (ℕ → List ℕ) → ℕ → List ℕ
with_list kind xs lists k = if k == kind then xs else lists k

pub HasLists-with_list :
    (kind : ℕ) (xs : List ℕ) (lists : ℕ → List ℕ) (s : Allocator)
    → IsFreeList s kind xs
    → ((k : ℕ) → k < small_object_chunk_kinds → k ≢ kind → IsFreeList s k (lists k))
    → HasLists s (with_list kind xs lists)
HasLists-with_list kind xs lists s this others k lt = elim (Bool-cases (k == kind)) [
  | inl hit ↦
      subst (λ j. IsFreeList s j (with_list kind xs lists j)) (sym ((==_iff k kind).0 hit))
        (rw (==-refl kind) this)
  | inr miss ↦ rw miss (others k lt (ground (arith, miss)))
]

-- The list of a kind whose objects keep their words and kinds.
pub IsFreeList-frame :
    (kind : ℕ) (xs : List ℕ) (s s' : Allocator)
    → s'.small_object_freelists kind ≡ s.small_object_freelists kind
    → Each (λ x. s'.words x ≡ s.words x) xs
    → Each (λ x. kind_of s' x ≡ kind_of s x) xs
    → IsFreeList s kind xs
    → IsFreeList s' kind xs
IsFreeList-frame kind xs s s' head words kinds (chain, of_kind, distinct, chunks) = (
  rw head (IsChain-frame xs s.words s'.words (s.small_object_freelists kind) words chain),
  Each-zip xs (λ x e e'. e ∙ e') kinds of_kind,
  distinct,
  chunks,
)

-- Objects of another kind are other objects.
other_kind :
    (k kind ptr : ℕ) (xs : List ℕ) (s : Allocator)
    → k ≢ kind
    → kind_of s ptr ≡ kind
    → Each (λ x. kind_of s x ≡ k) xs
    → Each (λ x. x ≢ ptr) xs
other_kind k kind ptr xs s ne e = Each-map xs (λ x e' same. ne (sym e' ∙ ap (kind_of s) same ∙ e))

-- A small object that is freed becomes the first of the list of its kind, and the other lists stay.
pub free-HasLists :
    (ptr : ℕ) (s : Allocator) (lists : ℕ → List ℕ)
    → (let kind = kind_of s ptr in
        HasLists s lists
        → 1 ≤ ptr
        → kind < small_object_chunk_kinds
        → Each (λ x. x ≢ ptr) (lists kind)
        → (kind ≡ granules_32 → (ptr % 256 ≡ 0) × (1 ≤ get_chunk_index ptr))
        → (s' : Allocator) × (free ptr s ≡ some s')
          × HasLists s' (with_list kind (ptr ∷ lists kind) lists))
free-HasLists ptr s lists has nz small out chunk =
    let kind = kind_of s ptr in
    let s' = push_small kind ptr s in
    let old = has kind small in
    (
      s',
      free-push ptr s nz small,
      HasLists-with_list kind (ptr ∷ lists kind) lists s'
          (
            (
              rw (==-refl kind),
              rw (==-refl kind) (λ z. omega (arith, z)),
              rw (==-refl ptr) (
                  IsChain-store (lists kind) s.words (s.small_object_freelists kind) ptr
                    (s.small_object_freelists kind) out old.0),
            ),
            (refl, old.1),
            (out, old.2),
            (chunk, old.3),
          )
          (λ k lt ne.
            IsFreeList-frame k (lists k) s s' (rw (==-ne k kind ne))
              (Each-map (lists k) (λ x out'. rw (==-ne x ptr out'))
                (other_kind k kind ptr (lists k) s ne refl (has k lt).1))
              (Each-all (lists k) (λ x. refl)) (has k lt)),
    )

-- `malloc` of a size whose class has free objects returns the first of them, and the list loses it.
pub malloc-HasLists :
    (brk : ℕ → ℕ) (fuel size : ℕ) (s : Allocator) (lists : ℕ → List ℕ) (x : ℕ) (xs : List ℕ)
    → HasLists s lists
    → malloc_kind size < small_object_chunk_kinds
    → lists (malloc_kind size) ≡ x ∷ xs
    → (s' : Allocator) × (malloc brk fuel size s ≡ some (x, s'))
      × HasLists s' (with_list (malloc_kind size) xs lists)
unfolding pop_small
malloc-HasLists brk fuel size s lists x xs has small e =
    let kind = malloc_kind size in
    let s' = (pop_small kind s).1 in
    let old = rw e at (has kind small) in
    (
      s',
      malloc-pop brk fuel size s small old.0.1 ∙ ap (λ p. some (p, s')) old.0.0,
      HasLists-with_list kind xs lists s'
          (rw (==-refl kind, old.0.0) old.0.2, old.1.1, old.2.1, old.3.1)
          (λ k lt ne.
            IsFreeList-frame k (lists k) s s' (rw (==-ne k kind ne))
              (Each-all (lists k) (λ y. refl)) (Each-all (lists k) (λ y. refl)) (has k lt)),
    )
