-- ===== src/Walloc/Compaction.antt =====
-- `maybe_compact_free_large_objects` of libc/src/walloc.c: the list of large objects that it leaves.
use mathlib.Core.List.{append-nil, append_assoc}
use tiny_libc.Prelude.{
  ℕ, zero, suc, ◌+◌, ◌<◌, ◌≡◌, ◌≢◌, refl, ap, ◌∙◌, sym, subst, arith, ◌⊎◌, inl, inr, true, false,
  ==-ne, none, some, List, [], ◌∷◌, ◌++◌, length, length-append,
}
use tiny_libc.Walloc.State.{Allocator, get_link}
use tiny_libc.Walloc.Chain.{IsChain, IsIn}
use tiny_libc.Walloc.Merge.{
  next_free, maybe_merge_free_large_object, compact_from, maybe_compact_free_large_objects,
}
use tiny_libc.Walloc.Absorb.{IsLargeList, free_bytes, chain_nonzero}
use tiny_libc.Walloc.Compact.{IsIn-right, IsChain-from, IsWalk, merge_from-IsMerged}

-- No object of the list has a free one behind it.
abbrev pub IsCompact : Allocator → List ℕ → Type 0
IsCompact s xs = (y : ℕ) → IsIn y xs → next_free s y ≡ none

IsIn-snoc : (a x : ℕ) (xs : List ℕ) → IsIn a (xs ++ x ∷ []) → IsIn a xs ⊎ (a ≡ x)
IsIn-snoc a x [] (inl e) = inr e
IsIn-snoc a x [] (inr i) = absurd i
IsIn-snoc a x (y ∷ ys) (inl e) = inl (inl e)
IsIn-snoc a x (y ∷ ys) (inr i) = elim (IsIn-snoc a x ys i) [ inl j ↦ inl (inr j) | inr e ↦ inr e ]

-- The walk goes on behind the object.
IsCompact-snoc :
    (s s' : Allocator) (obj : ℕ) (ds ds' : List ℕ)
    → IsCompact s ds
    → ((y : ℕ) → IsIn y ds' → IsIn y ds × (next_free s' y ≡ next_free s y))
    → next_free s' obj ≡ none
    → IsCompact s' (ds' ++ obj ∷ [])
IsCompact-snoc s s' obj ds ds' done kept free y i = elim (IsIn-snoc y obj ds' i) [
  | inl j ↦ (kept y j).1 ∙ done y (kept y j).0
  | inr e ↦ ap (next_free s') e ∙ free
]

-- One unit for each object of the list, and one for each that the walk has yet to come to, are enough.
compact_from-IsCompact :
    (n prev : ℕ) (s : Allocator) (ds zs : List ℕ)
    → IsWalk prev s (ds ++ zs)
    → IsChain s.words (get_link s prev) zs
    → IsCompact s ds
    → length (ds ++ zs) + length zs < n
    → (s' : Allocator) × (ys : List ℕ) × (compact_from n prev s ≡ some s')
      × IsLargeList s' ys
      × IsCompact s' ys
      × (free_bytes s' ys ≡ free_bytes s (ds ++ zs))
unfolding compact_from maybe_merge_free_large_object
compact_from-IsCompact zero prev s ds zs w c done enough = absurd (omega (arith, enough))
compact_from-IsCompact (suc n) prev s ds [] w c done enough =
    (s, ds ++ [], rw (compact_from, c) refl, w.0, rw (append-nil ds) done, refl)
compact_from-IsCompact (suc n) prev s ds (obj ∷ zs) w c done enough =
    let all : length (ds ++ obj ∷ zs) ≡ length ds + suc (length zs) = length-append ds (obj ∷ zs) in
    let (prev', s', ds', zs', e, m) =
      merge_from-IsMerged (suc n) obj prev s ds zs w c.0 (omega (arith, all, enough)) in
    let xs' = ds' ++ obj ∷ zs' in
    let joined : (ds' ++ obj ∷ []) ++ zs' ≡ xs' = append_assoc ds' (obj ∷ []) zs' in
    let left : length xs' ≡ length ds' + suc (length zs') = length-append ds' (obj ∷ zs') in
    let nz : obj ≢ 0 =
      chain_nonzero xs' s'.words s'.large_objects obj m.0.0.0
        (IsIn-right obj ds' (obj ∷ zs') (inl refl)) in
    let rest =
      compact_from-IsCompact n obj s' (ds' ++ obj ∷ []) zs'
        (
          subst (IsLargeList s') (sym joined) m.0.0,
          inr (subst (IsIn obj) (sym joined) (IsIn-right obj ds' (obj ∷ zs') (inl refl))),
        )
        (rw (==-ne obj 0 nz) (IsChain-from ds' zs' s'.words s'.large_objects obj m.0.0.0))
        (IsCompact-snoc s s' obj ds ds' done m.6 m.3)
        (omega (arith, ap length joined, left, all, m.4, m.5, enough)) in
    (
      rest.0,
      rest.1,
      rw (compact_from, ==-ne (get_link s prev) 0 c.1, c.0, e, m.1) rest.2,
      rest.3,
      rest.4,
      rest.5 ∙ ap (free_bytes s') joined ∙ m.2,
    )

-- On a list of free large objects in whole chunks, each within a page or up to the end of one, of which no
-- two end at one place, and where what lies behind an object, if it is free, is in the list: no ASSERT of
-- the compaction fails, and it leaves such a list of as many bytes in all, headers counted, in which no
-- object has a free one behind it.
pub maybe_compact_free_large_objects-IsCompact :
    (fuel : ℕ) (s : Allocator) (xs : List ℕ)
    → IsLargeList s xs
    → s.pending_large_object_compact ≡ true
    → length xs + length xs < fuel
    → (s' : Allocator) × (ys : List ℕ) × (maybe_compact_free_large_objects fuel s ≡ some s')
      × IsLargeList s' ys
      × IsCompact s' ys
      × (free_bytes s' ys ≡ free_bytes s xs)
unfolding maybe_compact_free_large_objects next_free
maybe_compact_free_large_objects-IsCompact fuel s xs list pending enough =
    let s0 : Allocator = record s { pending_large_object_compact = false } in
    rw pending
      (compact_from-IsCompact fuel 0 s0 [] xs (list, inl refl) list.0 (λ y i. absurd i) enough)
