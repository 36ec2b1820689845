-- ===== src/Walloc/CompactionTests.antt =====
-- The compaction of libc/src/walloc.c on a page of two adjacent free objects.
use tiny_libc.Prelude.{
  ℕ, ◌≡◌, refl, ap, ◌∙◌, sym, subst, arith, inl, inr, true, some, List, [], ◌∷◌,
}
use tiny_libc.Prelude.Options.{◌>>=◌}
use tiny_libc.Walloc.{free_large_object, align}
use tiny_libc.Walloc.State.{Allocator, get_size}
use tiny_libc.Walloc.Chain.{IsIn}
use tiny_libc.Walloc.Merge.{
  next_free, maybe_compact_free_large_objects, compact_from, maybe_merge_free_large_object,
  merge_from, absorb, find_link,
}
use tiny_libc.Walloc.HeapTests.{two_free}
use tiny_libc.Walloc.Absorb.{end_of, IsMergeable, IsLargeList, free_bytes}
use tiny_libc.Walloc.Compaction.{IsCompact, maybe_compact_free_large_objects-IsCompact}

abbrev two_adjacent : Allocator
two_adjacent = record two_free {
  kinds = λ a. free_large_object;
  pending_large_object_compact = true;
}

abbrev both : List ℕ
both = 131328 ∷ 131840 ∷ []

both-IsMergeable : (x : ℕ) → IsIn x both → IsMergeable two_adjacent both x
unfolding next_free
both-IsMergeable x (inl e) = subst (IsMergeable two_adjacent both) (sym e) (
  (refl, omega arith, refl, omega arith, inl refl),
  λ a h. let same : a ≡ 131840 = ground (arith, h) in inr (inl same),
)
both-IsMergeable x (inr (inl e)) =
    subst (IsMergeable two_adjacent both) (sym e)
      ((refl, omega arith, refl, omega arith, inl refl), λ a h. absurd (ground (arith, h)))
both-IsMergeable x (inr (inr i)) = absurd i

both_distinct :
    (x y : ℕ) → IsIn x both → IsIn y both → end_of two_adjacent x ≡ end_of two_adjacent y → x ≡ y
both_distinct x y (inl e) (inl d) h = e ∙ sym d
both_distinct x y (inl e) (inr (inl d)) h =
    absurd (omega (arith, ap (end_of two_adjacent) (sym e) ∙ h ∙ ap (end_of two_adjacent) d))
both_distinct x y (inr (inl e)) (inl d) h =
    absurd (omega (arith, ap (end_of two_adjacent) (sym e) ∙ h ∙ ap (end_of two_adjacent) d))
both_distinct x y (inr (inl e)) (inr (inl d)) h = e ∙ sym d
both_distinct x y (inr (inr i)) j h = absurd i
both_distinct x y i (inr (inr j)) h = absurd j

both-IsLargeList : IsLargeList two_adjacent both
both-IsLargeList = (
  (refl, (λ e. omega (arith, e)), (refl, (λ e. omega (arith, e)), refl)),
  (((λ e. omega (arith, e)), tt), (tt, tt)),
  both-IsMergeable,
  both_distinct,
)

-- The two become one object.
merged_size :
    maybe_compact_free_large_objects 5 two_adjacent >>= (λ s. some (get_size s 131328)) ≡ some 65264
unfolding maybe_compact_free_large_objects compact_from maybe_merge_free_large_object merge_from
    next_free absorb find_link align
merged_size = refl

maybe_compact_free_large_objects-IsCompact_example :
    (s' : Allocator) × (ys : List ℕ) × (maybe_compact_free_large_objects 5 two_adjacent ≡ some s')
    × IsLargeList s' ys
    × IsCompact s' ys
    × (free_bytes s' ys ≡ free_bytes two_adjacent both)
maybe_compact_free_large_objects-IsCompact_example =
    maybe_compact_free_large_objects-IsCompact 5 two_adjacent both both-IsLargeList refl
      (omega arith)
