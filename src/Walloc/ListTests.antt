-- ===== src/Walloc/ListTests.antt =====
-- The free lists of libc/src/walloc.c on a heap with a whole chunk and one small object free.
use tiny_libc.Prelude.{
  ℕ, ◌+◌, ◌≤◌, ◌≡◌, refl, arith, ◌==◌, Bool-cases, inl, inr, if◌then◌else◌, some, List, [], ◌∷◌,
}
use tiny_libc.Walloc.{
  chunk_size, malloc_kind, size_to_granules, granules_to_chunk_kind, usable_size,
}
use tiny_libc.Walloc.State.{Allocator, granules_32}
use tiny_libc.Walloc.Small.{malloc, free}
use tiny_libc.Walloc.Chain.{Each}
use tiny_libc.Walloc.HeapTests.{untouched, grant}
use tiny_libc.Walloc.FreeLists.{HasLists, with_list, free-HasLists}
use tiny_libc.Walloc.WholeChunks.{malloc-carved}

-- The chunk at 131328 is whole and free.
abbrev one_chunk : Allocator
one_chunk = record untouched {
  kinds = λ a. if a == 131073 then 9 else 6;
  small_object_freelists = λ k. if k == 9 then 131328 else 0;
}

abbrev its_lists : ℕ → List ℕ
its_lists k = if k == 9 then 131328 ∷ [] else []

one_chunk-HasLists : HasLists one_chunk its_lists
one_chunk-HasLists k lt = elim (Bool-cases (k == 9)) [
  | inl hit ↦ rw hit (
    (refl, (λ e. omega (arith, e)), refl),
    (ground (arith, hit), tt),
    (tt, tt),
    ((λ e. (refl, omega arith)), tt),
  )
  | inr miss ↦ rw miss (refl, tt, tt, tt)
]

-- An object of 56 bytes in the next chunk is freed.
free-HasLists_example :
    (s' : Allocator) × (free 131640 one_chunk ≡ some s')
    × HasLists s' (with_list 6 (131640 ∷ []) its_lists)
free-HasLists_example =
    free-HasLists 131640 one_chunk its_lists one_chunk-HasLists (omega arith) (omega arith) tt
      (λ e. omega (arith, e))

malloc-carved_example :
    (x : ℕ) × (xs : List ℕ) × (s' : Allocator) × (malloc grant 5 50 one_chunk ≡ some (x, s'))
    × Each (λ y. (131328 ≤ y) × (y + usable_size (malloc_kind 50) ≤ 131328 + chunk_size)) (x ∷ xs)
    × HasLists s' (with_list (malloc_kind 50) xs (with_list granules_32 [] its_lists))
unfolding malloc_kind size_to_granules granules_to_chunk_kind
malloc-carved_example =
    malloc-carved grant 5 50 131328 one_chunk its_lists [] one_chunk-HasLists (omega arith) refl
      refl
