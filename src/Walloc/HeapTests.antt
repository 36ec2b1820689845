-- ===== src/Walloc/HeapTests.antt =====
-- Runs of the allocator of libc/src/walloc.c on small heaps, and the theorems at them.
use tiny_libc.Prelude.{
  ℕ, ◌+◌, ◌-◌, ◌*◌, ◌/◌, ◌≤◌, ◌<◌, ◌≡◌, ◌≢◌, ◌⊎◌, inl, refl, arith, false, ◌==◌, ltb, if◌then◌else◌,
  Option, none, some, [], ◌∷◌,
}
use tiny_libc.Prelude.Bytes.{Memory, store}
use tiny_libc.Prelude.Options.{◌>>=◌}
use tiny_libc.Arch.{no_heap, start_heap, page_alloc, take_pages, align_up}
use tiny_libc.Walloc.{
  align, chunk_kind_to_granules, chunk_size, granules_to_chunk_kind, malloc_kind, size_to_granules,
  usable_size,
}
use tiny_libc.Walloc.State.{
  Allocator, get_size, granules_32, maybe_repurpose_single_chunk_large_objects_head,
}
use tiny_libc.Walloc.Chain.{IsChain, Each, objects}
use tiny_libc.Walloc.Merge.{
  find_link, absorb, next_free, merge_from, maybe_merge_free_large_object, compact_from,
  maybe_compact_free_large_objects,
}
use tiny_libc.Walloc.Large.{
  allocate_pages, give_object, obtain_object, finish_large, check_end, cut_tail, free_tail,
  choose_split, keep_pages, split_head, take_object, no_best, Best, growth, find_best, fresh_object,
  allocate_large_object,
}
use tiny_libc.Walloc.Small.{
  carve, pop_small, set_freelist, obtain_small_objects, allocate_small, allocate_large, carve_chunk,
  malloc, free, malloc_usable_size,
}
use tiny_libc.Walloc.Carve.{carve_chunk-IsChain}
use tiny_libc.Walloc.RoundTrip.{IsGivenBack, malloc-free}
use tiny_libc.Walloc.BestFit.{IsFound, IsLeast, find_best-IsLeast}
use tiny_libc.Walloc.Allocate.{IsFree, IsServed, fresh_object-traps, allocate_large_object-Holding}
use tiny_libc.Walloc.Usable.{malloc-malloc_usable_size}

-- The state before the first call.
abbrev pub untouched : Allocator
untouched = record {
  words = λ a. 0;
  kinds = λ a. 0;
  small_object_freelists = λ k. 0;
  large_objects = 0;
  walloc_heap_size = 0;
  pending_large_object_compact = false;
  heap = no_heap;
}

-- The break stands at 70000, and goes where it is asked to.
abbrev pub grant : ℕ → ℕ
grant addr = if addr == 0 then 70000 else addr

-- One page with two free large objects, of 496 and of 64752 bytes.
abbrev pub two_free : Allocator
two_free = record untouched {
  words = store (store (store untouched.words 131328 131840) 131336 496) 131848 64752;
  large_objects = 131328;
}

-- One object of 56 bytes is free, in a chunk of their kind.
abbrev one_small : Allocator
one_small = record untouched {
  kinds = λ a. 6;
  small_object_freelists = store untouched.small_object_freelists 6 131384;
}

-- The first object of the first page, behind its header.
abbrev addresses : Option ℕ
addresses = malloc grant 5 300 untouched >>= λ r. some r.0

-- Two objects of one chunk each, after a large object of two chunks was freed: the chunk that is split off
-- the large object goes to the list that `allocate_small` then overwrites, so the second object is not
-- the chunk at 131584, which is in no list.
abbrev after_split : Option ℕ
after_split = malloc grant 5 300 untouched >>= λ a. malloc grant 5 256 a.1 >>= λ b.
    free a.0 b.1 >>= λ s. malloc grant 5 256 s >>= λ c. malloc grant 5 256 c.1 >>= λ d. some d.0

two_free-IsChain : IsChain two_free.words 131328 (131328 ∷ 131840 ∷ [])
two_free-IsChain = (refl, (λ e. omega (arith, e)), (refl, (λ e. omega (arith, e)), refl))

two_free-IsFree : Each (IsFree two_free) (131328 ∷ 131840 ∷ [])
two_free-IsFree = (
  (refl, omega arith, refl, omega arith, inl refl),
  ((refl, omega arith, refl, omega arith, inl refl), tt),
)

lost_chunk : after_split ≡ some 132096
unfolding malloc free allocate_small allocate_large obtain_small_objects set_freelist pop_small
    carve_chunk carve allocate_large_object give_object obtain_object finish_large check_end
    cut_tail free_tail choose_split keep_pages split_head take_object fresh_object find_best
    allocate_pages growth align maybe_repurpose_single_chunk_large_objects_head
    maybe_compact_free_large_objects compact_from maybe_merge_free_large_object merge_from next_free
    absorb find_link malloc_kind size_to_granules granules_to_chunk_kind chunk_kind_to_granules
    page_alloc start_heap take_pages align_up
lost_chunk = refl

carve_chunk-IsChain_example :
    (let r = carve_chunk 6 131328 untouched in
      (chunk_size / usable_size 6 * usable_size 6 ≤ chunk_size)
      × (chunk_size < chunk_size / usable_size 6 * usable_size 6 + usable_size 6)
      × IsChain r.1.words r.0 (
          objects
            (131328 + chunk_size - chunk_size / usable_size 6 * usable_size 6)
            (usable_size 6)
            (chunk_size / usable_size 6))
      × ((a : ℕ) → (a < 131328) ⊎ (131328 + chunk_size ≤ a) → r.1.words a ≡ untouched.words a)
      × (r.1.kinds ≡ store untouched.kinds (131072 + 1) 6))
carve_chunk-IsChain_example = carve_chunk-IsChain 6 131328 untouched (omega arith) (omega arith)

kind_of_50 : malloc_kind 50 ≡ 6
unfolding malloc_kind size_to_granules granules_to_chunk_kind
kind_of_50 = refl

-- The program fills the object that it got.
abbrev filled : Memory
filled a = if ltb a 131384 then 0 else if ltb a 131440 then 77 else 0

filled_outside :
    (a : ℕ) → (a < 131384) ⊎ (131384 + usable_size 6 ≤ a) → filled a ≡ one_small.words a
unfolding usable_size
filled_outside a out = ground (arith, out)

malloc-free_example :
    (s' s'' : Allocator) × (malloc grant 5 50 one_small ≡ some (131384, s'))
    × (free 131384 (record s' { words = filled }) ≡ some s'')
    × IsGivenBack 131384 (usable_size 6) one_small s''
unfolding malloc_kind size_to_granules granules_to_chunk_kind
malloc-free_example =
    malloc-free grant 5 50 one_small filled (omega arith) (omega arith) refl filled_outside

find_best-IsLeast_example :
    (b : Best) × (find_best 3 400 two_free 0 131328 no_best ≡ some b)
    × (((b.best ≡ 0) × Each (λ x. get_size two_free x < 400) (131328 ∷ 131840 ∷ []))
        ⊎ (IsFound 400 two_free (131328 ∷ 131840 ∷ []) b
            × IsLeast 400 two_free b.best_size (131328 ∷ 131840 ∷ [])))
find_best-IsLeast_example =
    find_best-IsLeast 3 400 two_free (131328 ∷ 131840 ∷ []) (omega arith) (omega arith)
      two_free-IsChain ((refl, refl, omega arith), ((refl, refl, omega arith), tt))

-- 65264 bytes, a header and the page's header are one page exactly; the ASSERT counts one header more.
fresh_object-traps_example :
    ((s' : Allocator) × (fresh_object grant 65264 untouched ≡ some (no_best, s')))
    ⊎ (fresh_object grant 65264 untouched ≡ none)
unfolding growth align start_heap
fresh_object-traps_example =
    fresh_object-traps grant 65264 untouched (omega arith, omega arith, omega arith) (omega arith)

allocate_large_object-Holding_example :
    (r : ℕ × Allocator) × (allocate_large_object grant 5 400 two_free ≡ some r)
    × IsServed (start_heap grant no_heap).heap_end 400 two_free (131328 ∷ 131840 ∷ []) r
unfolding growth align start_heap
allocate_large_object-Holding_example =
    allocate_large_object-Holding grant 5 400 two_free (131328 ∷ 131840 ∷ []) refl two_free-IsChain
      two_free-IsFree (omega arith) (omega arith, omega arith, omega arith) (omega arith)

malloc-malloc_usable_size_example :
    (r : ℕ × Allocator) × (malloc grant 5 50 two_free ≡ some r)
    × (((r.0 ≡ 0)
          × (two_free.small_object_freelists (malloc_kind 50) ≡ 0)
          × (two_free.small_object_freelists granules_32 ≡ 0)
          × Each (λ x. get_size two_free x < 0) (131328 ∷ 131840 ∷ []))
        ⊎ ((r.0 ≢ 0) × (50 ≤ malloc_usable_size r.0 r.1)))
unfolding growth align start_heap malloc_kind size_to_granules granules_to_chunk_kind
malloc-malloc_usable_size_example =
    malloc-malloc_usable_size grant 5 50 (131328 ∷ 131840 ∷ []) two_free (omega arith) (
      inl refl,
      inl refl,
      refl,
      two_free-IsChain,
      two_free-IsFree,
      omega arith,
      (omega arith, omega arith, omega arith),
    )
