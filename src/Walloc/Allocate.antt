-- ===== src/Walloc/Allocate.antt =====
-- `allocate_large_object` of libc/src/walloc.c as a whole: what it returns, from a free list or from fresh
-- pages.
use tiny_libc.Prelude.{
  ℕ, ◌+◌, ◌-◌, ◌*◌, ◌/◌, ◌%◌, ◌^◌, ◌≤◌, ◌<◌, ◌≡◌, ◌≢◌, refl, arith, false, ◌==◌, ==-ne, ==-refl,
  ◌⊎◌, inl, inr, Bool-cases, le→leb, lt→leb-false, ◌∙◌, if◌then◌else◌, none, some, List, [], ◌∷◌,
  length, sym,
}
use tiny_libc.Arch.{Heap, start_heap, page_alloc}
use tiny_libc.Arch.Pages.{IsFresh, page_alloc-IsFresh}
use tiny_libc.Walloc.{align, large_object, get_chunk_index}
use tiny_libc.Walloc.State.{Allocator, get_size, max_size, add64, sub64, allocate_chunk, set_size}
use tiny_libc.Prelude.Bytes.{store}
use tiny_libc.Prelude.Options.{◌>>=◌}
use tiny_libc.Walloc.Chain.{IsChain, Each, IsIn, each_at}
use tiny_libc.Walloc.Merge.{maybe_compact_free_large_objects}
use tiny_libc.Walloc.Large.{
  Best, no_best, growth, allocate_pages, fresh_object, take_object, obtain_object, give_object,
  allocate_large_object,
}
use tiny_libc.Walloc.BestFit.{HasSize, IsFound, IsLeast, find_best-IsLeast}
use tiny_libc.Walloc.Split.{
  IsPlaced, IsObject, finish_large-IsObject, add64_small, sub64_small, align_bounds, align_page,
}

-- The heap is far enough from the end of the address space for the pages that the size needs.
abbrev pub HasRoom : (ℕ → ℕ) → ℕ → Allocator → Type 0
HasRoom brk size s =
    (size + 131072 < 2 ^ 64)
    × (s.walloc_heap_size < 2 ^ 64)
    × ((start_heap brk s.heap).heap_end + growth (size + 16) s + 65536 < 2 ^ 64)

pub growth_bounds :
    (size : ℕ) (s : Allocator)
    → size + 131072 < 2 ^ 64
    → s.walloc_heap_size < 2 ^ 64
    → (size + 272 ≤ growth (size + 16) s) × (growth (size + 16) s % 65536 ≡ 0)
unfolding growth
growth_bounds size s room h = (omega (arith, up, larger), up.2)
  where
    needed : ℕ
    needed = max_size (s.walloc_heap_size / 2) (add64 (size + 16) 256)

    larger : (size + 272 ≤ needed) × (needed + 65536 < 2 ^ 64)
    larger = ground arith

    up :
        (needed ≤ align needed 65536)
        × (align needed 65536 < needed + 65536)
        × (align needed 65536 % 65536 ≡ 0)
    up = align_bounds needed larger.1

-- The pages, or a null pointer.
allocate_pages_lem :
    (brk : ℕ → ℕ) (size : ℕ) (s : Allocator)
    → HasRoom brk size s
    → ((s' : Allocator) × (allocate_pages brk (size + 16) s ≡ some ((0, 0), s')))
      ⊎ ((page n : ℕ) × (s' : Allocator) × (allocate_pages brk (size + 16) s ≡ some ((page, n), s'))
          × (page ≢ 0)
          × (page % 65536 ≡ 0)
          × ((start_heap brk s.heap).heap_end ≤ page)
          × (n * 65536 ≡ growth (size + 16) s)
          × (page + n * 65536 < 2 ^ 64))
unfolding allocate_pages
allocate_pages_lem brk size s room =
    let grow = growth (size + 16) s in
    let g = growth_bounds size s room.0 room.1 in
    let back : 65536 * (grow / 65536) ≡ grow = omega (arith, g) in
    let fresh = page_alloc-IsFresh brk (grow / 65536) s.heap (omega (arith, room, back)) in
    let answer = page_alloc brk 16 (grow / 65536) s.heap in
    let asked : Allocator = record s { heap = answer.1 } in
    let grown : Allocator = record asked { walloc_heap_size = add64 s.walloc_heap_size grow } in
    rw (==-ne grow 0 (omega (arith, g))) (elim (Bool-cases (answer.0 == 0)) [
      | inl null ↦ inl (asked, rw null)
      | inr page ↦
          let p = not_null answer grow fresh page in
          inr (
            answer.0,
            grow / 65536,
            grown,
            rw (page, align_page grow g.1 (omega (arith, room)), ==-refl grow),
            ground (arith, page),
            p.0,
            p.1,
            omega (arith, back),
            omega (arith, p, back, room),
          )
    ])
  where
    not_null :
        (r : ℕ × Heap) (grow : ℕ)
        → IsFresh (start_heap brk s.heap).heap_end (grow / 65536) r
        → (r.0 == 0) ≡ false
        → (r.0 % 65536 ≡ 0)
          × ((start_heap brk s.heap).heap_end ≤ r.0)
          × (r.0 < (start_heap brk s.heap).heap_end + 65536)
    not_null r grow (inl z) ne = absurd (ground (arith, ne, z))
    not_null r grow (inr h) ne = (h.0, h.1, h.2)

-- The size of a fresh object, in pages of so many bytes.
fresh_size :
    (n : ℕ) → 272 ≤ n * 65536 → n * 65536 < 2 ^ 64 → sub64 (n * 65536) (256 + 16) ≡ n * 65536 - 272
fresh_size n le lt = sub64_small (n * 65536) 272 le lt

-- A fresh object behind the heap so far, or none.
fresh_object-IsPlaced :
    (brk : ℕ → ℕ) (size : ℕ) (s : Allocator)
    → HasRoom brk size s
    → size + 288 ≤ growth (size + 16) s
    → ((s' : Allocator) × (fresh_object brk size s ≡ some (no_best, s')))
      ⊎ ((b : Best) × (s' : Allocator) × (fresh_object brk size s ≡ some (b, s'))
          × (b.best ≢ 0)
          × (b.best_prev ≡ 0)
          × ((start_heap brk s.heap).heap_end ≤ b.best)
          × IsPlaced b.best b.best_size
          × (size ≤ b.best_size)
          × (get_size s' b.best ≡ b.best_size))
unfolding fresh_object
fresh_object-IsPlaced brk size s room more =
    rw (add64_small size 16 (omega (arith, room))) (elim (allocate_pages_lem brk size s room) [
      | inl (s', e) ↦ inl (s', rw e)
      | inr (page, n, s', e, nz, aligned, low, grow, top) ↦
          let best_size = n * 65536 - 272 in
          let b : Best = record { best = page + 1 * 256; best_prev = 0; best_size = best_size } in
          let marked = allocate_chunk page 1 large_object s' in
          let linked : Allocator = record marked {
            words = store marked.words (page + 1 * 256) marked.large_objects;
          } in
          inr (
            b,
            set_size (page + 1 * 256) best_size linked,
            rw (
              e,
              ==-ne page 0 nz,
              fresh_size n (omega arith) (omega arith),
              le→leb (size + 16) best_size (omega arith),
            ),
            omega arith,
            refl,
            omega arith,
            (omega arith, omega arith, omega arith, omega arith, inr (omega arith)),
            omega arith,
            rw (==-refl (page + 1 * 256 + 8)),
          )
    ])

-- The pages that the sizes let the allocator ask for may hold the object and its header, but not the
-- second header that the ASSERT counts: then there are no pages, or the ASSERT fails.
pub fresh_object-traps :
    (brk : ℕ → ℕ) (size : ℕ) (s : Allocator)
    → HasRoom brk size s
    → growth (size + 16) s < size + 288
    → ((s' : Allocator) × (fresh_object brk size s ≡ some (no_best, s')))
      ⊎ (fresh_object brk size s ≡ none)
unfolding fresh_object
fresh_object-traps brk size s room few =
    rw (add64_small size 16 (omega (arith, room))) (elim (allocate_pages_lem brk size s room) [
      | inl (s', e) ↦ inl (s', rw e)
      | inr (page, n, s', e, nz, aligned, low, grow, top) ↦
          let g = growth_bounds size s room.0 room.1 in
          let size_is = fresh_size n (omega (arith, grow, g)) (omega arith) in
          inr (
            rw (
              e,
              ==-ne page 0 nz,
              size_is,
              lt→leb-false (size + 16) (n * 65536 - 272) (omega (arith, few, grow, g)),
            ))
    ])

-- A free large object, in its place.
abbrev pub IsFree : Allocator → ℕ → Type 0
IsFree s x = IsPlaced x (get_size s x)

IsFree-HasSize : (xs : List ℕ) (s : Allocator) → Each (IsFree s) xs → Each (HasSize s) xs
IsFree-HasSize [] s h = tt
IsFree-HasSize (x ∷ xs) s h = ((h.0.0, h.0.2, omega (arith, h.0)), IsFree-HasSize xs s h.1)

-- Where an object lies: in an object that was free, or behind the heap.
abbrev pub ComesFrom : ℕ → Allocator → List ℕ → ℕ × Allocator → Type 0
ComesFrom heap_end s xs (obj, s') =
    ((x : ℕ) × IsIn x xs × (x ≤ obj) × (obj + get_size s' obj ≤ x + get_size s x))
    ⊎ (heap_end ≤ obj)

-- The result is an object that holds the size, begins with a chunk that is not a page header and ends
-- with a chunk.
abbrev pub Holding : ℕ → ℕ × Allocator → Type 0
Holding size (obj, s) =
    (obj ≢ 0)
    × ((obj % 256 ≡ 0) × (1 ≤ get_chunk_index obj))
    × (size ≤ get_size s obj)
    × ((obj + 16 + get_size s obj) % 256 ≡ 0)

take_object-size :
    (b : Best) (s : Allocator)
    → b.best % 256 ≡ 0
    → b.best_prev % 256 ≡ 0
    → get_size (take_object b s) b.best ≡ get_size s b.best
unfolding take_object
take_object-size b s e e' = elim (Bool-cases (b.best_prev == 0)) [
  | inl first ↦ rw first
  | inr later ↦ rw (later, ==-ne (b.best + 8) b.best_prev (omega arith))
]

give_object-IsObject :
    (size : ℕ) (b : Best) (s : Allocator)
    → b.best ≢ 0
    → b.best_prev % 256 ≡ 0
    → IsPlaced b.best b.best_size
    → size ≤ b.best_size
    → size + 131072 < 2 ^ 64
    → get_size s b.best ≡ b.best_size
    → (obj : ℕ) × (s' : Allocator) × (give_object size (b, s) ≡ some (obj, s'))
      × IsObject b.best (b.best + 16 + b.best_size) size (obj, s')
unfolding give_object
give_object-IsObject size b s nz even p le room same = rw (==-ne b.best 0 nz) (
    finish_large-IsObject size b.best b.best_size (take_object b s) p le room
      (take_object-size b s p.0 even ∙ same))

no_compaction :
    (fuel : ℕ) (s : Allocator)
    → s.pending_large_object_compact ≡ false
    → maybe_compact_free_large_objects fuel s ≡ some s
unfolding maybe_compact_free_large_objects
no_compaction fuel s e = rw e

abbrev pub IsServed : ℕ → ℕ → Allocator → List ℕ → ℕ × Allocator → Type 0
IsServed heap_end size s xs r =
    ((r.0 ≡ 0) × Each (λ x. get_size s x < size) xs) ⊎ (Holding size r × ComesFrom heap_end s xs r)

-- From an object that was free, or is behind the heap.
give_object-IsServed :
    (heap_end size : ℕ) (b : Best) (s s' : Allocator) (xs : List ℕ)
    → b.best ≢ 0
    → b.best_prev % 256 ≡ 0
    → IsPlaced b.best b.best_size
    → size ≤ b.best_size
    → size + 131072 < 2 ^ 64
    → get_size s' b.best ≡ b.best_size
    → (IsIn b.best xs × (get_size s b.best ≡ b.best_size)) ⊎ (heap_end ≤ b.best)
    → (r : ℕ × Allocator) × (give_object size (b, s') ≡ some r) × IsServed heap_end size s xs r
give_object-IsServed heap_end size b s s' xs nz even p le room same place =
    let g = give_object-IsObject size b s' nz even p le room same in
    let r : ℕ × Allocator = (g.0, g.1) in
    (r, g.2, inr ((omega (arith, g.3, nz), g.3.0, g.3.2, g.3.4), within r g.3 place))
  where
    within :
        (r : ℕ × Allocator)
        → IsObject b.best (b.best + 16 + b.best_size) size r
        → (IsIn b.best xs × (get_size s b.best ≡ b.best_size)) ⊎ (heap_end ≤ b.best)
        → ComesFrom heap_end s xs r
    within r o (inl (i, e)) = inl (b.best, i, o.1, omega (arith, o.3, e))
    within r o (inr behind) = inr (omega (arith, behind, o.1))

give_nothing : (size : ℕ) (s : Allocator) → give_object size (no_best, s) ≡ some (0, s)
unfolding give_object
give_nothing size s = refl

-- With no free since the last large allocation, for a free list of objects in their places and fuel
-- greater than its length, on a heap with room, where the new pages would hold the object and two
-- headers: no ASSERT fails. The result is null only when every free object is too small; else it is an
-- object whose size, as stored, is at least the size asked for, that ends with a chunk, and that lies
-- within one of the free objects or behind the heap.
pub allocate_large_object-Holding :
    (brk : ℕ → ℕ) (fuel size : ℕ) (s : Allocator) (xs : List ℕ)
    → s.pending_large_object_compact ≡ false
    → IsChain s.words s.large_objects xs
    → Each (IsFree s) xs
    → length xs < fuel
    → HasRoom brk size s
    → size + 288 ≤ growth (size + 16) s
    → (r : ℕ × Allocator) × (allocate_large_object brk fuel size s ≡ some r)
      × IsServed (start_heap brk s.heap).heap_end size s xs r
unfolding allocate_large_object obtain_object
allocate_large_object-Holding brk fuel size s xs calm c free more room enough =
    let f =
      find_best-IsLeast fuel size s xs more (omega (arith, room)) c (IsFree-HasSize xs s free) in
    rw (no_compaction fuel s calm, f.1) (from f.0 f.2)
  where
    from :
        (b : Best)
        → ((b.best ≡ 0) × Each (λ x. get_size s x < size) xs)
          ⊎ (IsFound size s xs b × IsLeast size s b.best_size xs)
        → (r : ℕ × Allocator) × ((if b.best == 0 then fresh_object brk size s else some (b, s))
              >>= give_object size
            ≡ some r)
          × IsServed (start_heap brk s.heap).heap_end size s xs r
    from b (inr (h, least)) = rw (==-ne b.best 0 h.1) (
        give_object-IsServed (start_heap brk s.heap).heap_end size b s s xs h.1 h.5
          (rw h.3 (each_at (IsFree s) xs b.best free h.0)) h.2 room.0 (sym h.3)
          (inl (h.0, sym h.3)))
    from b (inl (z, small)) = rw z (elim (fresh_object-IsPlaced brk size s room enough) [
      | inl (s', e) ↦ rw e ((0, s'), give_nothing size s', inl (refl, small))
      | inr (b', s', e, nz, first, behind, p, le, same) ↦ rw e (
          give_object-IsServed (start_heap brk s.heap).heap_end size b' s s' xs nz (rw first) p le
            room.0 same (inr behind))
    ])
