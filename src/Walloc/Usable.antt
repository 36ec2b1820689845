-- ===== src/Walloc/Usable.antt =====
-- What `malloc` of libc/src/walloc.c returns for a small size, from whichever of its sources, and how much
-- of it `malloc_usable_size` says can be used.
use tiny_libc.Prelude.{
  ℕ, zero, suc, ◌+◌, ◌-◌, ◌*◌, ◌/◌, ◌≤◌, ◌<◌, ◌≡◌, ◌≢◌, refl, ap, ◌∙◌, arith, false, true, ◌==◌,
  ==-ne, ==-refl, ◌⊎◌, inl, inr, Bool-cases, lt→ltb, if◌then◌else◌, some, List, length,
}
use tiny_libc.Prelude.Bytes.{Memory}
use tiny_libc.Arch.{start_heap}
use tiny_libc.Walloc.{
  chunk_size, small_object_chunk_kinds, large_object, get_page, get_chunk_index, malloc_kind,
  usable_size,
}
use tiny_libc.Walloc.State.{Allocator, get_size, chunk_data, kind_of, granules_32}
use tiny_libc.Walloc.Chain.{IsChain, Each, objects}
use tiny_libc.Walloc.Sizes.{IsBest, malloc_kind-IsBest}
use tiny_libc.Walloc.Large.{growth}
use tiny_libc.Walloc.Small.{
  malloc, allocate_small, obtain_small_objects, set_freelist, pop_small, carve_chunk,
  malloc_usable_size,
}
use tiny_libc.Walloc.Carve.{kind_facts, carve_chunk-IsChain}
use tiny_libc.Walloc.Allocate.{
  IsFree, HasRoom, IsServed, growth_bounds, allocate_large_object-Holding,
}

chain_head :
    (n : ℕ) (m : Memory) (p a size : ℕ) → 1 ≤ n → IsChain m p (objects a size n) → (p ≡ a) × (p ≢ 0)
chain_head zero m p a size pos c = absurd (omega arith)
chain_head (suc n) m p a size pos c = (c.0, c.1)

-- A non-null object in a chunk of a kind.
abbrev pub HasKind : ℕ → ℕ × Allocator → Type 0
HasKind kind (ptr, s) = (ptr ≢ 0) × (kind_of s ptr ≡ kind)

carve_chunk-HasKind :
    (kind chunk : ℕ) (s : Allocator)
    → kind < small_object_chunk_kinds
    → 1 ≤ get_chunk_index chunk
    → HasKind kind (carve_chunk kind chunk s)
carve_chunk-HasKind kind chunk s small behind =
    let c = carve_chunk-IsChain kind chunk s small behind in
    let size = usable_size kind in
    let count = chunk_size / size in
    let facts = kind_facts kind small in
    let ptr = chunk_data (get_page chunk) (get_chunk_index chunk) in
    let start = ptr + 256 - count * size in
    let head =
      chain_head count (carve_chunk kind chunk s).1.words (carve_chunk kind chunk s).0 start size
        facts.6 c.2 in
    let place : get_page start + get_chunk_index start ≡ get_page chunk + get_chunk_index chunk =
      same_place chunk start (omega (arith, c.0)) (omega (arith, facts)) in
    (
      head.1,
      rw head.0 (
          ap (λ kinds. kinds (get_page start + get_chunk_index start)) c.4
          ∙ rw (place, ==-refl (get_page chunk + get_chunk_index chunk))),
    )
  where
    same_place :
        (chunk start : ℕ)
        → chunk_data (get_page chunk) (get_chunk_index chunk) ≤ start
        → start < chunk_data (get_page chunk) (get_chunk_index chunk) + 256
        → get_page start + get_chunk_index start ≡ get_page chunk + get_chunk_index chunk
    same_place chunk start low high = omega arith

-- A head that is taken from a list.
set_freelist-HasKind :
    (kind : ℕ) (r : ℕ × Allocator) → HasKind kind r → HasKind kind (set_freelist kind r)
unfolding set_freelist pop_small
set_freelist-HasKind kind r h = rw (==-ne r.0 0 h.0, ==-refl kind) h

set_freelist-null : (kind : ℕ) (r : ℕ × Allocator) → r.0 ≡ 0 → (set_freelist kind r).0 ≡ 0
unfolding set_freelist
set_freelist-null kind r z = rw z

-- Whichever source serves it: the free list of its kind, a whole chunk, or a large object.
abbrev pub IsReady : (ℕ → ℕ) → ℕ → ℕ → List ℕ → Allocator → Type 0
IsReady brk fuel kind xs s =
    ((s.small_object_freelists kind ≡ 0) ⊎ (kind_of s (s.small_object_freelists kind) ≡ kind))
    × ((s.small_object_freelists granules_32 ≡ 0)
        ⊎ (1 ≤ get_chunk_index (s.small_object_freelists granules_32)))
    × (s.pending_large_object_compact ≡ false)
    × IsChain s.words s.large_objects xs
    × Each (IsFree s) xs
    × (length xs < fuel)
    × HasRoom brk 0 s

-- The result is null, and all three sources are empty, or is an object in a chunk of the kind.
abbrev pub IsFilled : ℕ → List ℕ → Allocator → ℕ × Allocator → Type 0
IsFilled kind xs s r =
    ((r.0 ≡ 0)
      × (s.small_object_freelists kind ≡ 0)
      × (s.small_object_freelists granules_32 ≡ 0)
      × Each (λ x. get_size s x < 0) xs)
    ⊎ HasKind kind r

obtain_small_objects-IsFilled :
    (brk : ℕ → ℕ) (fuel kind : ℕ) (xs : List ℕ) (s : Allocator)
    → kind < small_object_chunk_kinds
    → IsReady brk fuel kind xs s
    → (r : ℕ × Allocator) × (obtain_small_objects brk fuel kind s ≡ some r)
      × (((r.0 ≡ 0) × (s.small_object_freelists granules_32 ≡ 0) × Each (λ x. get_size s x < 0) xs)
          ⊎ HasKind kind r)
unfolding obtain_small_objects
obtain_small_objects-IsFilled brk fuel kind xs s small h =
    elim (Bool-cases (s.small_object_freelists granules_32 == 0)) [
      | inr whole ↦ rw whole (
        _,
        refl,
        inr (
            carve_chunk-HasKind kind (s.small_object_freelists granules_32) _ small
              (behind whole h.1)),
      )
      | inl none ↦
          let l = allocate_large_object-Holding brk fuel 0 s xs h.2 h.3 h.4 h.5 h.6 enough in
          rw (none, l.1) (_, refl, carved none l.0 l.2)
    ]
  where
    enough : 0 + 288 ≤ growth (0 + 16) s
    enough = omega (arith, growth_bounds 0 s h.6.0 h.6.1)

    behind :
        (s.small_object_freelists granules_32 == 0) ≡ false
        → (s.small_object_freelists granules_32 ≡ 0)
          ⊎ (1 ≤ get_chunk_index (s.small_object_freelists granules_32))
        → 1 ≤ get_chunk_index (s.small_object_freelists granules_32)
    behind whole (inl z) = absurd (ground (arith, whole, z))
    behind whole (inr e) = e

    carved :
        (s.small_object_freelists granules_32 == 0) ≡ true
        → (r : ℕ × Allocator) → IsServed (start_heap brk s.heap).heap_end 0 s xs r
        → ((((if r.0 == 0 then (0, r.1) else carve_chunk kind r.0 r.1).0 ≡ 0)
              × (s.small_object_freelists granules_32 ≡ 0)
              × Each (λ x. get_size s x < 0) xs)
            ⊎ HasKind kind (if r.0 == 0 then (0, r.1) else carve_chunk kind r.0 r.1))
    carved none r (inl (z, empty)) = inl (rw z refl, ground (arith, none), empty)
    carved none r (inr (held, place)) =
        rw (==-ne r.0 0 held.0) (inr (carve_chunk-HasKind kind r.0 r.1 small held.1.1))

allocate_small-IsFilled :
    (brk : ℕ → ℕ) (fuel kind : ℕ) (xs : List ℕ) (s : Allocator)
    → kind < small_object_chunk_kinds
    → IsReady brk fuel kind xs s
    → (r : ℕ × Allocator) × (allocate_small brk fuel kind s ≡ some r) × IsFilled kind xs s r
unfolding allocate_small pop_small
allocate_small-IsFilled brk fuel kind xs s small h =
    let o = obtain_small_objects-IsFilled brk fuel kind xs s small h in
    rw (lt→ltb kind small_object_chunk_kinds small)
      (elim (Bool-cases (s.small_object_freelists kind == 0)) [
        | inl none ↦ rw (none, o.1) (set_freelist kind o.0, refl, filled none o.0 o.2)
        | inr head ↦
            rw head (pop_small kind s, refl, inr (ground (arith, head), classified head h.0))
      ])
  where
    classified :
        (s.small_object_freelists kind == 0) ≡ false
        → (s.small_object_freelists kind ≡ 0) ⊎ (kind_of s (s.small_object_freelists kind) ≡ kind)
        → kind_of s (s.small_object_freelists kind) ≡ kind
    classified head (inl z) = absurd (ground (arith, head, z))
    classified head (inr e) = e

    filled :
        (s.small_object_freelists kind == 0) ≡ true
        → (r : ℕ × Allocator)
        → (((r.0 ≡ 0)
              × (s.small_object_freelists granules_32 ≡ 0)
              × Each (λ x. get_size s x < 0) xs)
            ⊎ HasKind kind r)
        → IsFilled kind xs s (set_freelist kind r)
    filled none r (inl (z, whole, empty)) =
        inl (set_freelist-null kind r z, ground (arith, none), whole, empty)
    filled none r (inr k) = inr (set_freelist-HasKind kind r k)

pub usable_size-malloc :
    (kind size : ℕ) (r : ℕ × Allocator)
    → IsBest size kind
    → HasKind kind r
    → size ≤ malloc_usable_size r.0 r.1
unfolding malloc_usable_size
usable_size-malloc kind size r b k =
    rw
      (
        ==-ne r.0 0 k.0,
        k.1,
        ==-ne kind large_object (omega (arith, b.0)),
        lt→ltb kind small_object_chunk_kinds b.0,
      )
      b.1

-- For a size of at most 256 bytes, whose class has its free objects in chunks of its kind, whole chunks
-- that are no page headers, and large objects as `allocate_large_object` needs them: no ASSERT fails.
-- `malloc` returns null only when the free list, the whole chunks and the large objects are all used up;
-- else it returns an object of which `malloc_usable_size` gives at least the size asked for.
pub malloc-malloc_usable_size :
    (brk : ℕ → ℕ) (fuel size : ℕ) (xs : List ℕ) (s : Allocator)
    → size ≤ 256
    → IsReady brk fuel (malloc_kind size) xs s
    → (r : ℕ × Allocator) × (malloc brk fuel size s ≡ some r)
      × (((r.0 ≡ 0)
            × (s.small_object_freelists (malloc_kind size) ≡ 0)
            × (s.small_object_freelists granules_32 ≡ 0)
            × Each (λ x. get_size s x < 0) xs)
          ⊎ ((r.0 ≢ 0) × (size ≤ malloc_usable_size r.0 r.1)))
unfolding malloc
malloc-malloc_usable_size brk fuel size xs s le h =
    let kind = malloc_kind size in
    let best = best_of (malloc_kind-IsBest size (omega arith)) in
    let a = allocate_small-IsFilled brk fuel kind xs s best.0 h in
    rw (==-ne kind large_object (omega (arith, best.0))) (a.0, a.1, usable best a.0 a.2)
  where
    best_of :
        IsBest size (malloc_kind size) ⊎ ((256 < size) × (malloc_kind size ≡ large_object))
        → IsBest size (malloc_kind size)
    best_of (inl b) = b
    best_of (inr b) = absurd (omega (arith, b.0))

    usable :
        IsBest size (malloc_kind size)
        → (r : ℕ × Allocator) → IsFilled (malloc_kind size) xs s r
        → ((r.0 ≡ 0)
            × (s.small_object_freelists (malloc_kind size) ≡ 0)
            × (s.small_object_freelists granules_32 ≡ 0)
            × Each (λ x. get_size s x < 0) xs)
          ⊎ ((r.0 ≢ 0) × (size ≤ malloc_usable_size r.0 r.1))
    usable b r (inl empty) = inl empty
    usable b r (inr k) = inr (k.0, usable_size-malloc (malloc_kind size) size r b k)
