-- ===== src/Walloc/Small.antt =====
-- libc/src/walloc.c: small objects, malloc, free and malloc_usable_size. The calls hold walloc_mutex from
-- their first statement to their last, so each is one step.
use tiny_libc.Prelude.{
  ℕ, zero, suc, ◌+◌, ◌-◌, ◌*◌, true, ◌==◌, ltb, leb, if◌then◌else◌, Option, some,
}
use tiny_libc.Prelude.Options.{◌>>=◌}
use tiny_libc.Prelude.Bytes.{store}
use tiny_libc.Walloc.{
  chunk_size, granule_size, small_object_chunk_kinds, free_large_object, large_object,
  chunk_kind_to_granules, get_page, get_chunk_index, get_large_object, get_large_object_payload,
  malloc_kind, usable_size,
}
use tiny_libc.Walloc.State.{
  Allocator, get_size, set_next, chunk_data, allocate_chunk, kind_of, push_small, push_large,
  granules_32,
}
use tiny_libc.Walloc.Large.{allocate_large_object, guard}

-- The loop over a chunk that ends at `end`: `i` bytes before the end is the next object. The result is
-- the object written last. A chunk has at most 32 objects, so fuel 33 is enough.
unfoldable pub carve : ℕ → ℕ → ℕ → ℕ → ℕ → Allocator → ℕ × Allocator
carve zero end size i next s = (next, s)
carve (suc n) end size i next s =
    let rest = carve n end size (i + size) (end - i) (set_next (end - i) next s) in
    if leb i chunk_size then rest else (next, s)

-- The chunk is marked and becomes a list of objects.
unfoldable pub carve_chunk : ℕ → ℕ → Allocator → ℕ × Allocator
carve_chunk kind chunk s =
    let size = chunk_kind_to_granules kind * granule_size in
    let ptr = chunk_data (get_page chunk) (get_chunk_index chunk) in
    carve 33 (ptr + chunk_size) size size 0
      (allocate_chunk (get_page chunk) (get_chunk_index chunk) kind s)

-- The chunk comes from the free list of whole chunks, which is that of GRANULES_32, or is a large
-- object.
unfoldable pub obtain_small_objects : (ℕ → ℕ) → ℕ → ℕ → Allocator → Option (ℕ × Allocator)
obtain_small_objects brk fuel kind s =
    let chunk = s.small_object_freelists granules_32 in
    let popped = record s {
      small_object_freelists = store s.small_object_freelists granules_32 (s.words chunk);
    } in
    let fresh = allocate_large_object brk fuel 0 s >>= λ r.
    some (if r.0 == 0 then (0, r.1) else carve_chunk kind r.0 r.1) in
    if chunk == 0 then fresh else some (carve_chunk kind chunk popped)

-- The head of a list that is not empty.
unfoldable pub pop_small : ℕ → Allocator → ℕ × Allocator
pop_small kind s =
    let ret = s.small_object_freelists kind in
    (ret, record s { small_object_freelists = store s.small_object_freelists kind (s.words ret) })

-- `*loc = freelist`, when there are objects.
unfoldable pub set_freelist : ℕ → ℕ × Allocator → ℕ × Allocator
set_freelist kind (freelist, s) =
    if freelist == 0
    then (0, s)
    else pop_small kind
        (record s { small_object_freelists = store s.small_object_freelists kind freelist })

unfoldable pub allocate_small : (ℕ → ℕ) → ℕ → ℕ → Allocator → Option (ℕ × Allocator)
allocate_small brk fuel kind s =
    let filled = obtain_small_objects brk fuel kind s >>= λ r. some (set_freelist kind r) in
    guard (ltb kind small_object_chunk_kinds)
      (if s.small_object_freelists kind == 0 then filled else some (pop_small kind s))

unfoldable pub allocate_large : (ℕ → ℕ) → ℕ → ℕ → Allocator → Option (ℕ × Allocator)
allocate_large brk fuel size s = allocate_large_object brk fuel size s >>= λ r.
    some ((if r.0 == 0 then 0 else get_large_object_payload r.0), r.1)

unfoldable pub malloc : (ℕ → ℕ) → ℕ → ℕ → Allocator → Option (ℕ × Allocator)
malloc brk fuel size s =
    if malloc_kind size == large_object
    then allocate_large brk fuel size s
    else allocate_small brk fuel (malloc_kind size) s

unfoldable pub free : ℕ → Allocator → Option Allocator
free ptr s =
    let kind = kind_of s ptr in
    let freed =
      allocate_chunk (get_page ptr) (get_chunk_index ptr) free_large_object
        (push_large (get_large_object ptr) s) in
    if ptr == 0
    then some s
    else if kind == large_object
    then some (record freed { pending_large_object_compact = true })
    else guard (ltb kind small_object_chunk_kinds) (some (push_small kind ptr s))

unfoldable pub malloc_usable_size : ℕ → Allocator → ℕ
malloc_usable_size ptr s =
    let kind = kind_of s ptr in
    if ptr == 0
    then 0
    else if kind == large_object
    then get_size s (get_large_object ptr)
    else if ltb kind small_object_chunk_kinds
    then usable_size kind
    else 0
