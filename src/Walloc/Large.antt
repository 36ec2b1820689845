-- ===== src/Walloc/Large.antt =====
-- libc/src/walloc.c: allocate_pages, and allocate_large_object, step by step. `brk` is the system call
-- that `__page_alloc` makes.
use tiny_libc.Prelude.{
  ℕ, zero, suc, ◌+◌, ◌-◌, ◌*◌, ◌/◌, ◌%◌, ◌^◌, Bool, ◌&&◌, ◌==◌, ltb, leb, if◌then◌else◌, Option,
  none, some,
}
use tiny_libc.Prelude.Options.{◌>>=◌}
use tiny_libc.Prelude.Bytes.{store}
use tiny_libc.Arch.{page_alloc}
use tiny_libc.Walloc.{
  chunk_size, page_size, large_object, free_large_object, large_object_header_size, align, get_page,
  get_chunk_index, get_large_object_payload,
}
use tiny_libc.Walloc.State.{
  Allocator, add64, sub64, max_size, whole_chunks, get_size, set_size, set_link, chunk_data,
  allocate_chunk, push_large, maybe_repurpose_single_chunk_large_objects_head,
}
use tiny_libc.Walloc.Merge.{maybe_compact_free_large_objects}

-- `ASSERT(b)` before the rest.
abbrev pub guard {ℓ} : {A : Type ℓ} → Bool → Option A → Option A
guard b rest = if b then rest else none

-- The number of bytes to grow by.
unfoldable pub growth : ℕ → Allocator → ℕ
growth payload_size s =
    align (max_size (s.walloc_heap_size / 2) (add64 payload_size chunk_size)) page_size

-- The result is the page, which may be null, and the number of pages.
unfoldable pub allocate_pages : (ℕ → ℕ) → ℕ → Allocator → Option ((ℕ × ℕ) × Allocator)
allocate_pages brk payload_size s =
    let grow = growth payload_size s in
    let answer = page_alloc brk 16 (grow / page_size) s.heap in
    let asked = record s { heap = answer.1 } in
    let grown = record asked { walloc_heap_size = add64 s.walloc_heap_size grow } in
    if grow == 0
    then none
    else if answer.0 == 0
    then some ((0, 0), asked)
    else guard (grow == align grow page_size) (some ((answer.0, grow / page_size), grown))

-- The variables of the search; `best` is 0 until an object is found.
pub record Best : Type 0 where
  pub best : ℕ
  pub best_prev : ℕ
  pub best_size : ℕ

abbrev pub no_best : Best
no_best = record { best = 0; best_prev = 0; best_size = 2 ^ 64 - 1 }

abbrev pub is_better : ℕ → ℕ → Best → Bool
is_better size walk_size b = leb size walk_size && ltb walk_size b.best_size

-- `best_size + LARGE_OBJECT_HEADER_SIZE == align(size + LARGE_OBJECT_HEADER_SIZE, CHUNK_SIZE)`
abbrev pub is_exact : ℕ → ℕ → Bool
is_exact size best_size =
    add64 best_size large_object_header_size
    == align (add64 size large_object_header_size) chunk_size

unfoldable pub find_best : ℕ → ℕ → Allocator → ℕ → ℕ → Best → Option Best
find_best zero size s prev walk b = none
find_best (suc n) size s prev walk b =
    let better = is_better size (get_size s walk) b in
    let found : Best = record { best = walk; best_prev = prev; best_size = get_size s walk } in
    let rest = find_best n size s walk (s.words walk) (if better then found else b) in
    if walk == 0
    then some b
    else if better && is_exact size (get_size s walk)
    then some found
    else rest

-- Fresh pages as one large object; the object is null when there are none.
unfoldable pub fresh_object : (ℕ → ℕ) → ℕ → Allocator → Option (Best × Allocator)
fresh_object brk size s =
    let size_with_header = add64 size large_object_header_size in
    allocate_pages brk size_with_header s >>= λ r.
    let page = r.0.0 in
    let ptr = chunk_data page 1 in
    let best_size = sub64 (r.0.1 * page_size) (chunk_size + large_object_header_size) in
    let marked = allocate_chunk page 1 large_object r.1 in
    let linked = record marked { words = store marked.words ptr marked.large_objects } in
    if page == 0
    then some (no_best, r.1)
    else guard (leb size_with_header best_size) (
        some (
          record { best = ptr; best_prev = 0; best_size = best_size },
          set_size ptr best_size linked,
        ))

-- The object is marked and leaves the free list.
unfoldable pub take_object : Best → Allocator → Allocator
take_object b s =
    let marked = allocate_chunk (get_page b.best) (get_chunk_index b.best) large_object s in
    set_link b.best_prev (marked.words b.best) marked

-- The object that the allocation gets, its size before the tail is taken off, and the size of the tail.
pub record Split : Type 0 where
  pub object : ℕ
  pub total : ℕ
  pub tail_size : ℕ

-- The object spans pages and the allocation fits in one: the part on the first page goes back.
unfoldable pub split_head : ℕ → ℕ → ℕ → Allocator → Option (Split × Allocator)
split_head size best best_size s =
    let start = get_large_object_payload best in
    let first_page_size = page_size - start % page_size in
    let freed = allocate_chunk (get_page best) (get_chunk_index start) free_large_object s in
    let pushed = push_large best (set_size best first_page_size freed) in
    let rest = maybe_repurpose_single_chunk_large_objects_head pushed in
    let next_page = get_page best + page_size in
    let ptr = chunk_data next_page 1 in
    let left = sub64 best_size (first_page_size + chunk_size + large_object_header_size) in
    let split : Split = record {
      object = ptr;
      total = left;
      tail_size = whole_chunks (sub64 left size);
    } in
    guard (leb size left)
      (some (split, set_size ptr left (allocate_chunk next_page 1 large_object rest)))

-- A larger allocation takes all of its last page.
unfoldable pub keep_pages : ℕ → ℕ → ℕ → Split
keep_pages size best best_size =
    let first_page_size = page_size - get_large_object_payload best % page_size in
    let taken = add64 first_page_size (align (sub64 size first_page_size) page_size) in
    record { object = best; total = best_size; tail_size = sub64 best_size taken }

-- The three branches for a tail of one chunk or more.
unfoldable pub choose_split : ℕ → ℕ → ℕ → ℕ → Allocator → Option (Split × Allocator)
choose_split size best best_size tail_size s =
    let end = add64 (get_large_object_payload best) best_size in
    if get_page best == get_page (sub64 end (tail_size + 1))
    then guard (end == align end chunk_size)
        (some (record { object = best; total = best_size; tail_size = tail_size }, s))
    else guard (end == align end page_size) (
        if ltb size (page_size - large_object_header_size - chunk_size)
        then split_head size best best_size s
        else some (keep_pages size best best_size, s))

-- A tail that would begin with a page header begins one chunk later: the loop on `tail_idx` runs at
-- most once.
abbrev pub skip_header : ℕ → ℕ → ℕ
skip_header end tail_size =
    if get_chunk_index (sub64 end tail_size) == 0 then tail_size - chunk_size else tail_size

-- The tail becomes a free object.
unfoldable pub free_tail : ℕ → ℕ → Allocator → Option Allocator
free_tail end tail_size s =
    let start = sub64 end tail_size in
    let tail = chunk_data (get_page start) (get_chunk_index start) in
    let size = tail_size - large_object_header_size in
    let marked = allocate_chunk (get_page start) (get_chunk_index start) free_large_object s in
    let top = add64 (get_large_object_payload tail) size in
    if tail_size == 0
    then some s
    else guard (top == align top chunk_size) (
        some (
          maybe_repurpose_single_chunk_large_objects_head
            (push_large tail (set_size tail size marked))))

-- From `best->size -= tail_size` on, for an object that ended at `end`.
unfoldable pub cut_tail : ℕ → Split × Allocator → Option (ℕ × Allocator)
cut_tail end (d, s) =
    let shrunk = set_size d.object (sub64 (get_size s d.object) d.tail_size) s in
    free_tail end (skip_header end d.tail_size) shrunk >>= λ s'. some (d.object, s')

-- The object that is left ends with a chunk.
unfoldable pub check_end : ℕ × Allocator → Option (ℕ × Allocator)
check_end (best, s) =
    let top = add64 (get_large_object_payload best) (get_size s best) in
    guard (top == align top chunk_size) (some (best, s))

-- From `size_t tail_size = ...` on.
unfoldable pub finish_large : ℕ → ℕ → ℕ → Allocator → Option (ℕ × Allocator)
finish_large size best best_size s =
    let tail_size = whole_chunks (sub64 best_size size) in
    let end = add64 (get_large_object_payload best) best_size in
    if tail_size == 0
    then check_end (best, s)
    else (choose_split size best best_size tail_size s >>= cut_tail end) >>= check_end

-- The object found, or a fresh one.
unfoldable pub obtain_object : (ℕ → ℕ) → ℕ → Best → Allocator → Option (Best × Allocator)
obtain_object brk size b s = if b.best == 0 then fresh_object brk size s else some (b, s)

-- From the object on; null when there is none.
unfoldable pub give_object : ℕ → Best × Allocator → Option (ℕ × Allocator)
give_object size (b, s) =
    if b.best == 0 then some (0, s) else finish_large size b.best b.best_size (take_object b s)

-- The result is the object, which may be null.
unfoldable pub allocate_large_object : (ℕ → ℕ) → ℕ → ℕ → Allocator → Option (ℕ × Allocator)
allocate_large_object brk fuel size s = maybe_compact_free_large_objects fuel s >>= λ s'.
    find_best fuel size s' 0 s'.large_objects no_best >>= λ b.
    obtain_object brk size b s' >>= give_object size
