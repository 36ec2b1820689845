-- ===== src/Walloc/State.antt =====
-- What libc/src/walloc.c keeps between calls, and the smallest operations on it. A null pointer is 0.
-- `none` is a failed ASSERT, or a loop that is not at its end when the fuel is.
use tiny_libc.Prelude.{ℕ, ◌+◌, ◌-◌, ◌*◌, ◌%◌, ◌^◌, Bool, ◌==◌, ltb, if◌then◌else◌}
use tiny_libc.Prelude.Bytes.{Memory, store}
use tiny_libc.Arch.{Heap}
use tiny_libc.Walloc.{chunk_size, get_page, get_chunk_index}

-- `words` is the memory outside the page headers, by the address of a 64-bit word: a free object has
-- its `next` at its own address, a large object its `size` behind it. `kinds` is the memory of the page
-- headers, by the address of a byte. `small_object_freelists` is the array, by the kind.
pub record Allocator : Type 0 where
  pub words : Memory
  pub kinds : Memory
  pub small_object_freelists : Memory
  pub large_objects : ℕ
  pub walloc_heap_size : ℕ
  pub pending_large_object_compact : Bool
  pub heap : Heap

-- Arithmetic on `size_t` and on pointers.
abbrev pub add64 : ℕ → ℕ → ℕ
add64 a b = (a + b) % 2 ^ 64

abbrev pub sub64 : ℕ → ℕ → ℕ
sub64 a b = (a + (2 ^ 64 - b)) % 2 ^ 64

abbrev pub max_size : ℕ → ℕ → ℕ
max_size a b = if ltb a b then b else a

-- `size & ~CHUNK_MASK`
abbrev pub whole_chunks : ℕ → ℕ
whole_chunks size = size - size % chunk_size

abbrev pub get_size : Allocator → ℕ → ℕ
get_size s obj = s.words (obj + 8)

abbrev pub set_next : ℕ → ℕ → Allocator → Allocator
set_next obj next s = record s { words = store s.words obj next }

abbrev pub set_size : ℕ → ℕ → Allocator → Allocator
set_size obj size s = record s { words = store s.words (obj + 8) size }

-- A `struct large_object **` is `&large_objects`, written 0, or the address of a large object, whose
-- first field is `next`.
abbrev pub get_link : Allocator → ℕ → ℕ
get_link s prev = if prev == 0 then s.large_objects else s.words prev

abbrev pub set_link : ℕ → ℕ → Allocator → Allocator
set_link prev obj s =
    if prev == 0
    then record s { large_objects = obj }
    else record s { words = store s.words prev obj }

-- The address of a chunk.
abbrev pub chunk_data : ℕ → ℕ → ℕ
chunk_data page idx = page + idx * chunk_size

-- The change of the state by `allocate_chunk`; the result is `chunk_data page idx`.
abbrev pub allocate_chunk : ℕ → ℕ → ℕ → Allocator → Allocator
allocate_chunk page idx kind s = record s { kinds = store s.kinds (page + idx) kind }

-- The kind of the chunk that an address lies in.
abbrev pub kind_of : Allocator → ℕ → ℕ
kind_of s ptr = s.kinds (get_page ptr + get_chunk_index ptr)

-- An object goes to the front of a small free list.
abbrev pub push_small : ℕ → ℕ → Allocator → Allocator
push_small kind obj s = record (set_next obj (s.small_object_freelists kind) s) {
  small_object_freelists = store s.small_object_freelists kind obj;
}

-- A large object goes to the front of the free list, which does not change its size.
abbrev pub push_large : ℕ → Allocator → Allocator
push_large obj s = record (set_next obj s.large_objects s) { large_objects = obj }

-- GRANULES_32
abbrev pub granules_32 : ℕ
granules_32 = 9

-- The head of the list is popped before its chunk becomes a free object of 256 bytes.
unfoldable pub maybe_repurpose_single_chunk_large_objects_head : Allocator → Allocator
maybe_repurpose_single_chunk_large_objects_head s =
    let obj = s.large_objects in
    let ptr = chunk_data (get_page obj) (get_chunk_index obj) in
    let marked = allocate_chunk (get_page obj) (get_chunk_index obj) granules_32 s in
    if ltb (get_size s obj) chunk_size
    then push_small granules_32 ptr (record marked { large_objects = s.words obj })
    else s
