-- ===== src/Walloc.antt =====
-- The sizes and addresses of libc/src/walloc.c. An address and a size are below 2 ^ 64.
pub mod Sizes
pub mod State
pub mod Merge
pub mod Large
pub mod Small
pub mod Chain
pub mod Carve
pub mod RoundTrip
pub mod BestFit
pub mod Split
pub mod Allocate
pub mod Usable
pub mod FreeLists
pub mod WholeChunks
pub mod Unlink
pub mod Absorb
pub mod Links
pub mod Round
pub mod Compact
pub mod Compaction
mod Tests
mod HeapTests
mod ListTests
mod CompactionTests
use tiny_libc.Prelude.{
  ℕ, ◌+◌, ◌-◌, ◌*◌, ◌/◌, ◌%◌, ◌^◌, Bool, ◌==◌, ltb, leb, if◌then◌else◌, List, [], ◌∷◌, get_or,
}

abbrev pub chunk_size : ℕ
chunk_size = 256

abbrev pub page_size : ℕ
page_size = 65536

abbrev pub granule_size : ℕ
granule_size = 8

-- The values of `enum chunk_kind`: 0 to 9 are GRANULES_1 to GRANULES_32.
abbrev pub small_object_chunk_kinds : ℕ
small_object_chunk_kinds = 10

abbrev pub free_large_object : ℕ
free_large_object = 254

abbrev pub large_object : ℕ
large_object = 255

abbrev pub small_object_granule_sizes : List ℕ
small_object_granule_sizes = 1 ∷ 2 ∷ 3 ∷ 4 ∷ 5 ∷ 6 ∷ 8 ∷ 10 ∷ 16 ∷ 32 ∷ []

-- The alignment is a power of two, so that `& ~(alignment - 1)` takes the remainder off.
unfoldable pub align : ℕ → ℕ → ℕ
align val alignment = let top = (val + alignment - 1) % 2 ^ 64 in top - top % alignment

unfoldable pub granules_to_chunk_kind : ℕ → ℕ
granules_to_chunk_kind granules =
    if leb granules 1
    then 0
    else if leb granules 2
    then 1
    else if leb granules 3
    then 2
    else if leb granules 4
    then 3
    else if leb granules 5
    then 4
    else if leb granules 6
    then 5
    else if leb granules 8
    then 6
    else if leb granules 10
    then 7
    else if leb granules 16
    then 8
    else if leb granules 32
    then 9
    else large_object

-- `return -1` of an `unsigned` result.
unfoldable pub chunk_kind_to_granules : ℕ → ℕ
chunk_kind_to_granules kind = get_or small_object_granule_sizes kind (2 ^ 32 - 1)

abbrev pub get_page : ℕ → ℕ
get_page ptr = ptr - ptr % page_size

abbrev pub get_chunk_index : ℕ → ℕ
get_chunk_index ptr = ptr % page_size / chunk_size

-- `sizeof (struct large_object)`
abbrev pub large_object_header_size : ℕ
large_object_header_size = 16

abbrev pub get_large_object_payload : ℕ → ℕ
get_large_object_payload obj = obj + large_object_header_size

abbrev pub get_large_object : ℕ → ℕ
get_large_object ptr = ptr - large_object_header_size

unfoldable pub size_to_granules : ℕ → ℕ
size_to_granules size = (size + granule_size - 1) % 2 ^ 64 / granule_size

-- The kind that `malloc` chooses: `granules` is a `size_t` and the parameter an `unsigned`.
unfoldable pub malloc_kind : ℕ → ℕ
malloc_kind size = granules_to_chunk_kind (size_to_granules size % 2 ^ 32)

-- What `malloc_usable_size` returns for a small object of a kind.
unfoldable pub usable_size : ℕ → ℕ
usable_size kind = get_or small_object_granule_sizes kind 0 * granule_size
