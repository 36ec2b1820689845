-- ===== src/Walloc/Tests.antt =====
-- Runs of the size computations of libc/src/walloc.c, and the theorems at concrete sizes.
use tiny_libc.Prelude.{◌<◌, ◌≡◌, ◌⊎◌, refl, arith}
use tiny_libc.Walloc.{
  malloc_kind, size_to_granules, granules_to_chunk_kind, large_object, get_page, get_chunk_index,
}
use tiny_libc.Walloc.Sizes.{IsBest, malloc_kind-IsBest}

kind_of_56 : malloc_kind 56 ≡ 6
unfolding malloc_kind size_to_granules granules_to_chunk_kind
kind_of_56 = refl

page_of : get_page 196864 ≡ 196608
page_of = refl

chunk_of : get_chunk_index 196864 ≡ 1
chunk_of = refl

malloc_kind-IsBest_example :
    IsBest 70 (malloc_kind 70) ⊎ ((256 < 70) × (malloc_kind 70 ≡ large_object))
malloc_kind-IsBest_example = malloc_kind-IsBest 70 (omega arith)
