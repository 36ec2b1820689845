-- ===== src/Stdlib/Tests.antt =====
-- realloc and calloc of libc/src/stdlib.c on a small heap.
use tiny_libc.Prelude.{ℕ, ◌%◌, ◌≡◌, inr, refl, arith, false, ◌==◌, if◌then◌else◌, some}
use tiny_libc.Prelude.Bytes.{Memory, store}
use tiny_libc.Arch.{no_heap}
use tiny_libc.Walloc.{malloc_kind, size_to_granules, granules_to_chunk_kind, usable_size}
use tiny_libc.Walloc.State.{Allocator}
use tiny_libc.Walloc.Small.{malloc_usable_size}
use tiny_libc.Stdlib.{Allocation, realloc}
use tiny_libc.Stdlib.Realloc.{IsMoved, realloc-IsMoved}

abbrev grant : ℕ → ℕ
grant addr = if addr == 0 then 70000 else addr

-- Objects of 8 bytes in the chunk at 131328, and objects of 48 in the next, of which one is free.
abbrev two_kinds : Allocator
two_kinds = record {
  words = λ a. 0;
  kinds = store (λ a. 0) 131074 5;
  small_object_freelists = store (λ k. 0) 5 131584;
  large_objects = 0;
  walloc_heap_size = 65536;
  pending_large_object_compact = false;
  heap = no_heap;
}

abbrev contents : Memory
contents a = a % 256

realloc-IsMoved_example :
    (a : Allocation) × (realloc grant 5 131328 41 contents two_kinds ≡ some a)
    × (a.ptr ≡ 131584)
    × IsMoved 131328 8 41 contents two_kinds a
unfolding malloc_kind size_to_granules granules_to_chunk_kind malloc_usable_size usable_size
realloc-IsMoved_example =
    realloc-IsMoved grant 5 131328 41 contents two_kinds (omega arith) refl (omega arith)
      (omega arith) (omega arith) (λ e. omega (arith, e)) refl (inr (omega arith))
