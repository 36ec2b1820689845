-- ===== src/Walloc/Sizes.antt =====
-- The size class that `malloc` of libc/src/walloc.c chooses.
use native.Mathlib.Nat.{mod-eq_of_lt}
use tiny_libc.Prelude.{ℕ, ◌+◌, ◌-◌, ◌*◌, ◌/◌, ◌^◌, ◌≤◌, ◌<◌, ◌≡◌, ◌⊎◌, arith}
use tiny_libc.Walloc.{
  granules_to_chunk_kind, size_to_granules, malloc_kind, usable_size, large_object,
  small_object_chunk_kinds, align,
}

-- The class holds the size, and the class before it, if there is one, does not.
abbrev pub IsBest : ℕ → ℕ → Type 0
IsBest size kind =
    (kind < small_object_chunk_kinds)
    × (size ≤ usable_size kind)
    × ((kind ≡ 0) ⊎ (usable_size (kind - 1) < size))

-- The tests of `granules_to_chunk_kind`, for a size of so many granules.
granules_to_chunk_kind-IsBest :
    (size granules : ℕ)
    → size ≤ granules * 8
    → granules * 8 < size + 8
    → IsBest size (granules_to_chunk_kind granules)
      ⊎ ((256 < size) × (granules_to_chunk_kind granules ≡ large_object))
unfolding granules_to_chunk_kind usable_size
granules_to_chunk_kind-IsBest size granules low high = ground arith

-- For a size of which the granules are an `unsigned`, the kind is the smallest class that holds the
-- size, or the size is over 256 and the kind is that of a large object.
pub malloc_kind-IsBest :
    (size : ℕ)
    → size < 2 ^ 35 - 7
    → IsBest size (malloc_kind size) ⊎ ((256 < size) × (malloc_kind size ≡ large_object))
unfolding malloc_kind size_to_granules
malloc_kind-IsBest size h = granules_to_chunk_kind-IsBest size _ (omega arith) (omega arith)

-- A size that is a multiple of 2^35 has no granules as an `unsigned`: `malloc` takes the smallest
-- class for it, of 8 bytes.
pub malloc_kind-wraps : (k : ℕ) → k * 2 ^ 35 < 2 ^ 64 → malloc_kind (k * 2 ^ 35) ≡ 0
unfolding malloc_kind size_to_granules granules_to_chunk_kind
malloc_kind-wraps k h = ground arith

-- Where the sum does not wrap, `align` rounds up to the next multiple of the alignment.
pub align_lem :
    (val alignment : ℕ)
    → 1 ≤ alignment
    → val + alignment ≤ 2 ^ 64
    → (val ≤ align val alignment)
      × (align val alignment < val + alignment)
      × ((q : ℕ) × (align val alignment ≡ q * alignment))
unfolding align
align_lem val alignment nz h =
    rw (mod-eq_of_lt fits)
      (omega arith, omega arith, ((val + alignment - 1) / alignment, omega arith))
  where
    fits : val + alignment - 1 < 2 ^ 64
    fits = omega arith
