-- ===== src/Stdlib/Realloc.antt =====
-- What realloc and calloc of libc/src/stdlib.c keep and set in the bytes of an object.
use mathlib.Core.Path.{fun_ext}
use tiny_libc.Prelude.{
  lt→ltb, ◌-◌, ap, ◌∙◌, ℕ, ◌+◌, ◌*◌, ◌%◌, ◌^◌, ◌≤◌, ◌<◌, ◌≡◌, ◌≢◌, ◌⊎◌, refl, arith, ==-ne, ==-refl,
  inl, inr, lt→leb-false, some, replicate,
}
use tiny_libc.Prelude.Bytes.{store, slice-ext, Memory, slice}
use tiny_libc.Strings.{memcpy, memset}
use tiny_libc.Strings.Copy.{memcpy-Copied, memset_lem}
use tiny_libc.Walloc.{small_object_chunk_kinds, malloc_kind, large_object}
use tiny_libc.Walloc.State.{Allocator, kind_of, push_small}
use tiny_libc.Walloc.Sizes.{IsBest, malloc_kind-IsBest}
use tiny_libc.Walloc.Small.{malloc_usable_size, pop_small}
use tiny_libc.Walloc.RoundTrip.{malloc-pop, free-push}
use tiny_libc.Walloc.Usable.{usable_size-malloc}
use tiny_libc.Walloc.Carve.{kind_facts}
use tiny_libc.Stdlib.{
  Allocation, allocation, word_at, with_bytes, save, allocate, release, move_object, realloc,
  calloc,
}

-- A call of the allocator that writes no word leaves the bytes.
save-same : (m : Memory) (s : Allocator) → ((a : ℕ) → s.words a ≡ word_at m a) → save m s ≡ m
save-same m s same = fun_ext λ b. rw (same (b - b % 8)) (rw (==-refl (word_at m (b - b % 8))) refl)

-- One that writes a word leaves the others.
save-outside :
    (m : Memory) (s : Allocator) (p v b : ℕ)
    → ((a : ℕ) → s.words a ≡ store (word_at m) p v a)
    → b - b % 8 ≢ p
    → save m s b ≡ m b
save-outside m s p v b written ne =
    let same : s.words (b - b % 8) ≡ word_at m (b - b % 8) =
      written (b - b % 8) ∙ rw (==-ne (b - b % 8) p ne) refl in
    rw same (rw (==-refl (word_at m (b - b % 8))) refl)

-- A call that the free list of the class serves.
allocate-pop :
    (brk : ℕ → ℕ) (fuel size : ℕ) (m : Memory) (s : Allocator)
    → malloc_kind size < small_object_chunk_kinds
    → s.small_object_freelists (malloc_kind size) ≢ 0
    → allocate brk fuel size m s
      ≡ some (
          allocation
            (s.small_object_freelists (malloc_kind size))
            m
            (pop_small (malloc_kind size) (with_bytes m s)).1)
unfolding allocate pop_small
allocate-pop brk fuel size m s small head =
    rw (malloc-pop brk fuel size (with_bytes m s) small head) (
      ap
        (λ bytes. some (
          allocation (s.small_object_freelists (malloc_kind size)) bytes
            (pop_small (malloc_kind size) (with_bytes m s)).1))
        (save-same m (pop_small (malloc_kind size) (with_bytes m s)).1 (λ a. refl)))

release-push :
    (ptr : ℕ) (m : Memory) (s : Allocator)
    → 1 ≤ ptr
    → kind_of s ptr < small_object_chunk_kinds
    → (let pushed = push_small (kind_of s ptr) ptr (with_bytes m s) in
        release ptr m s ≡ some (allocation 0 (save m pushed) pushed))
unfolding release
release-push ptr m s nz small = rw (free-push ptr (with_bytes m s) nz small) refl

-- An object that is moved: its bytes are those of the old one, of which no byte but the first eight
-- changes, and no other byte changes; it holds the new size; the old one is the next of its kind to be
-- given out.
abbrev pub IsMoved : ℕ → ℕ → ℕ → Memory → Allocator → Allocation → Type 0
IsMoved ptr old_size new_size m s a =
    (slice a.bytes a.ptr old_size ≡ slice m ptr old_size)
    × ((b : ℕ) → (b < a.ptr) ⊎ (a.ptr + old_size ≤ b) → (b < ptr) ⊎ (ptr + 8 ≤ b) → a.bytes b ≡ m b)
    × (new_size ≤ malloc_usable_size a.ptr a.allocator)
    × (a.allocator.small_object_freelists (kind_of s ptr) ≡ ptr)

-- The word that `free` writes lies in the old object, which the new one does not overlap.
aligned_apart :
    (ptr to old_size b : ℕ)
    → ptr % 8 ≡ 0
    → 8 ≤ old_size
    → (to + old_size ≤ ptr) ⊎ (ptr + old_size ≤ to)
    → to ≤ b
    → b < to + old_size
    → b - b % 8 ≢ ptr
aligned_apart ptr to old_size b whole size apart low high e = omega (arith, e)

usable_lem :
    (ptr : ℕ) (s : Allocator)
    → 1 ≤ ptr
    → kind_of s ptr < small_object_chunk_kinds
    → 8 ≤ malloc_usable_size ptr s
unfolding malloc_usable_size
usable_lem ptr s nz small =
    rw
      (
        ==-ne ptr 0 (omega arith),
        ==-ne (kind_of s ptr) large_object (omega arith),
        lt→ltb (kind_of s ptr) small_object_chunk_kinds small,
      )
      (omega (arith, (kind_facts (kind_of s ptr) small).0, (kind_facts (kind_of s ptr) small).1))

-- For a small object at a multiple of 8 and a new size of at most 256 bytes that it does not hold, where
-- the free list of the new size's class begins with an object of that class that does not overlap the
-- old one: realloc returns that object, with the bytes of the old one, which is freed; of the old one it
-- changes the first eight bytes at most, and no byte outside the two.
pub realloc-IsMoved :
    (brk : ℕ → ℕ) (fuel ptr new_size : ℕ) (m : Memory) (s : Allocator)
    → (let kind = malloc_kind new_size in
        let old_size = malloc_usable_size ptr (with_bytes m s) in
        let head = s.small_object_freelists kind in
        1 ≤ ptr
        → ptr % 8 ≡ 0
        → kind_of s ptr < small_object_chunk_kinds
        → new_size ≤ 256
        → old_size < new_size
        → head ≢ 0
        → kind_of s head ≡ kind
        → (head + old_size ≤ ptr) ⊎ (ptr + old_size ≤ head)
        → (a : Allocation) × (realloc brk fuel ptr new_size m s ≡ some a)
          × (a.ptr ≡ head)
          × IsMoved ptr old_size new_size m s a)
unfolding realloc move_object pop_small
realloc-IsMoved brk fuel ptr new_size m s nz whole small le grows head same apart =
    let kind = malloc_kind new_size in
    let old_size = malloc_usable_size ptr (with_bytes m s) in
    let to = s.small_object_freelists kind in
    let popped = (pop_small kind (with_bytes m s)).1 in
    let moved = memcpy m to ptr old_size in
    let pushed = push_small (kind_of s ptr) ptr (with_bytes moved popped) in
    let best = best_of (malloc_kind-IsBest new_size (omega arith)) in
    let copied = memcpy-Copied m to ptr old_size apart in
    let kept = save-outside moved pushed ptr (popped.small_object_freelists (kind_of s ptr)) in
    (
      allocation to (save moved pushed) pushed,
      rw
          (
            ==-ne ptr 0 (omega arith),
            ==-ne new_size 0 (omega arith),
            lt→leb-false new_size old_size grows,
            allocate-pop brk fuel new_size m s best.0 head,
            ==-ne to 0 head,
            release-push ptr moved popped nz small,
          )
          refl,
      refl,
      (
        slice-ext (save moved pushed) moved to old_size (λ b low high.
              kept b (λ a. refl)
                (aligned_apart ptr to old_size b whole (usable_lem ptr (with_bytes m s) nz small)
                  apart low high))
            ∙ copied.copied,
        (λ b out first. kept b (λ a. refl) (λ e. omega (arith, e, first)) ∙ copied.outside b out),
        usable_size-malloc kind new_size (to, pushed) best (head, same),
        rw (==-refl (kind_of s ptr)) refl,
      ),
    )
  where
    best_of :
        IsBest new_size (malloc_kind new_size)
          ⊎ ((256 < new_size) × (malloc_kind new_size ≡ large_object))
        → IsBest new_size (malloc_kind new_size)
    best_of (inl b) = b
    best_of (inr b) = absurd (omega (arith, b.0))

-- Where the free list of the size's class is not empty, calloc returns its first object, with as many
-- bytes of zero as the product of its arguments modulo 2 ^ 64, and changes no other byte.
pub calloc-zeros :
    (brk : ℕ → ℕ) (fuel num size : ℕ) (m : Memory) (s : Allocator)
    → (let len = num * size % 2 ^ 64 in
        let kind = malloc_kind len in
        let head = s.small_object_freelists kind in
        kind < small_object_chunk_kinds
        → head ≢ 0
        → (a : Allocation) × (calloc brk fuel num size m s ≡ some a)
          × (a.ptr ≡ head)
          × (slice a.bytes head len ≡ replicate len 0)
          × ((b : ℕ) → (b < head) ⊎ (head + len ≤ b) → a.bytes b ≡ m b))
unfolding calloc
calloc-zeros brk fuel num size m s small head =
    let len = num * size % 2 ^ 64 in
    let to = s.small_object_freelists (malloc_kind len) in
    let set = memset_lem m to 0 len in
    (
      allocation to (memset m to 0 len) (pop_small (malloc_kind len) (with_bytes m s)).1,
      rw (allocate-pop brk fuel len m s small head) refl,
      refl,
      set.0,
      set.1,
    )
