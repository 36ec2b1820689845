-- ===== src/Arch/Pages.antt =====
-- What `__page_alloc` of libc/arch/x86_64-linux.c returns to the allocator.
use tiny_libc.Prelude.{
  ℕ, ◌+◌, ◌*◌, ◌%◌, ◌^◌, ◌≤◌, ◌<◌, ◌≡◌, ◌≢◌, ◌⊎◌, inl, inr, refl, Bool-cases, ==-ne, arith, ◌==◌,
}
use tiny_libc.Arch.{Heap, start_heap, align_up, take_pages, page_alloc}

-- The result is null, or that many pages from the result on are aligned, lie behind the heap so far with
-- less than a page between, and lie below the break; the heap ends with them.
abbrev pub IsFresh : ℕ → ℕ → ℕ × Heap → Type 0
IsFresh heap_end n_pages (r, s) =
    (r ≡ 0)
    ⊎ ((r % 65536 ≡ 0)
        × (heap_end ≤ r)
        × (r < heap_end + 65536)
        × (s.heap_end ≡ r + 65536 * n_pages)
        × (s.heap_end ≤ s.brk_end))

take_pages-IsFresh :
    (brk : ℕ → ℕ) (n_pages : ℕ) (s : Heap)
    → s.heap_end + 65536 * n_pages + 65536 < 2 ^ 64
    → IsFresh s.heap_end n_pages (take_pages brk 65536 n_pages s)
unfolding take_pages align_up
take_pages-IsFresh brk n_pages s h = ground arith

-- Whatever `brk` returns, for pages of 2^16 bytes and a heap far enough from the end of the address
-- space, `__page_alloc` returns null or fresh pages: aligned, behind all the heap so far with less than a
-- page between, and below the break.
pub page_alloc-IsFresh :
    (brk : ℕ → ℕ) (n_pages : ℕ) (s : Heap)
    → (start_heap brk s).heap_end + 65536 * n_pages + 65536 < 2 ^ 64
    → IsFresh (start_heap brk s).heap_end n_pages (page_alloc brk 16 n_pages s)
unfolding page_alloc
page_alloc-IsFresh brk n_pages s h = elim (Bool-cases ((start_heap brk s).heap_base == 0)) [
  | inl none ↦ rw none (inl refl)
  | inr some ↦ rw some (take_pages-IsFresh brk n_pages (start_heap brk s) h)
]

start_heap_again : (brk : ℕ → ℕ) (s : Heap) → s.heap_base ≢ 0 → start_heap brk s ≡ s
unfolding start_heap
start_heap_again brk s nz = rw (==-ne s.heap_base 0 nz)

take_pages-heap_base :
    (brk : ℕ → ℕ) (page_size n_pages : ℕ) (s : Heap)
    → (take_pages brk page_size n_pages s).1.heap_base ≡ s.heap_base
unfolding take_pages
take_pages-heap_base brk page_size n_pages s = ground arith

-- A call that does not return null leaves a heap that has begun, so the next call goes on from there.
begun :
    (brk brk' : ℕ → ℕ) (n_pages : ℕ) (s : Heap)
    → (page_alloc brk 16 n_pages s).0 ≢ 0
    → start_heap brk' (page_alloc brk 16 n_pages s).1 ≡ (page_alloc brk 16 n_pages s).1
unfolding page_alloc
begun brk brk' n_pages s h = elim (Bool-cases ((start_heap brk s).heap_base == 0)) [
  | inl none ↦ absurd (h (rw none))
  | inr some ↦ rw some (
      start_heap_again brk' (take_pages brk 65536 n_pages (start_heap brk s)).1
        (rw (take_pages-heap_base brk 65536 n_pages (start_heap brk s)) (ground (arith, some))))
]

-- Two calls in a row, far enough from the end of the address space, that do not return null return
-- ranges that do not overlap, the second behind the first, whatever `brk` returns in each.
pub page_alloc-apart :
    (brk brk' : ℕ → ℕ) (n n' : ℕ) (s : Heap)
    → (start_heap brk s).heap_end + 65536 * n + 65536 < 2 ^ 64
    → (page_alloc brk 16 n s).1.heap_end + 65536 * n' + 65536 < 2 ^ 64
    → (page_alloc brk 16 n s).0 ≢ 0
    → (page_alloc brk' 16 n' (page_alloc brk 16 n s).1).0 ≢ 0
    → (page_alloc brk 16 n s).0 + 65536 * n ≤ (page_alloc brk' 16 n' (page_alloc brk 16 n s).1).0
page_alloc-apart brk brk' n n' s h h' nz nz' =
    let same = begun brk brk' n s nz in
    let one = page_alloc-IsFresh brk n s h in
    let two = rw same at (page_alloc-IsFresh brk' n' (page_alloc brk 16 n s).1 (rw same h')) in
    ground (arith, one, two)
