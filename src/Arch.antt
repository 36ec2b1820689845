-- ===== src/Arch.antt =====
-- libc/arch/x86_64-linux.c: `__page_alloc`, which takes pages from the end of the heap. The system call
-- `brk` is a parameter, with what it returns for an address in the call at hand.
pub mod Pages
mod Tests
use tiny_libc.Prelude.{ℕ, ◌+◌, ◌-◌, ◌*◌, ◌%◌, ◌^◌, ◌==◌, ltb, if◌then◌else◌}

-- The static variables. A null pointer is 0.
pub record Heap : Type 0 where
  pub heap_base : ℕ
  pub heap_end : ℕ
  pub brk_end : ℕ

abbrev pub no_heap : Heap
no_heap = record { heap_base = 0; heap_end = 0; brk_end = 0 }

-- `if (!heap_base) heap_base = heap_end = brk_end = brk(0)`
unfoldable pub start_heap : (ℕ → ℕ) → Heap → Heap
start_heap brk s =
    if s.heap_base == 0 then record { heap_base = brk 0; heap_end = brk 0; brk_end = brk 0 } else s

-- `heap_end + (-(intptr_t)heap_end & (page_size - 1))`, where the page size is a power of two.
unfoldable pub align_up : ℕ → ℕ → ℕ
align_up heap_end page_size = (heap_end + (2 ^ 64 - heap_end) % page_size) % 2 ^ 64

-- From the alignment on, in a heap that has begun.
unfoldable pub take_pages : (ℕ → ℕ) → ℕ → ℕ → Heap → ℕ × Heap
take_pages brk page_size n_pages s =
    let ptr = align_up s.heap_end page_size in
    let end = (ptr + page_size * n_pages) % 2 ^ 64 in
    if ltb s.brk_end end
    then ((if ltb (brk end) end then 0 else ptr), record s { heap_end = end; brk_end = brk end })
    else (ptr, record s { heap_end = end })

-- The result is the pointer that is returned.
unfoldable pub page_alloc : (ℕ → ℕ) → ℕ → ℕ → Heap → ℕ × Heap
page_alloc brk page_n_bits n_pages s =
    let started = start_heap brk s in
    let taken = take_pages brk (2 ^ page_n_bits) n_pages started in
    if started.heap_base == 0 then (0, started) else taken
