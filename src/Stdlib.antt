-- ===== src/Stdlib.antt =====
-- libc/src/stdlib.c: realloc and calloc, over the allocator of libc/src/walloc.c. There is one memory of
-- bytes: a call of the allocator reads its words there and leaves them there.
pub mod Realloc
mod Tests
use tiny_libc.Prelude.{
  ℕ, zero, suc, ◌+◌, ◌-◌, ◌/◌, ◌*◌, ◌%◌, ◌^◌, ◌==◌, leb, if◌then◌else◌, Option, some,
}
use tiny_libc.Prelude.Bytes.{Memory}
use tiny_libc.Prelude.Options.{◌>>=◌}
use tiny_libc.Strings.{memcpy, memset}
use tiny_libc.Walloc.State.{Allocator}
use tiny_libc.Walloc.Small.{malloc, free, malloc_usable_size}

-- What a call returns, and leaves.
pub record Allocation : Type 0 where
  pub ptr : ℕ
  pub bytes : Memory
  pub allocator : Allocator

abbrev pub allocation : ℕ → Memory → Allocator → Allocation
allocation ptr m s = record { ptr = ptr; bytes = m; allocator = s }

-- The n bytes from an address on as a number, the least byte first.
abbrev pub word_from : ℕ → Memory → ℕ → ℕ
word_from zero m a = 0
word_from (suc n) m a = m a + 256 * word_from n m (a + 1)

abbrev pub word_at : Memory → ℕ → ℕ
word_at m a = word_from 8 m a

-- The allocator finds in memory what the program has left there.
abbrev pub with_bytes : Memory → Allocator → Allocator
with_bytes m s = record s { words = word_at m }

-- The bytes after a call of the allocator, which writes whole words, at multiples of 8.
abbrev pub save : Memory → Allocator → Memory
save m s b =
    let a = b - b % 8 in if s.words a == word_at m a then m b else s.words a / 256 ^ (b % 8) % 256

-- `malloc` and `free` on the one memory.
unfoldable pub allocate : (ℕ → ℕ) → ℕ → ℕ → Memory → Allocator → Option Allocation
allocate brk fuel size m s =
    malloc brk fuel size (with_bytes m s) >>= λ r. some (allocation r.0 (save m r.1) r.1)

unfoldable pub release : ℕ → Memory → Allocator → Option Allocation
release ptr m s = free ptr (with_bytes m s) >>= λ s'. some (allocation 0 (save m s') s')

-- `realloc`, from `malloc(new_size)` on: the bytes are copied before the old object is freed.
unfoldable pub move_object : (ℕ → ℕ) → ℕ → ℕ → ℕ → ℕ → Memory → Allocator → Option Allocation
move_object brk fuel ptr old_size new_size m s = allocate brk fuel new_size m s >>= λ a.
    let moved = memcpy a.bytes a.ptr ptr old_size in
    if a.ptr == 0
    then some a
    else release ptr moved a.allocator >>= λ r. some (record r { ptr = a.ptr })

unfoldable pub realloc : (ℕ → ℕ) → ℕ → ℕ → ℕ → Memory → Allocator → Option Allocation
realloc brk fuel ptr new_size m s =
    let old_size = malloc_usable_size ptr (with_bytes m s) in
    if ptr == 0
    then allocate brk fuel new_size m s
    else if new_size == 0
    then release ptr m s
    else if leb new_size old_size
    then some (allocation ptr m s)
    else move_object brk fuel ptr old_size new_size m s

-- The result of `malloc` is not looked at before the bytes are set.
unfoldable pub calloc : (ℕ → ℕ) → ℕ → ℕ → ℕ → Memory → Allocator → Option Allocation
calloc brk fuel num size m s =
    let len = num * size % 2 ^ 64 in
    allocate brk fuel len m s >>= λ a. some (record a { bytes = memset a.bytes a.ptr 0 len })
