-- ===== src/Walloc/Merge.antt =====
-- libc/src/walloc.c: maybe_merge_free_large_object and maybe_compact_free_large_objects.
use tiny_libc.Prelude.{
  ℕ, zero, suc, ◌+◌, Bool, true, false, ◌==◌, if◌then◌else◌, Option, none, some,
}
use tiny_libc.Prelude.Options.{◌>>=◌}
use tiny_libc.Walloc.{
  chunk_size, free_large_object, large_object_header_size, align, get_page, get_chunk_index,
  get_large_object_payload,
}
use tiny_libc.Walloc.State.{Allocator, add64, get_size, set_size, get_link, set_link}

-- The inner loop: the link that leads to `next`. `ASSERT(walk)` fails at the end of the list.
unfoldable pub find_link : ℕ → ℕ → Allocator → ℕ → ℕ → Option ℕ
find_link zero next s prev_prev walk = none
find_link (suc n) next s prev_prev walk =
    let rest = find_link n next s walk (s.words walk) in
    if walk == 0 then none else if walk == next then some prev_prev else rest

-- `obj` takes the object `next` in, which `prev_prev` leads to. The result is the new `prev`.
unfoldable pub absorb : ℕ → ℕ → ℕ → ℕ → Allocator → ℕ × Allocator
absorb obj next prev prev_prev s =
    let size = add64 (get_size s obj) (add64 large_object_header_size (get_size s next)) in
    let grown = set_size obj size s in
    ((if prev == next then prev_prev else prev), set_link prev_prev (grown.words next) grown)

-- The chunk behind the object, if it is not a page header and begins a free large object.
unfoldable pub next_free : Allocator → ℕ → Option ℕ
next_free s obj =
    let end = add64 (get_large_object_payload obj) (get_size s obj) in
    let chunk = get_chunk_index end in
    if chunk == 0
    then none
    else if s.kinds (get_page end + chunk) == free_large_object
    then some end
    else none

abbrev pub end_aligned : Allocator → ℕ → Bool
end_aligned s obj =
    let end = add64 (get_large_object_payload obj) (get_size s obj) in end == align end chunk_size

-- The outer loop of `maybe_merge_free_large_object`, after `obj = *prev`.
unfoldable pub merge_from : ℕ → ℕ → ℕ → Allocator → Option (ℕ × Allocator)
merge_from zero obj prev s = none
merge_from (suc n) obj prev s =
    let next = next_free s obj in
    if end_aligned s obj
    then elim next [
      | none ↦ some (prev, s)
      | some next ↦ find_link (suc n) next s 0 s.large_objects >>= λ prev_prev.
          let merged = absorb obj next prev prev_prev s in merge_from n obj merged.0 merged.1
    ]
    else none

unfoldable pub maybe_merge_free_large_object : ℕ → ℕ → Allocator → Option (ℕ × Allocator)
maybe_merge_free_large_object fuel prev s = merge_from fuel (get_link s prev) prev s

-- `while (*prev)`
unfoldable pub compact_from : ℕ → ℕ → Allocator → Option Allocator
compact_from zero prev s = none
compact_from (suc n) prev s = elim (get_link s prev == 0) [
  | true ↦ some s
  | false ↦
      maybe_merge_free_large_object (suc n) prev s >>= λ r. compact_from n (get_link r.1 r.0) r.1
]

unfoldable pub maybe_compact_free_large_objects : ℕ → Allocator → Option Allocator
maybe_compact_free_large_objects fuel s = elim s.pending_large_object_compact [
  | true ↦ compact_from fuel 0 (record s { pending_large_object_compact = false })
  | false ↦ some s
]
