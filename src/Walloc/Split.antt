-- ===== src/Walloc/Split.antt =====
-- The object that `allocate_large_object` of libc/src/walloc.c has found loses the chunks behind the
-- allocation.
use tiny_libc.Prelude.{
  ℕ, ◌+◌, ◌-◌, ◌*◌, ◌%◌, ◌^◌, ◌≤◌, ◌<◌, ◌≡◌, ◌≢◌, refl, ◌∙◌, arith, false, ◌==◌, ==-ne, ==-refl,
  ◌⊎◌, inl, inr, Bool-cases, ltb, le→leb, ltb→lt, ltb-false→le, some,
}
use tiny_libc.Walloc.{align, get_page, get_chunk_index, free_large_object}
use tiny_libc.Walloc.State.{
  Allocator, add64, sub64, whole_chunks, get_size, set_size, chunk_data, push_large, allocate_chunk,
  maybe_repurpose_single_chunk_large_objects_head,
}
use tiny_libc.Walloc.Large.{
  Split, split_head, keep_pages, choose_split, skip_header, free_tail, cut_tail, check_end,
  finish_large,
}

pub add64_small : (a b : ℕ) → a + b < 2 ^ 64 → add64 a b ≡ a + b
add64_small a b h = omega arith

pub sub64_small : (a b : ℕ) → b ≤ a → a < 2 ^ 64 → sub64 a b ≡ a - b
sub64_small a b h lt = omega arith

pub align_same : (x : ℕ) → x % 256 ≡ 0 → x < 2 ^ 64 → align x 256 ≡ x
unfolding align
align_same x h lt = omega arith

pub align_page : (x : ℕ) → x % 65536 ≡ 0 → x < 2 ^ 64 → align x 65536 ≡ x
unfolding align
align_page x h lt = omega arith

chunk_start : (x : ℕ) → x % 256 ≡ 0 → chunk_data (get_page x) (get_chunk_index x) ≡ x
chunk_start x h = omega arith

-- Of the words, it changes at most the first one of the head.
repurpose-words :
    (s : Allocator) (a : ℕ)
    → s.large_objects % 256 ≡ 0
    → a ≢ s.large_objects
    → (maybe_repurpose_single_chunk_large_objects_head s).words a ≡ s.words a
unfolding maybe_repurpose_single_chunk_large_objects_head
repurpose-words s a whole ne = elim (Bool-cases (ltb (get_size s s.large_objects) 256)) [
  | inl one ↦ rw one (rw (chunk_start s.large_objects whole, ==-ne a s.large_objects ne))
  | inr more ↦ rw more
]

-- The ASSERT holds, and memory before the tail stays.
free_tail-words :
    (end tail_size : ℕ) (s : Allocator)
    → end % 256 ≡ 0
    → end < 2 ^ 64
    → tail_size % 256 ≡ 0
    → tail_size ≤ end
    → (s' : Allocator) × (free_tail end tail_size s ≡ some s')
      × ((a : ℕ) → a < end - tail_size → s'.words a ≡ s.words a)
unfolding free_tail
free_tail-words end tail_size s whole lt part le = elim (Bool-cases (tail_size == 0)) [
  | inl none ↦ (s, rw none, λ a h. refl)
  | inr left ↦
      rw
        (
          left,
          sub64_small end tail_size le lt,
          chunk_start (end - tail_size) (omega arith),
          top left,
        )
        ((
          maybe_repurpose_single_chunk_large_objects_head
              (freed (end - tail_size) (tail_size - 16)),
          rw (align_same end whole lt, ==-refl end),
          (λ a before.
              repurpose-words (freed (end - tail_size) (tail_size - 16)) a (omega arith)
                (omega arith)
              ∙ rw (
                ==-ne a (end - tail_size) (omega arith),
                ==-ne a (end - tail_size + 8) (omega arith),
              )),
        ))
]
  where
    freed : ℕ → ℕ → Allocator
    freed tail size = push_large tail (
        set_size tail size
          (allocate_chunk (get_page tail) (get_chunk_index tail) free_large_object s))

    top : (tail_size == 0) ≡ false → add64 (end - tail_size + 16) (tail_size - 16) ≡ end
    top left = ground arith

-- What is known of the object that is kept, before the tail is cut off: it lies behind `low`, ends at
-- `end`, has its size, and holds the allocation without the tail.
abbrev pub IsCut : ℕ → ℕ → ℕ → Split × Allocator → Type 0
IsCut low end size (d, s) =
    ((d.object % 256 ≡ 0) × (1 ≤ get_chunk_index d.object))
    × (low ≤ d.object)
    × (d.object + 16 + d.total ≡ end)
    × (d.tail_size % 256 ≡ 0)
    × (size + d.tail_size ≤ d.total)
    × (get_size s d.object ≡ d.total)

-- A result that is an object of at least a size between two addresses.
abbrev pub IsObject : ℕ → ℕ → ℕ → ℕ × Allocator → Type 0
IsObject low end size (obj, s) =
    ((obj % 256 ≡ 0) × (1 ≤ get_chunk_index obj))
    × (low ≤ obj)
    × (size ≤ get_size s obj)
    × (obj + 16 + get_size s obj ≤ end)
    × ((obj + 16 + get_size s obj) % 256 ≡ 0)

cut_tail-IsObject :
    (low end size : ℕ) (d : Split) (s : Allocator)
    → end % 256 ≡ 0
    → end < 2 ^ 64
    → IsCut low end size (d, s)
    → (obj : ℕ) × (s' : Allocator) × (cut_tail end (d, s) ≡ some (obj, s'))
      × IsObject low end size (obj, s')
unfolding cut_tail
cut_tail-IsObject low end size d s whole lt h =
    let shrunk = set_size d.object (sub64 (get_size s d.object) d.tail_size) s in
    let t = skip_header end d.tail_size in
    let start : t ≤ d.tail_size = ground arith in
    let part : t % 256 ≡ 0 = ground arith in
    let f = free_tail-words end t shrunk whole lt part (omega (arith, start)) in
    let kept : get_size f.0 d.object ≡ d.total - d.tail_size =
      f.2 (d.object + 8) (omega (arith, start))
      ∙ rw (
        ==-refl (d.object + 8),
        h.5,
        sub64_small d.total d.tail_size (omega arith) (omega arith),
      ) in
    (
      d.object,
      f.0,
      rw f.1,
      (h.0, h.1, omega (arith, kept), omega (arith, kept), omega (arith, kept)),
    )

check_end_passes :
    (low end size obj : ℕ) (s : Allocator)
    → end < 2 ^ 64
    → IsObject low end size (obj, s)
    → check_end (obj, s) ≡ some (obj, s)
unfolding check_end
check_end_passes low end size obj s lt h = rw (
  add64_small (obj + 16) (get_size s obj) (omega arith),
  align_same (obj + 16 + get_size s obj) h.4 (omega arith),
  ==-refl (obj + 16 + get_size s obj),
)

-- The object that was found.
abbrev pub IsPlaced : ℕ → ℕ → Type 0
IsPlaced best best_size =
    (best % 256 ≡ 0)
    × (1 ≤ get_chunk_index best)
    × ((best_size + 16) % 256 ≡ 0)
    × (best + 16 + best_size < 2 ^ 64)
    × ((get_page best ≡ get_page (best + 15 + best_size)) ⊎ ((best + 16 + best_size) % 65536 ≡ 0))

pub align_bounds :
    (x : ℕ)
    → x + 65536 < 2 ^ 64
    → (x ≤ align x 65536) × (align x 65536 < x + 65536) × (align x 65536 % 65536 ≡ 0)
unfolding align
align_bounds x h = (omega arith, omega arith, omega arith)

-- The branch for an allocation that spans pages and is not smaller than one.
keep_pages-IsCut :
    (size best best_size : ℕ) (s : Allocator)
    → IsPlaced best best_size
    → size ≤ best_size
    → get_size s best ≡ best_size
    → (best + 16 + best_size) % 65536 ≡ 0
    → 65264 ≤ size
    → size + 131072 < 2 ^ 64
    → IsCut best (best + 16 + best_size) size (keep_pages size best best_size, s)
unfolding keep_pages
keep_pages-IsCut size best best_size s p le same pages big room =
    let first = 65536 - (best + 16) % 65536 in
    let up = align (size - first) 65536 in
    let behind : first ≤ 65264 = ground arith in
    let round : (size - first ≤ up) × (up < size - first + 65536) × (up % 65536 ≡ 0) =
      align_bounds (size - first) (omega (arith, behind)) in
    let fits : first + up ≤ best_size = omega (arith, behind, round) in
    rw
      (
        sub64_small size first (omega (arith, behind)) (omega arith),
        add64_small first up (omega (arith, fits)),
        sub64_small best_size (first + up) fits (omega arith),
      )
      (
        (p.0, p.1),
        omega arith,
        refl,
        omega (arith, fits, round),
        omega (arith, fits, round, behind),
        same,
      )

-- The branch for an allocation that would span pages and is smaller than one.
split_head-IsCut :
    (size best best_size : ℕ) (s : Allocator)
    → IsPlaced best best_size
    → (best + 16 + best_size) % 65536 ≡ 0
    → size < 65264
    → get_page best + 65536 < best + 16 + best_size
    → (d : Split) × (s' : Allocator) × (split_head size best best_size s ≡ some (d, s'))
      × IsCut best (best + 16 + best_size) size (d, s')
unfolding split_head
split_head-IsCut size best best_size s p pages small over =
    let first = 65536 - (best + 16) % 65536 in
    let page = get_page best in
    let in_page : best + 16 + first ≡ page + 65536 = omega (arith, p) in
    let far : page + 131072 ≤ best + 16 + best_size = omega (arith, over, pages) in
    let enough : first + 272 + size ≤ best_size = omega (arith, in_page, far) in
    rw
      (
        sub64_small best_size (first + 256 + 16) (omega (arith, enough)) (omega (arith, p)),
        le→leb size (best_size - (first + 256 + 16)) (omega (arith, enough)),
        sub64_small (best_size - (first + 256 + 16)) size (omega (arith, enough))
            (omega (arith, p)),
      )
      (
        _,
        _,
        refl,
        (
          (omega arith, omega arith),
          omega arith,
          omega (arith, in_page, enough),
          omega arith,
          omega (arith, enough),
          rw (==-refl (page + 65536 + 1 * 256 + 8)),
        ),
      )

-- An object behind which the tail begins on another page ends with a page.
crossing :
    (best best_size tail : ℕ)
    → IsPlaced best best_size
    → tail ≤ best_size
    → get_page best ≢ get_page (best + 16 + best_size - (tail + 1))
    → ((best + 16 + best_size) % 65536 ≡ 0) × (get_page best + 65536 < best + 16 + best_size)
crossing best best_size tail p le ne = (ends p.4, omega arith)
  where
    ends :
        (get_page best ≡ get_page (best + 15 + best_size)) ⊎ ((best + 16 + best_size) % 65536 ≡ 0)
        → (best + 16 + best_size) % 65536 ≡ 0
    ends (inl e) = absurd (ne (omega arith))
    ends (inr e) = e

-- A tail of whole chunks, as much as the allocation leaves.
choose_split-IsCut :
    (size best best_size tail : ℕ) (s : Allocator)
    → IsPlaced best best_size
    → size + tail ≤ best_size
    → tail % 256 ≡ 0
    → size + 131072 < 2 ^ 64
    → get_size s best ≡ best_size
    → (d : Split) × (s' : Allocator) × (choose_split size best best_size tail s ≡ some (d, s'))
      × IsCut best (best + 16 + best_size) size (d, s')
unfolding choose_split
choose_split-IsCut size best best_size tail s p le part room same =
    let end = best + 16 + best_size in
    rw
      (
        add64_small (best + 16) best_size (omega (arith, p)),
        sub64_small end (tail + 1) (omega arith) (omega (arith, p)),
      )
      (elim (Bool-cases (get_page best == get_page (end - (tail + 1)))) [
        | inl one ↦
            rw (one, align_same end (omega (arith, p)) (omega (arith, p)), ==-refl end)
              (_, s, refl, ((p.0, p.1), omega arith, refl, part, le, same))
        | inr two ↦
            let c = crossing best best_size tail p (omega arith) (ground (arith, two)) in
            rw (two, align_page end c.0 (omega (arith, p)), ==-refl end)
              (elim (Bool-cases (ltb size 65264)) [
                | inl small ↦
                    rw small
                      (split_head-IsCut size best best_size s p c.0 (ltb→lt size 65264 small) c.1)
                | inr big ↦ rw big (
                  _,
                  s,
                  refl,
                  keep_pages-IsCut size best best_size s p (omega arith) same c.0
                      (ltb-false→le size 65264 big) room,
                )
              ])
      ])

pub finish_large-IsObject :
    (size best best_size : ℕ) (s : Allocator)
    → IsPlaced best best_size
    → size ≤ best_size
    → size + 131072 < 2 ^ 64
    → get_size s best ≡ best_size
    → (obj : ℕ) × (s' : Allocator) × (finish_large size best best_size s ≡ some (obj, s'))
      × IsObject best (best + 16 + best_size) size (obj, s')
unfolding finish_large
finish_large-IsObject size best best_size s p le room same =
    let end = best + 16 + best_size in
    let tail = whole_chunks (best_size - size) in
    rw
      (
        sub64_small best_size size le (omega (arith, p)),
        add64_small (best + 16) best_size (omega (arith, p)),
      )
      (elim (Bool-cases (tail == 0)) [
        | inl none ↦
            let whole : IsObject best end size (best, s) =
              rw same ((p.0, p.1), omega arith, le, omega arith, omega (arith, p)) in
            rw (none)
              (best, s, check_end_passes best end size best s (omega (arith, p)) whole, whole)
        | inr more ↦
            let d =
              choose_split-IsCut size best best_size tail s p (omega arith) (omega arith) room
                same in
            let c =
              cut_tail-IsObject best end size d.0 d.1 (omega (arith, p)) (omega (arith, p)) d.3 in
            rw (more, d.2, c.2)
              (c.0, c.1, check_end_passes best end size c.0 c.1 (omega (arith, p)) c.3, c.3)
      ])
