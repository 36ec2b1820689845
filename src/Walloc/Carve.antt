-- ===== src/Walloc/Carve.antt =====
-- The chunk that `obtain_small_objects` of libc/src/walloc.c turns into small objects.
use native.Mathlib.Nat.{lt_of_mul-lt-mul_right}
use tiny_libc.Prelude.{
  ℕ, zero, suc, ◌+◌, ◌-◌, ◌*◌, ◌/◌, ◌≤◌, ◌<◌, ◌≡◌, refl, arith, ◌==◌, ==-ne, true, ◌⊎◌, inl, inr,
  leb, Bool-cases, leb→le, leb-false→lt, subst, ◌∙◌,
}
use tiny_libc.Prelude.Bytes.{store}
use tiny_libc.Walloc.{
  chunk_size, granule_size, chunk_kind_to_granules, usable_size, small_object_chunk_kinds, get_page,
  get_chunk_index,
}
use tiny_libc.Walloc.State.{Allocator, chunk_data, set_next, allocate_chunk}
use tiny_libc.Walloc.Chain.{IsChain, objects, objects-above, IsChain-store}
use tiny_libc.Walloc.Small.{carve, carve_chunk}

less_of_mul : (a b c : ℕ) → a * c < b * c → a < b
less_of_mul a b c h = lt_of_mul-lt-mul_right c h

-- `k` objects are written, and `count` fit in the chunk.
carve-IsChain :
    (n k count end size i next : ℕ) (s : Allocator)
    → 1 ≤ size
    → 256 < end
    → count * size ≤ 256
    → 256 < count * size + size
    → k ≤ count
    → count < n + k
    → i ≡ k * size + size
    → IsChain s.words next (objects (end - k * size) size k)
    → (let r = carve n end size i next s in
        IsChain r.1.words r.0 (objects (end - count * size) size count))
unfolding carve
carve-IsChain zero k count end size i next s pos room low high le fuel e c = absurd (omega arith)
carve-IsChain (suc n) k count end size i next s pos room low high le fuel e c =
    elim (Bool-cases (leb i chunk_size)) [
      | inl more ↦ rw more (
          let below : k < count =
            less_of_mul k count size (omega (arith, leb→le i chunk_size more)) in
          let head : end - i ≡ end - suc k * size = omega arith in
          let tail : end - suc k * size + size ≡ end - k * size =
            omega (arith, leb→le i chunk_size more) in
          let hit : ((end - suc k * size) == (end - i)) ≡ true = ground (arith, head) in
          carve-IsChain n (suc k) count end size (i + size) (end - i) (set_next (end - i) next s)
            pos room low high (omega arith) (omega arith) (omega arith)
            (
              head,
              omega (arith, leb→le i chunk_size more),
              rw (hit, tail)
                  (IsChain-store (objects (end - k * size) size k) s.words next (end - i) next
                    (objects-above k (end - k * size) size (end - i)
                      (omega (arith, leb→le i chunk_size more)))
                    c),
            ))
      | inr done ↦ rw done (
          let all : k ≡ count =
            at_end
              (less_of_mul count (suc k) size (omega (arith, leb-false→lt i chunk_size done))) in
          subst (λ j. IsChain s.words next (objects (end - j * size) size j)) all c)
    ]
  where
    at_end : count < suc k → k ≡ count
    at_end h = omega arith

-- Memory outside the chunk, and the page headers, stay as they are.
carve-frame :
    (n end size i next : ℕ) (s : Allocator) (a : ℕ)
    → (a < end - 256) ⊎ (end ≤ a)
    → 1 ≤ i
    → 256 < end
    → (carve n end size i next s).1.words a ≡ s.words a
unfolding carve
carve-frame zero end size i next s a out pos room = refl
carve-frame (suc n) end size i next s a out pos room = elim (Bool-cases (leb i chunk_size)) [
  | inl more ↦ rw more (
      carve-frame n end size (i + size) (end - i) (set_next (end - i) next s) a out (omega arith)
        room
      ∙ rw (==-ne a (end - i) (omega (arith, leb→le i chunk_size more))))
  | inr done ↦ rw done
]

pub carve-kinds :
    (n end size i next : ℕ) (s : Allocator) → (carve n end size i next s).1.kinds ≡ s.kinds
unfolding carve
carve-kinds zero end size i next s = refl
carve-kinds (suc n) end size i next s = elim (Bool-cases (leb i chunk_size)) [
  | inl more ↦ rw more (carve-kinds n end size (i + size) (end - i) (set_next (end - i) next s))
  | inr done ↦ rw done
]

carve-freelists :
    (n end size i next : ℕ) (s : Allocator)
    → (carve n end size i next s).1.small_object_freelists ≡ s.small_object_freelists
unfolding carve
carve-freelists zero end size i next s = refl
carve-freelists (suc n) end size i next s = elim (Bool-cases (leb i chunk_size)) [
  | inl more ↦ rw more (carve-freelists n end size (i + size) (end - i) (set_next (end - i) next s))
  | inr done ↦ rw done
]

pub carve_chunk-freelists :
    (kind chunk : ℕ) (s : Allocator)
    → (carve_chunk kind chunk s).1.small_object_freelists ≡ s.small_object_freelists
unfolding carve_chunk
carve_chunk-freelists kind chunk s = carve-freelists 33 _ _ _ 0 _

-- The number of bytes of an object of a kind, and how many fit in a chunk.
pub kind_facts :
    (kind : ℕ)
    → kind < small_object_chunk_kinds
    → (chunk_kind_to_granules kind * granule_size ≡ usable_size kind)
      × (1 ≤ usable_size kind)
      × (chunk_size / usable_size kind ≤ 32)
      × (chunk_size / usable_size kind * usable_size kind ≤ 256)
      × (256 < chunk_size / usable_size kind * usable_size kind + usable_size kind)
      × (usable_size kind ≤ chunk_size / usable_size kind * usable_size kind)
      × (1 ≤ chunk_size / usable_size kind)
unfolding chunk_kind_to_granules usable_size
kind_facts kind h = ground arith

-- A chunk behind a page header becomes as many free objects of the kind's size as fit in it, one behind
-- the other up to the end of the chunk, in a list that ends with the null pointer; all other memory
-- stays, and so do the kinds of the other chunks.
pub carve_chunk-IsChain :
    (kind chunk : ℕ) (s : Allocator)
    → kind < small_object_chunk_kinds
    → 1 ≤ get_chunk_index chunk
    → (let ptr = chunk_data (get_page chunk) (get_chunk_index chunk) in
        let size = usable_size kind in
        let count = chunk_size / size in
        let r = carve_chunk kind chunk s in
        (count * size ≤ chunk_size)
        × (chunk_size < count * size + size)
        × IsChain r.1.words r.0 (objects (ptr + chunk_size - count * size) size count)
        × ((a : ℕ) → (a < ptr) ⊎ (ptr + chunk_size ≤ a) → r.1.words a ≡ s.words a)
        × (r.1.kinds ≡ store s.kinds (get_page chunk + get_chunk_index chunk) kind))
unfolding carve_chunk
carve_chunk-IsChain kind chunk s small behind =
    let facts = kind_facts kind small in
    let ptr = chunk_data (get_page chunk) (get_chunk_index chunk) in
    let size = usable_size kind in
    let marked = allocate_chunk (get_page chunk) (get_chunk_index chunk) kind s in
    rw (facts.0) (
      facts.3,
      facts.4,
      carve-IsChain 33 0 (chunk_size / size) (ptr + chunk_size) size size 0 marked facts.1
          (omega arith) facts.3 facts.4 (omega arith) (omega (arith, facts.2)) (omega arith) refl,
      (λ a out.
          carve-frame 33 (ptr + chunk_size) size size 0 marked a (omega (arith, out)) facts.1
            (omega arith)),
      carve-kinds 33 (ptr + chunk_size) size size 0 marked,
    )
