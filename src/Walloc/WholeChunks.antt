-- ===== src/Walloc/WholeChunks.antt =====
-- Whole chunks that `obtain_small_objects` of libc/src/walloc.c turns into the list of another kind, and the
-- lists that the memory holds then.
use tiny_libc.Prelude.{
  ℕ, zero, suc, ◌+◌, ◌-◌, ◌*◌, ◌/◌, ◌%◌, ◌≤◌, ◌<◌, ◌≡◌, ◌≢◌, refl, ap, ◌∙◌, sym, subst, dec_lt,
  arith, ◌⊎◌, false, ◌==◌, ==-ne, ==-refl, ==_iff, lt→ltb, Bool-cases, inl, inr, some, List, [],
  ◌∷◌,
}
use tiny_libc.Walloc.{
  chunk_size, large_object, small_object_chunk_kinds, get_page, get_chunk_index, malloc_kind,
  usable_size,
}
use tiny_libc.Walloc.State.{Allocator, chunk_data, granules_32}
use tiny_libc.Walloc.Chain.{
  IsChain, Each, objects, objects-above, Each-map, Each-all, Each-zip, NoDup,
}
use tiny_libc.Walloc.Small.{
  carve_chunk, malloc, pop_small, allocate_small, obtain_small_objects, set_freelist,
}
use tiny_libc.Walloc.Carve.{kind_facts, carve_chunk-IsChain, carve_chunk-freelists}
use tiny_libc.Prelude.Bytes.{store}
use tiny_libc.Walloc.FreeLists.{
  IsFreeList, HasLists, with_list, HasLists-with_list, IsFreeList-frame,
}

-- The objects of a chunk are distinct, and lie in it.
objects-NoDup : (n a size : ℕ) → 1 ≤ size → NoDup (objects a size n)
objects-NoDup zero a size pos = tt
objects-NoDup (suc n) a size pos =
    (objects-above n (a + size) size a (omega arith), objects-NoDup n (a + size) size pos)

objects-within : (n a size : ℕ) → Each (λ x. (a ≤ x) × (x + size ≤ a + n * size)) (objects a size n)
objects-within zero a size = tt
objects-within (suc n) a size = (
  (omega arith, omega arith),
  Each-map (objects (a + size) size n) (λ x h. (omega (arith, h), omega (arith, h)))
      (objects-within n (a + size) size),
)

objects-cons : (n a size : ℕ) → 1 ≤ n → objects a size n ≡ a ∷ objects (a + size) size (n - 1)
objects-cons zero a size pos = absurd (omega arith)
objects-cons (suc n) a size pos = ap (λ m. a ∷ objects (a + size) size m) (omega arith)

-- Where the kind of an address is kept.
abbrev place : ℕ → ℕ
place x = get_page x + get_chunk_index x

same_place : (chunk x : ℕ) → chunk % 256 ≡ 0 → chunk ≤ x → x < chunk + 256 → place x ≡ place chunk
same_place chunk x whole low high = omega arith

outside : (chunk x : ℕ) → chunk % 256 ≡ 0 → place x ≢ place chunk → (x < chunk) ⊎ (chunk + 256 ≤ x)
outside chunk x whole ne = elim (dec_lt x chunk) [
  | yes below ↦ inl below
  | no above ↦ elim (dec_lt x (chunk + 256)) [
    | yes inside ↦ absurd (ne (same_place chunk x whole (omega arith) inside))
    | no behind ↦ inr (omega arith)
  ]
]

-- What carving a free whole chunk leaves, with the chunk off its list.
module _ (kind chunk : ℕ) (s : Allocator) (small : kind < granules_32) where
  abbrev popped : Allocator
  popped = record s {
    small_object_freelists = store s.small_object_freelists granules_32 (s.words chunk);
  }

  abbrev carved : ℕ × Allocator
  carved = carve_chunk kind chunk popped

  -- The state after the first object is taken.
  abbrev taken : Allocator
  taken = record carved.1 {
    small_object_freelists =
        store (store carved.1.small_object_freelists kind carved.0) kind (carved.1.words carved.0);
  }

  abbrev start_of : ℕ
  start_of = chunk + chunk_size - chunk_size / usable_size kind * usable_size kind

  abbrev rest_of : List ℕ
  rest_of =
      objects (start_of + usable_size kind) (usable_size kind) (chunk_size / usable_size kind - 1)

  abbrev Carved : Type 0
  Carved =
      (carved.0 ≡ start_of)
      × (carved.0 ≢ 0)
      × IsChain carved.1.words (carved.1.words start_of) rest_of
      × ((a : ℕ) → (a < chunk) ⊎ (chunk + chunk_size ≤ a) → carved.1.words a ≡ s.words a)
      × (carved.1.kinds ≡ store s.kinds (place chunk) kind)
      × (carved.1.small_object_freelists ≡ popped.small_object_freelists)

  carved_facts : chunk % 256 ≡ 0 → 1 ≤ get_chunk_index chunk → Carved
  carved_facts whole behind =
      let c = carve_chunk-IsChain kind chunk popped (omega arith) behind in
      let f = kind_facts kind (omega arith) in
      let at : chunk_data (get_page chunk) (get_chunk_index chunk) ≡ chunk = omega arith in
      let chain =
        rw (at, objects-cons (chunk_size / usable_size kind) start_of (usable_size kind) f.6) at
          (c.2) in
      (chain.0, chain.1, chain.2, rw at at (c.3), c.4, carve_chunk-freelists kind chunk popped)

  own_list : Carved → chunk % 256 ≡ 0 → IsFreeList taken kind rest_of
  own_list c whole =
      let f = kind_facts kind (omega arith) in
      let size = usable_size kind in
      let count = chunk_size / size in
      let cons = objects-cons count start_of size f.6 in
      let inside = rw cons at (objects-within count start_of size) in
      (
        rw (==-refl kind, c.0) c.2,
        Each-map rest_of
            (λ x h.
              ap (λ kinds. kinds (place x)) c.4
              ∙ rw (
                same_place chunk x whole (omega (arith, h, f)) (omega (arith, h, f)),
                ==-refl (place chunk),
              ))
            inside.1,
        (rw cons at (objects-NoDup count start_of size f.1)).1,
        Each-all rest_of (λ x e. absurd (omega (arith, e))),
      )

  -- The other lists have no object in the chunk.
  kept_list :
      Carved
      → chunk % 256 ≡ 0
      → (k : ℕ) (xs : List ℕ) → k ≢ kind
      → Each (λ x. place x ≢ place chunk) xs
      → IsFreeList popped k xs
      → IsFreeList taken k xs
  kept_list c whole k xs ne away l =
      IsFreeList-frame k xs popped taken (rw (==-ne k kind ne) (ap (λ lists. lists k) c.5))
        (Each-map xs (λ x h. c.3 x (outside chunk x whole h)) away)
        (Each-map xs
          (λ x h. ap (λ kinds. kinds (place x)) c.4 ∙ rw (==-ne (place x) (place chunk) h)) away)
        l

  obtained :
      (brk : ℕ → ℕ) (fuel : ℕ)
      → s.small_object_freelists granules_32 ≡ chunk
      → chunk ≢ 0
      → obtain_small_objects brk fuel kind s ≡ some carved
  unfolding obtain_small_objects
  obtained brk fuel head nz = rw (head, ==-ne chunk 0 nz)

  first_taken : carved.0 ≢ 0 → set_freelist kind carved ≡ (carved.0, taken)
  unfolding set_freelist pop_small
  first_taken nz = rw (==-ne carved.0 0 nz, ==-refl kind)

same_start : (x chunk : ℕ) → x % 256 ≡ 0 → chunk % 256 ≡ 0 → place x ≡ place chunk → x ≡ chunk
same_start x chunk e e' same = omega arith

-- The lists without the chunk.
unlinked :
    (kind chunk : ℕ) (s : Allocator) (small : kind < granules_32) (lists : ℕ → List ℕ)
    (chunks : List ℕ)
    → HasLists s lists
    → lists granules_32 ≡ chunk ∷ chunks
    → (k : ℕ) → k < small_object_chunk_kinds
    → Each (λ x. place x ≢ place chunk) (with_list granules_32 chunks lists k)
      × IsFreeList (popped kind chunk s small) k (with_list granules_32 chunks lists k)
unlinked kind chunk s small lists chunks has whole k lt =
    let old = rw whole at (has granules_32 (omega arith)) in
    let even = (old.3.0 refl).0 in
    elim (Bool-cases (k == granules_32)) [
      | inl hit ↦
          subst
            (λ j.
              Each (λ x. place x ≢ place chunk) (with_list granules_32 chunks lists j)
              × IsFreeList (popped kind chunk s small) j (with_list granules_32 chunks lists j))
            (sym ((==_iff k granules_32).0 hit))
            (
              Each-zip chunks (λ x ne start same. ne (same_start x chunk (start refl).0 even same))
                  old.2.0 old.3.1,
              (old.0.2, old.1.1, old.2.1, old.3.1),
            )
      | inr miss ↦ rw miss (
        Each-map (lists k) (λ x e same. distinct k miss (sym e ∙ ap s.kinds same ∙ old.1.0))
            (has k lt).1,
        has k lt,
      )
    ]
  where
    distinct : (k : ℕ) → (k == granules_32) ≡ false → k ≢ granules_32
    distinct k miss = ground (arith, miss)

-- `malloc` of a size whose class is used up, with a whole chunk free: the objects of the chunk become the
-- list, of which the first is returned, and the chunk leaves the list of whole chunks.
pub malloc-carved :
    (brk : ℕ → ℕ) (fuel size chunk : ℕ) (s : Allocator) (lists : ℕ → List ℕ) (chunks : List ℕ)
    → (let kind = malloc_kind size in
        let object_size = usable_size kind in
        HasLists s lists
        → kind < granules_32
        → lists kind ≡ []
        → lists granules_32 ≡ chunk ∷ chunks
        → (x : ℕ) × (xs : List ℕ) × (s' : Allocator) × (malloc brk fuel size s ≡ some (x, s'))
          × Each (λ y. (chunk ≤ y) × (y + object_size ≤ chunk + chunk_size)) (x ∷ xs)
          × HasLists s' (with_list kind xs (with_list granules_32 chunks lists)))
unfolding malloc allocate_small
malloc-carved brk fuel size chunk s lists chunks has small empty whole =
    let kind = malloc_kind size in
    let own = rw empty at (has kind (omega arith)) in
    let old = rw whole at (has granules_32 (omega arith)) in
    let even = (old.3.0 refl).0 in
    let c = carved_facts kind chunk s small even (old.3.0 refl).1 in
    let t = taken kind chunk s small in
    let others = unlinked kind chunk s small lists chunks has whole in
    let f = kind_facts kind (omega arith) in
    let start = start_of kind chunk s small in
    let count = chunk_size / usable_size kind in
    let cons = objects-cons count start (usable_size kind) f.6 in
    (
      start,
      rest_of kind chunk s small,
      t,
      rw (
        ==-ne kind large_object (omega arith),
        lt→ltb kind small_object_chunk_kinds (omega arith),
        own.0,
        obtained kind chunk s small brk fuel old.0.0 (λ z. old.0.1 (old.0.0 ∙ z)),
        first_taken kind chunk s small c.1,
        c.0,
      ),
      Each-map (start ∷ rest_of kind chunk s small)
          (λ y h. (omega (arith, h, f), omega (arith, h, f)))
          (rw cons at (objects-within count start (usable_size kind))),
      HasLists-with_list kind (rest_of kind chunk s small) (with_list granules_32 chunks lists) t
          (own_list kind chunk s small c even)
          (λ k lt ne.
            kept_list kind chunk s small c even k (with_list granules_32 chunks lists k) ne
              (others k lt).0 (others k lt).1),
    )
