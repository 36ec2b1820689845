-- ===== src/Walloc/RoundTrip.antt =====
-- malloc and free of libc/src/walloc.c, one after the other, on small objects.
use tiny_libc.Prelude.{
  ℕ, ◌+◌, ◌⊎◌, ◌≤◌, ◌<◌, ◌≡◌, ◌≢◌, refl, ap, ◌∙◌, arith, ◌==◌, ==-ne, ==-refl, ==_iff, inl, inr,
  Bool-cases, lt→ltb, some,
}
use tiny_libc.Prelude.Bytes.{Memory, store}
use tiny_libc.Walloc.Carve.{kind_facts}
use tiny_libc.Walloc.{usable_size, small_object_chunk_kinds, large_object, malloc_kind}
use tiny_libc.Walloc.State.{Allocator, kind_of, push_small}
use tiny_libc.Walloc.Small.{malloc, free, allocate_small, pop_small}

-- A call of `malloc` that its free list can serve.
pub malloc-pop :
    (brk : ℕ → ℕ) (fuel size : ℕ) (s : Allocator)
    → malloc_kind size < small_object_chunk_kinds
    → s.small_object_freelists (malloc_kind size) ≢ 0
    → malloc brk fuel size s ≡ some (pop_small (malloc_kind size) s)
unfolding malloc allocate_small
malloc-pop brk fuel size s small some_free =
    let kind = malloc_kind size in
    rw (
      malloc,
      ==-ne kind large_object (omega arith),
      allocate_small,
      lt→ltb kind small_object_chunk_kinds small,
      ==-ne (s.small_object_freelists kind) 0 some_free,
    )

pub free-push :
    (ptr : ℕ) (s : Allocator)
    → 1 ≤ ptr
    → kind_of s ptr < small_object_chunk_kinds
    → free ptr s ≡ some (push_small (kind_of s ptr) ptr s)
unfolding free
free-push ptr s nz small = rw (
  ==-ne ptr 0 (omega arith),
  ==-ne (kind_of s ptr) large_object (omega arith),
  lt→ltb (kind_of s ptr) small_object_chunk_kinds small,
)

-- The lists, and the memory but for one word, as they were.
abbrev pub IsRestored : ℕ → Allocator → Allocator → Type 0
IsRestored ptr s s' =
    ((k : ℕ) → s'.small_object_freelists k ≡ s.small_object_freelists k)
    × ((a : ℕ) → a ≢ ptr → s'.words a ≡ s.words a)
    × (s'.kinds ≡ s.kinds)
    × (s'.large_objects ≡ s.large_objects)

-- A write of what is there.
store_same : (m : Memory) (a b : ℕ) → store m a (m a) b ≡ m b
store_same m a b = elim (Bool-cases (b == a)) [
  | inl hit ↦ rw hit (ap m (omega (arith, (==_iff b a).0 hit)))
  | inr miss ↦ rw miss
]

pop-push-IsRestored :
    (kind ptr : ℕ) (s : Allocator) → IsRestored ptr s (pop_small kind (push_small kind ptr s)).1
unfolding pop_small
pop-push-IsRestored kind ptr s = (lists, (λ a ne. rw (==-ne a ptr ne)), refl, refl)
  where
    lists :
        (k : ℕ)
        → (pop_small kind (push_small kind ptr s)).1.small_object_freelists k
          ≡ s.small_object_freelists k
    lists k =
        rw (==-refl kind, ==-refl ptr)
          (elim (Bool-cases (k == kind)) [
            | inl hit ↦ rw hit (ap s.small_object_freelists (omega (arith, (==_iff k kind).0 hit)))
            | inr miss ↦ rw miss
          ])

-- An object that is freed is what the next `malloc` of a size of its kind returns, and both calls
-- together leave all the free lists as they were.
pub free-malloc :
    (brk : ℕ → ℕ) (fuel size ptr : ℕ) (s : Allocator)
    → 1 ≤ ptr
    → malloc_kind size < small_object_chunk_kinds
    → kind_of s ptr ≡ malloc_kind size
    → (s' s'' : Allocator) × (free ptr s ≡ some s')
      × (malloc brk fuel size s' ≡ some (ptr, s''))
      × IsRestored ptr s s''
unfolding pop_small
free-malloc brk fuel size ptr s nz small same = (
  s',
  (pop_small kind s').1,
  rw (same) at (free-push ptr s nz (rw same small)),
  malloc-pop brk fuel size s' small (rw (==-refl kind) (λ e. omega (arith, e))) ∙ ap some pair,
  restored,
)
  where
    kind : ℕ
    kind = malloc_kind size

    s' : Allocator
    s' = push_small kind ptr s

    pair : pop_small kind s' ≡ (ptr, (pop_small kind s').1)
    pair = rw (==-refl kind)

    restored : IsRestored ptr s (pop_small kind s').1
    restored = pop-push-IsRestored kind ptr s

pop-push-lists :
    (kind : ℕ) (s : Allocator) (k : ℕ)
    → store
        (store s.small_object_freelists kind (s.words (s.small_object_freelists kind)))
        kind
        (s.small_object_freelists kind)
        k
      ≡ s.small_object_freelists k
pop-push-lists kind s k = elim (Bool-cases (k == kind)) [
  | inl hit ↦ rw hit (ap s.small_object_freelists (omega (arith, (==_iff k kind).0 hit)))
  | inr miss ↦ rw miss
]

-- The lists as they were, the first word of the object again the link to the rest of its list, and the
-- memory outside the object as it was.
abbrev pub IsGivenBack : ℕ → ℕ → Allocator → Allocator → Type 0
IsGivenBack ptr size s s' =
    ((k : ℕ) → s'.small_object_freelists k ≡ s.small_object_freelists k)
    × (s'.words ptr ≡ s.words ptr)
    × ((a : ℕ) → (a < ptr) ⊎ (ptr + size ≤ a) → s'.words a ≡ s.words a)
    × (s'.kinds ≡ s.kinds)
    × (s'.large_objects ≡ s.large_objects)

-- Where the free list of the size's class is not empty and begins with an object of the class, `malloc`
-- returns that object; whatever the program writes in the object then, `free` of it gives all lists
-- back, the object linked to the rest of its list as before, and changes nothing outside the object.
pub malloc-free :
    (brk : ℕ → ℕ) (fuel size : ℕ) (s : Allocator) (written : Memory)
    → (let kind = malloc_kind size in
        let ptr = s.small_object_freelists kind in
        kind < small_object_chunk_kinds
        → ptr ≢ 0
        → kind_of s ptr ≡ kind
        → ((a : ℕ) → (a < ptr) ⊎ (ptr + usable_size kind ≤ a) → written a ≡ s.words a)
        → (s' s'' : Allocator) × (malloc brk fuel size s ≡ some (ptr, s'))
          × (free ptr (record s' { words = written }) ≡ some s'')
          × IsGivenBack ptr (usable_size kind) s s'')
unfolding pop_small
malloc-free brk fuel size s written small nz same outside =
    let kind = malloc_kind size in
    let ptr = s.small_object_freelists kind in
    let popped = (pop_small kind s).1 in
    let used : Allocator = record popped { words = written } in
    let pushed = free-push ptr used (ground (arith, nz)) (rw same small) in
    (
      popped,
      push_small kind ptr used,
      malloc-pop brk fuel size s small nz,
      rw same at pushed,
      (
        pop-push-lists kind s,
        rw (==-refl ptr) (rw (==-refl kind) refl),
        λ a out.
            rw (==-ne a ptr (λ e. omega (arith, e, out, (kind_facts kind small).1)))
              (outside a out),
        refl,
        refl,
      ),
    )
