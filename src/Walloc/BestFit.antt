-- ===== src/Walloc/BestFit.antt =====
-- The search of `allocate_large_object` in libc/src/walloc.c through the free large objects.
use tiny_libc.Prelude.{
  ℕ, zero, suc, ◌+◌, ◌-◌, ◌%◌, ◌^◌, ◌≤◌, ◌<◌, ◌≡◌, ◌≢◌, refl, sym, ap, subst, dec_lt, arith, true,
  false, ==-ne, ◌⊎◌, inl, inr, Bool-cases, some, List, [], ◌∷◌, length,
}
use tiny_libc.Walloc.{align}
use tiny_libc.Walloc.State.{Allocator, get_size, get_link}
use tiny_libc.Walloc.Chain.{IsChain, Each, IsIn}
use tiny_libc.Walloc.Large.{Best, no_best, is_better, is_exact, find_best}

-- A large object begins and ends with a chunk, inside the address space.
abbrev pub HasSize : Allocator → ℕ → Type 0
HasSize s x = (x % 256 ≡ 0) × ((get_size s x + 16) % 256 ≡ 0) × (get_size s x + 16 < 2 ^ 64)

-- An object of the list that holds the size, with the link that leads to it.
abbrev pub IsFound : ℕ → Allocator → List ℕ → Best → Type 0
IsFound size s xs b =
    IsIn b.best xs
    × (b.best ≢ 0)
    × (size ≤ b.best_size)
    × (b.best_size ≡ get_size s b.best)
    × (get_link s b.best_prev ≡ b.best)
    × (b.best_prev % 256 ≡ 0)

-- No object of the list that holds the size is smaller.
abbrev pub IsLeast : ℕ → Allocator → ℕ → List ℕ → Type 0
IsLeast size s least xs = Each (λ x. size ≤ get_size s x → least ≤ get_size s x) xs

-- What the search makes of the variables b at the rest of the list.
abbrev Improves : ℕ → Allocator → List ℕ → Best → Best → Type 0
Improves size s xs b b' =
    ((b' ≡ b) ⊎ IsFound size s xs b')
    × (b'.best_size ≤ b.best_size)
    × IsLeast size s b'.best_size xs

-- An object of exactly the chunks that the size needs is the least that holds it.
exact_at :
    (size a b : ℕ)
    → size + 512 < 2 ^ 64
    → a + 16 < 2 ^ 64
    → is_exact size a ≡ true
    → (b + 16) % 256 ≡ 0
    → size ≤ b
    → a ≤ b
unfolding align
exact_at size a b room fit exact whole le = ground arith

exact-IsLeast :
    (xs : List ℕ) (size a : ℕ) (s : Allocator)
    → size + 512 < 2 ^ 64
    → a + 16 < 2 ^ 64
    → is_exact size a ≡ true
    → Each (HasSize s) xs
    → IsLeast size s a xs
exact-IsLeast [] size a s room fit exact sizes = tt
exact-IsLeast (x ∷ xs) size a s room fit exact sizes = (
  exact_at size a (get_size s x) room fit exact sizes.0.1,
  exact-IsLeast xs size a s room fit exact sizes.1,
)

find_best-Improves :
    (n size : ℕ) (s : Allocator) (xs : List ℕ) (prev walk : ℕ) (b : Best)
    → length xs < n
    → size + 512 < 2 ^ 64
    → IsChain s.words walk xs
    → get_link s prev ≡ walk
    → prev % 256 ≡ 0
    → Each (HasSize s) xs
    → (b' : Best) × (find_best n size s prev walk b ≡ some b') × Improves size s xs b b'
unfolding find_best
find_best-Improves zero size s xs prev walk b fuel room c link even sizes = absurd (omega arith)
find_best-Improves (suc n) size s [] prev walk b fuel room c link even sizes =
    (b, rw (c), (inl refl, omega arith, tt))
find_best-Improves (suc n) size s (x ∷ xs) prev walk b fuel room c link even sizes =
    let found : Best = record { best = walk; best_prev = prev; best_size = get_size s walk } in
    let rest : (b1 : Best)
        → (b' : Best) × (find_best n size s walk (s.words walk) b1 ≡ some b')
          × Improves size s xs b1 b' =
      λ b1.
        find_best-Improves n size s xs walk (s.words walk) b1 (omega arith) room
          (rw (sym c.0) at (c.2)) (rw (==-ne walk 0 c.1)) (rw c.0 sizes.0.0) sizes.1 in
    rw (==-ne walk 0 c.1) (elim (Bool-cases (is_better size (get_size s walk) b)) [
      | inl better ↦ rw better (elim (Bool-cases (is_exact size (get_size s walk))) [
        | inl exact ↦ rw exact (
          found,
          refl,
          (
            inr (inl c.0, c.1, holds better, refl, link, even),
            smaller better,
            exact-IsLeast (x ∷ xs) size (get_size s walk) s room fit exact sizes,
          ),
        )
        | inr more ↦ rw more (
            let r = rest found in
            (
              r.0,
              r.1,
              (
                inr (keep r.0 (holds better) r.2.0),
                omega (arith, smaller better, r.2.1),
                ((λ le. subst (λ w. r.0.best_size ≤ get_size s w) c.0 r.2.1), r.2.2),
              ),
            ))
      ])
      | inr worse ↦ rw worse (
          let r = rest b in
          (
            r.0,
            r.1,
            (older r.0 r.2.0, r.2.1, ((λ le. omega (arith, r.2.1, larger worse le)), r.2.2)),
          ))
    ])
  where
    found : Best
    found = record { best = walk; best_prev = prev; best_size = get_size s walk }

    fit : get_size s walk + 16 < 2 ^ 64
    fit = rw c.0 sizes.0.2

    holds : is_better size (get_size s walk) b ≡ true → size ≤ get_size s walk
    holds h = ground arith

    smaller : is_better size (get_size s walk) b ≡ true → get_size s walk ≤ b.best_size
    smaller h = ground arith

    larger :
        is_better size (get_size s walk) b ≡ false
        → size ≤ get_size s x
        → b.best_size ≤ get_size s x
    larger h le = ground arith

    keep :
        (b' : Best)
        → size ≤ get_size s walk
        → (b' ≡ found) ⊎ IsFound size s xs b'
        → IsFound size s (x ∷ xs) b'
    keep b' le (inl e) = rw e (inl c.0, c.1, le, refl, link, even)
    keep b' le (inr h) = (inr h.0, h.1, h.2, h.3, h.4, h.5)

    older : (b' : Best) → (b' ≡ b) ⊎ IsFound size s xs b' → (b' ≡ b) ⊎ IsFound size s (x ∷ xs) b'
    older b' (inl e) = inl e
    older b' (inr h) = inr (inr h.0, h.1, h.2, h.3, h.4, h.5)

none_fits :
    (xs : List ℕ) (size : ℕ) (s : Allocator)
    → Each (HasSize s) xs
    → IsLeast size s (2 ^ 64 - 1) xs
    → Each (λ x. get_size s x < size) xs
none_fits [] size s sizes least = tt
none_fits (x ∷ xs) size s sizes least =
    (not_fit (dec_lt (get_size s x) size), none_fits xs size s sizes.1 least.1)
  where
    not_fit : Dec (get_size s x < size) → get_size s x < size
    not_fit (yes h) = h
    not_fit (no h) = absurd (omega (arith, least.0 (omega (arith, h)), sizes.0.2))

-- For a free list that ends, fuel greater than its length, objects that end with a chunk, and a size
-- that is not within 512 bytes of the end of the address space, the search ends. It finds nothing only
-- when every object is too small; else it finds an object of the list that holds the size, with the
-- link that leads to it, and no object that holds the size is smaller.
pub find_best-IsLeast :
    (n size : ℕ) (s : Allocator) (xs : List ℕ)
    → length xs < n
    → size + 512 < 2 ^ 64
    → IsChain s.words s.large_objects xs
    → Each (HasSize s) xs
    → (b : Best) × (find_best n size s 0 s.large_objects no_best ≡ some b)
      × (((b.best ≡ 0) × Each (λ x. get_size s x < size) xs)
          ⊎ (IsFound size s xs b × IsLeast size s b.best_size xs))
find_best-IsLeast n size s xs fuel room c sizes =
    let r =
      find_best-Improves n size s xs 0 s.large_objects no_best fuel room c refl (omega arith)
        sizes in
    (r.0, r.1, both r.0 r.2)
  where
    both :
        (b : Best)
        → Improves size s xs no_best b
        → ((b.best ≡ 0) × Each (λ x. get_size s x < size) xs)
          ⊎ (IsFound size s xs b × IsLeast size s b.best_size xs)
    both b (inl e, le, least) = inl (
      ap (λ b'. b'.best) e,
      none_fits xs size s sizes (subst (λ b'. IsLeast size s b'.best_size xs) e least),
    )
    both b (inr h, le, least) = inr (h, least)
