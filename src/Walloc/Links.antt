-- ===== src/Walloc/Links.antt =====
-- Links and ends of large objects, in libc/src/walloc.c.
use tiny_libc.Prelude.{
  ℕ, ◌+◌, ◌%◌, ◌≡◌, ◌≢◌, refl, ◌∙◌, sym, arith, ◌⊎◌, inl, inr, Bool-cases, ◌==◌, ==-ne, ==-refl,
  ==_iff, some,
}
use tiny_libc.Walloc.{get_page}
use tiny_libc.Walloc.State.{Allocator, add64, get_size, get_link, set_link}
use tiny_libc.Walloc.Merge.{next_free}
use tiny_libc.Walloc.Split.{IsPlaced}

pub get_link-set_link : (p v : ℕ) (s : Allocator) → get_link (set_link p v s) p ≡ v
get_link-set_link p v s = elim (Bool-cases (p == 0)) [
  | inl null ↦ rw null refl
  | inr inner ↦ rw inner (rw (==-refl p) refl)
]

pub get_link-other :
    (p v q : ℕ) (s : Allocator) → q ≢ p → get_link (set_link p v s) q ≡ get_link s q
get_link-other p v q s ne = elim (Bool-cases (p == 0)) [
  | inl null ↦ rw null (rw (==-ne q 0 (λ e. ne (e ∙ sym ((==_iff p 0).0 null)))) refl)
  | inr inner ↦ rw inner (rw (==-ne q p ne) refl)
]

pub set_link-words : (p v a : ℕ) (s : Allocator) → a ≢ p → (set_link p v s).words a ≡ s.words a
set_link-words p v a s ne = elim (Bool-cases (p == 0)) [
  | inl null ↦ rw null refl
  | inr inner ↦ rw inner (rw (==-ne a p ne) refl)
]

pub set_link-kinds : (p v : ℕ) (s : Allocator) → (set_link p v s).kinds ≡ s.kinds
set_link-kinds p v s = elim (Bool-cases (p == 0)) [
  | inl null ↦ rw null refl
  | inr inner ↦ rw inner refl
]

-- What lies behind an object depends on where it ends.
pub next_free-frame :
    (s s' : Allocator) (x y : ℕ)
    → add64 (x + 16) (get_size s x) ≡ add64 (y + 16) (get_size s' y)
    → s'.kinds ≡ s.kinds
    → next_free s' y ≡ next_free s x
unfolding next_free
next_free-frame s s' x y e k = rw (e, k) refl

pub next_free-end :
    (s : Allocator) (x e : ℕ) → next_free s x ≡ some e → e ≡ add64 (x + 16) (get_size s x)
unfolding next_free
next_free-end s x e h = ground (arith, h)

-- Two adjacent objects make up one in its place.
pub joined-IsPlaced :
    (x n y m : ℕ) → IsPlaced x n → IsPlaced y m → x + 16 + n ≡ y → IsPlaced x (n + 16 + m)
joined-IsPlaced x n y m p q e =
    (p.0, p.1, omega (arith, p.2, q.2), omega (arith, e, q.3), one_page p.4 q.4)
  where
    one_page :
        (get_page x ≡ get_page (x + 15 + n)) ⊎ ((x + 16 + n) % 65536 ≡ 0)
        → (get_page y ≡ get_page (y + 15 + m)) ⊎ ((y + 16 + m) % 65536 ≡ 0)
        → (get_page x ≡ get_page (x + 15 + (n + 16 + m))) ⊎ ((x + 16 + (n + 16 + m)) % 65536 ≡ 0)
    one_page (inr h) j = absurd (omega (arith, h, e, q.1))
    one_page (inl h) (inr k) = inr (omega (arith, e, k))
    one_page (inl h) (inl k) = inl (omega (arith, h, k, e, q.1))
