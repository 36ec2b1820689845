-- ===== src/Walloc/Chain.antt =====
-- The lists that libc/src/walloc.c threads through free memory, as lists of addresses.
use tiny_libc.Prelude.{
  ℕ, zero, suc, ◌+◌, ◌<◌, ◌≡◌, ◌≢◌, arith, ==-ne, ◌⊎◌, inl, inr, subst, sym, List, [], ◌∷◌,
}
use tiny_libc.Prelude.Bytes.{Memory, store}

-- From p the first words of the objects lead through the list to the null pointer.
abbrev pub IsChain : Memory → ℕ → List ℕ → Type 0
IsChain m p [] = p ≡ 0
IsChain m p (x ∷ xs) = (p ≡ x) × (p ≢ 0) × IsChain m (m x) xs

abbrev pub Each : (ℕ → Type 0) → List ℕ → Type 0
Each P [] = Unit
Each P (x ∷ xs) = P x × Each P xs

abbrev pub IsIn : ℕ → List ℕ → Type 0
IsIn a [] = ⊥
IsIn a (x ∷ xs) = (a ≡ x) ⊎ IsIn a xs

-- A write at an address that is not in the list keeps the chain.
pub IsChain-store :
    (xs : List ℕ) (m : Memory) (p a v : ℕ)
    → Each (λ x. x ≢ a) xs
    → IsChain m p xs
    → IsChain (store m a v) p xs
IsChain-store [] m p a v out c = c
IsChain-store (x ∷ xs) m p a v out c =
    (c.0, c.1, rw (==-ne x a out.0) (IsChain-store xs m (m x) a v out.1 c.2))

-- The n objects of a size that lie one behind the other from an address on.
abbrev pub objects : ℕ → ℕ → ℕ → List ℕ
objects a size zero = []
objects a size (suc n) = a ∷ objects (a + size) size n

pub objects-above : (n a size b : ℕ) → b < a → Each (λ x. x ≢ b) (objects a size n)
objects-above zero a size b h = tt
objects-above (suc n) a size b h = (omega arith, objects-above n (a + size) size b (omega arith))

pub each_at : (P : ℕ → Type 0) (xs : List ℕ) (a : ℕ) → Each P xs → IsIn a xs → P a
each_at P [] a h i = elim i [ ]
each_at P (x ∷ xs) a h (inl e) = subst P (sym e) h.0
each_at P (x ∷ xs) a h (inr i) = each_at P xs a h.1 i

pub Each-map : {P Q : ℕ → Type 0} (xs : List ℕ) → ((x : ℕ) → P x → Q x) → Each P xs → Each Q xs
Each-map [] f h = tt
Each-map (x ∷ xs) f h = (f x h.0, Each-map xs f h.1)

-- No object is in the list twice.
abbrev pub NoDup : List ℕ → Type 0
NoDup [] = Unit
NoDup (x ∷ xs) = Each (λ y. y ≢ x) xs × NoDup xs

-- Memory that is the same at the objects of a chain.
pub IsChain-frame :
    (xs : List ℕ) (m m' : Memory) (p : ℕ)
    → Each (λ x. m' x ≡ m x) xs
    → IsChain m p xs
    → IsChain m' p xs
IsChain-frame [] m m' p same c = c
IsChain-frame (x ∷ xs) m m' p same c =
    (c.0, c.1, rw same.0 (IsChain-frame xs m m' (m x) same.1 c.2))

pub Each-all : {P : ℕ → Type 0} (xs : List ℕ) → ((x : ℕ) → P x) → Each P xs
Each-all [] f = tt
Each-all (x ∷ xs) f = (f x, Each-all xs f)

pub Each-zip :
    {P Q R : ℕ → Type 0} (xs : List ℕ)
    → ((x : ℕ) → P x → Q x → R x)
    → Each P xs
    → Each Q xs
    → Each R xs
Each-zip [] f h g = tt
Each-zip (x ∷ xs) f h g = (f x h.0 g.0, Each-zip xs f h.1 g.1)
