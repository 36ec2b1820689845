-- ===== src/Strings/Copy.antt =====
-- `memcpy`, `memmove` and `memset` of libc/src/string.c.
use native.Mathlib.Nat.{add-zero}
use tiny_libc.Prelude.{
  ℕ, zero, suc, ◌+◌, ◌%◌, ◌≤◌, ◌<◌, ◌≡◌, ◌≢◌, ◌⊎◌, inl, inr, refl, sym, ap, ap₂, ◌∙◌, arith, false,
  Bool-cases, ◌&&◌, ltb, dec_lt, ==-ne, ◌∷◌, replicate,
}
use tiny_libc.Prelude.Bytes.{Memory, store, slice, slice-shift}
use tiny_libc.Strings.{copy_up, copy_down, fill, memcpy, memmove, memset}

-- The range [d, d + len) of m' holds what [s, s + len) of m held, and all else is as in m.
pub record Copied (m m' : Memory) (d s len : ℕ) : Type 0 where
  pub copied : slice m' d len ≡ slice m s len
  pub outside : (b : ℕ) → (b < d) ⊎ (d + len ≤ b) → m' b ≡ m b

pub store_other : (m : Memory) (a v b : ℕ) → b ≢ a → store m a v b ≡ m b
store_other m a v b h = rw (==-ne b a h)

pub store_self : (m : Memory) (a v b : ℕ) → b ≡ a → store m a v b ≡ v
store_self m a v b h = ground arith

copy_up_outside :
    (len : ℕ) (m : Memory) (d s b : ℕ) → (b < d) ⊎ (d + len ≤ b) → copy_up len m d s b ≡ m b
unfolding copy_up
copy_up_outside zero m d s b h = refl
copy_up_outside (suc len) m d s b h =
    copy_up_outside len (store m d (m s)) (d + 1) (s + 1) b (omega arith)
    ∙ store_other m d (m s) b (omega arith)

copy_up_inside :
    (len : ℕ) (m : Memory) (d s i : ℕ)
    → (d ≤ s) ⊎ (s + len ≤ d)
    → i < len
    → copy_up len m d s (d + i) ≡ m (s + i)
unfolding copy_up
copy_up_inside zero m d s i h lt = absurd (omega arith)
copy_up_inside (suc len) m d s zero h lt =
    copy_up_outside len (store m d (m s)) (d + 1) (s + 1) (d + 0) (inl (omega arith))
    ∙ store_self m d (m s) (d + 0) (omega arith)
    ∙ ap m (sym (add-zero s))
copy_up_inside (suc len) m d s (suc i) h lt =
    rw (next d i, next s i)
      (copy_up_inside len (store m d (m s)) (d + 1) (s + 1) i (omega arith) (omega arith)
        ∙ store_other m d (m s) (s + 1 + i) (omega arith))
  where
    next : (a i : ℕ) → a + suc i ≡ a + 1 + i
    next a i = omega arith

copy_down_outside :
    (len : ℕ) (m : Memory) (d s b : ℕ) → (b < d) ⊎ (d + len ≤ b) → copy_down len m d s b ≡ m b
unfolding copy_down
copy_down_outside zero m d s b h = refl
copy_down_outside (suc len) m d s b h =
    copy_down_outside len (store m (d + len) (m (s + len))) d s b (omega arith)
    ∙ store_other m (d + len) (m (s + len)) b (omega arith)

copy_down_inside :
    (len : ℕ) (m : Memory) (d s i : ℕ) → s ≤ d → i < len → copy_down len m d s (d + i) ≡ m (s + i)
unfolding copy_down
copy_down_inside zero m d s i h lt = absurd (omega arith)
copy_down_inside (suc len) m d s i h lt = elim (dec_lt i len) [
  | yes below ↦
      copy_down_inside len (store m (d + len) (m (s + len))) d s i h below
      ∙ store_other m (d + len) (m (s + len)) (s + i) (omega arith)
  | no last ↦
      let top : i ≡ len = omega arith in
      copy_down_outside len (store m (d + len) (m (s + len))) d s (d + i) (inr (omega arith))
      ∙ store_self m (d + len) (m (s + len)) (d + i) (omega arith)
      ∙ ap (λ k. m (s + k)) (sym top)
]

Copied-copy_up :
    (m : Memory) (d s len : ℕ) → (d ≤ s) ⊎ (s + len ≤ d) → Copied m (copy_up len m d s) d s len
Copied-copy_up m d s len h = record {
  copied = slice-shift (copy_up len m d s) m d s len (λ i lt. copy_up_inside len m d s i h lt);
  outside = copy_up_outside len m d s;
}

Copied-copy_down : (m : Memory) (d s len : ℕ) → s ≤ d → Copied m (copy_down len m d s) d s len
Copied-copy_down m d s len h = record {
  copied = slice-shift (copy_down len m d s) m d s len (λ i lt. copy_down_inside len m d s i h lt);
  outside = copy_down_outside len m d s;
}

-- `memmove` copies the source range as it was before the call, whether or not the ranges overlap,
-- and changes nothing outside the destination range.
pub memmove-Copied :
    (m : Memory) (dest src len : ℕ) → Copied m (memmove m dest src len) dest src len
unfolding memmove
memmove-Copied m dest src len = elim (Bool-cases (ltb src dest && ltb dest (src + len))) [
  | inl overlap ↦ rw overlap (Copied-copy_down m dest src len (ground arith))
  | inr apart ↦ rw apart (Copied-copy_up m dest src len (forward apart))
]
  where
    forward : (ltb src dest && ltb dest (src + len)) ≡ false → (dest ≤ src) ⊎ (src + len ≤ dest)
    forward apart = ground arith

-- `memcpy` copies the source range to a destination range that does not overlap it, and changes
-- nothing outside the destination range.
pub memcpy-Copied :
    (m : Memory) (dest src len : ℕ)
    → (dest + len ≤ src) ⊎ (src + len ≤ dest)
    → Copied m (memcpy m dest src len) dest src len
unfolding memcpy
memcpy-Copied m dest src len apart = Copied-copy_up m dest src len (omega arith)

fill_outside : (len : ℕ) (m : Memory) (d v b : ℕ) → (b < d) ⊎ (d + len ≤ b) → fill len m d v b ≡ m b
unfolding fill
fill_outside zero m d v b h = refl
fill_outside (suc len) m d v b h =
    fill_outside len (store m d v) (d + 1) v b (omega arith) ∙ store_other m d v b (omega arith)

fill_inside : (len : ℕ) (m : Memory) (d v : ℕ) → slice (fill len m d v) d len ≡ replicate len v
unfolding fill
fill_inside zero m d v = refl
fill_inside (suc len) m d v =
    ap₂ ◌∷◌
      (fill_outside len (store m d v) (d + 1) v d (inl (omega arith)) ∙ store_self m d v d refl)
      (fill_inside len (store m d v) (d + 1) v)

-- `memset` stores the low byte of its argument in the whole range and nowhere else.
pub memset_lem :
    (m : Memory) (dest c len : ℕ)
    → (slice (memset m dest c len) dest len ≡ replicate len (c % 256))
      × ((b : ℕ) → (b < dest) ⊎ (dest + len ≤ b) → memset m dest c len b ≡ m b)
unfolding memset
memset_lem m dest c len = (fill_inside len m dest (c % 256), fill_outside len m dest (c % 256))
