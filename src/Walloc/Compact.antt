-- ===== src/Walloc/Compact.antt =====
-- `maybe_merge_free_large_object` of libc/src/walloc.c as a whole: the list of large objects that it leaves.

use tiny_libc.Prelude.{
  ℕ, zero, suc, ◌+◌, ◌%◌, ◌^◌, ◌≤◌, ◌<◌, ◌≡◌, ◌≢◌, refl, ap, ◌∙◌, sym, subst, arith, ◌⊎◌, inl, inr,
  true, ==-ne, ==-refl, Option, none, some, List, [], ◌∷◌, ◌++◌, length, length-append,
}
use tiny_libc.Walloc.State.{Allocator, get_size, get_link}
use tiny_libc.Walloc.Chain.{IsChain, IsIn, each_at, NoDup}
use tiny_libc.Walloc.Merge.{absorb, next_free, end_aligned, merge_from}
use tiny_libc.Walloc.Split.{add64_small, align_same}
use tiny_libc.Walloc.Unlink.{
  without, before, IsIn-without, without-IsIn, without-append, length-without_le, length-without_lt,
  find_link-before,
}
use tiny_libc.Walloc.Absorb.{end_of, IsLargeList, free_bytes}
use tiny_libc.Walloc.Links.{next_free-end}
use tiny_libc.Walloc.Round.{after, after-IsLargeList, after-free_bytes, after-link, later}

pub IsIn-left : (a : ℕ) (xs ys : List ℕ) → IsIn a xs → IsIn a (xs ++ ys)
IsIn-left a [] ys i = absurd i
IsIn-left a (x ∷ xs) ys (inl e) = inl e
IsIn-left a (x ∷ xs) ys (inr i) = inr (IsIn-left a xs ys i)

pub IsIn-right : (a : ℕ) (xs ys : List ℕ) → IsIn a ys → IsIn a (xs ++ ys)
IsIn-right a [] ys i = i
IsIn-right a (x ∷ xs) ys i = inr (IsIn-right a xs ys i)

-- An object of the first part is none of the second.
parts_apart : (a b : ℕ) (xs ys : List ℕ) → NoDup (xs ++ ys) → IsIn a xs → IsIn b ys → a ≢ b
parts_apart a b [] ys d i j = absurd i
parts_apart a b (x ∷ xs) ys d (inl e) j =
    λ same. each_at (λ y. y ≢ x) (xs ++ ys) b d.0 (IsIn-right b xs ys j) (sym same ∙ e)
parts_apart a b (x ∷ xs) ys d (inr i) j = parts_apart a b xs ys d.1 i j

-- The first object of the second part leads to the rest.
pub IsChain-from :
    (xs ys : List ℕ) (m : ℕ → ℕ) (p x : ℕ) → IsChain m p (xs ++ x ∷ ys) → IsChain m (m x) ys
IsChain-from [] ys m p x c = c.2
IsChain-from (y ∷ xs) ys m p x c = IsChain-from xs ys m (m y) x c.2

-- The state of a walk over the list, past `ds`, where prev leads to the rest.
abbrev pub IsWalk : ℕ → Allocator → List ℕ → Type 0
IsWalk prev s xs = IsLargeList s xs × ((prev ≡ 0) ⊎ IsIn prev xs)

-- What merging from `obj` on leaves of the objects in front and behind.
abbrev pub IsMerged : Allocator → List ℕ → ℕ → List ℕ → ℕ → Allocator → List ℕ → List ℕ → Type 0
IsMerged s ds obj zs prev' s' ds' zs' =
    IsWalk prev' s' (ds' ++ obj ∷ zs')
    × (get_link s' prev' ≡ obj)
    × (free_bytes s' (ds' ++ obj ∷ zs') ≡ free_bytes s (ds ++ obj ∷ zs))
    × (next_free s' obj ≡ none)
    × (length ds' ≤ length ds)
    × (length zs' ≤ length zs)
    × ((y : ℕ) → IsIn y ds' → IsIn y ds × (next_free s' y ≡ next_free s y))

aligned :
    (s : Allocator) (obj : ℕ)
    → end_of s obj % 256 ≡ 0
    → end_of s obj < 2 ^ 64
    → end_aligned s obj ≡ true
aligned s obj whole lt =
    rw (add64_small (obj + 16) (get_size s obj) lt, align_same (end_of s obj) whole lt)
      (==-refl (end_of s obj))

option_cases : (o : Option ℕ) → (o ≡ none) ⊎ ((x : ℕ) × (o ≡ some x))
option_cases none = inl refl
option_cases (some x) = inr (x, refl)

without-split :
    (a obj : ℕ) (ds zs : List ℕ)
    → obj ≢ a
    → without a (ds ++ obj ∷ zs) ≡ without a ds ++ obj ∷ without a zs
without-split a obj ds zs ne = without-append a ds (obj ∷ zs) ∙ rw (==-ne obj a ne) refl

-- One round, and the rounds after it.
IsMerged-further :
    (s : Allocator) (obj next prev : ℕ) (ds zs : List ℕ) (list : IsLargeList s (ds ++ obj ∷ zs))
    (is_obj : IsIn obj (ds ++ obj ∷ zs)) (behind : next_free s obj ≡ some next) (prev' : ℕ)
    (s' : Allocator) (ds' zs' : List ℕ)
    → obj ≢ next
    → IsMerged
        (after s (ds ++ obj ∷ zs) obj next prev list is_obj behind)
        (without next ds)
        obj
        (without next zs)
        prev'
        s'
        ds'
        zs'
    → IsMerged s ds obj zs prev' s' ds' zs'
IsMerged-further s obj next prev ds zs list is_obj behind prev' s' ds' zs' ne m =
    let xs = ds ++ obj ∷ zs in
    let s1 = after s xs obj next prev list is_obj behind in
    let split = without-split next obj ds zs ne in
    (
      m.0,
      m.1,
      m.2 ∙ ap (free_bytes s1) (sym split) ∙ after-free_bytes s xs obj next prev list is_obj behind,
      m.3,
      omega (arith, m.4, length-without_le next ds),
      omega (arith, m.5, length-without_le next zs),
      λ y i.
          let r = (m.6) y i in
          let k = without-IsIn next y ds r.0 in
          let apart = parts_apart y obj ds (obj ∷ zs) list.1 k.0 (inl refl) in
          elim (later s xs obj next prev list is_obj behind y
            (IsIn-without next y xs (IsIn-left y ds (obj ∷ zs) k.0) k.1)) [
              | inl (e, l) ↦ absurd (apart e)
              | inr (e, l) ↦ (k.0, r.1 ∙ l.1)
            ],
    )

-- One unit for each object of the list is enough for `maybe_merge_free_large_object`.
pub merge_from-IsMerged :
    (n obj prev : ℕ) (s : Allocator) (ds zs : List ℕ)
    → IsWalk prev s (ds ++ obj ∷ zs)
    → get_link s prev ≡ obj
    → length ds + suc (length zs) ≤ n
    → (prev' : ℕ) × (s' : Allocator) × (ds' zs' : List ℕ) × (merge_from n obj prev s
        ≡ some (prev', s'))
      × IsMerged s ds obj zs prev' s' ds' zs'
unfolding merge_from absorb
merge_from-IsMerged zero obj prev s ds zs w leads enough = absurd (omega (arith, enough))
merge_from-IsMerged (suc n) obj prev s ds zs w leads enough =
    let xs = ds ++ obj ∷ zs in
    let is_obj : IsIn obj xs = IsIn-right obj ds (obj ∷ zs) (inl refl) in
    let h = (w.0.2) obj is_obj in
    rw (aligned s obj (omega (arith, h.0.0, h.0.2)) h.0.3) (elim (option_cases (next_free s obj)) [
      | inl free ↦ (
        prev,
        s,
        ds,
        zs,
        rw free refl,
        (w, leads, refl, free, omega arith, omega arith, (λ y i. (i, refl))),
      )
      | inr (next, free) ↦
          let s1 = after s xs obj next prev w.0 is_obj free in
          let front = before 0 xs next in
          let is_next = (h.1) next free in
          let place : next ≡ end_of s obj =
            next_free-end s obj next free ∙ add64_small (obj + 16) (get_size s obj) h.0.3 in
          let ne : obj ≢ next = λ e. omega (arith, e, place) in
          let split = without-split next obj ds zs ne in
          let link = after-link s xs obj next prev w.0 is_obj free leads w.1 in
          let prev1 = (absorb obj next prev front s).0 in
          let all : length xs ≡ length ds + suc (length zs) = length-append ds (obj ∷ zs) in
          let left : length (without next xs)
              ≡ length (without next ds) + suc (length (without next zs)) =
            ap length split ∙ length-append (without next ds) (obj ∷ without next zs) in
          let shorter = length-without_lt next xs is_next in
          let rest =
            merge_from-IsMerged n obj prev1 s1 (without next ds) (without next zs)
              (
                subst (IsLargeList s1) split (after-IsLargeList s xs obj next prev w.0 is_obj free),
                subst (λ ys. (prev1 ≡ 0) ⊎ IsIn prev1 ys) split link.1,
              )
              link.0 (omega (arith, shorter, all, left, enough)) in
          (
            rest.0,
            rest.1,
            rest.2,
            rest.3,
            rw
                (
                  free,
                  find_link-before (suc n) next s 0 s.large_objects xs w.0.0 is_next
                      (omega (arith, all, enough)),
                )
                rest.4,
            IsMerged-further s obj next prev ds zs w.0 is_obj free rest.0 rest.1 rest.2 rest.3 ne
                rest.5,
          )
    ])
