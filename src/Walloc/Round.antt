-- ===== src/Walloc/Round.antt =====
-- What one round of `maybe_merge_free_large_object` of libc/src/walloc.c keeps of the list of large objects.
use tiny_libc.Prelude.{
  ℕ, ◌+◌, ◌%◌, ◌^◌, ◌≡◌, ◌≢◌, refl, ap, ◌∙◌, sym, subst, arith, ◌⊎◌, inl, inr, Bool-cases, ◌==◌,
  ==-ne, ==-refl, ==_iff, some, List, [], ◌∷◌,
}
use tiny_libc.Walloc.State.{Allocator, add64, get_size, set_size, get_link, set_link}
use tiny_libc.Walloc.Chain.{IsChain, Each, IsIn, IsChain-store}
use tiny_libc.Walloc.Merge.{absorb, next_free}
use tiny_libc.Walloc.Split.{IsPlaced, add64_small}
use tiny_libc.Walloc.Unlink.{
  without, before, IsIn-without, without-IsIn, NoDup-without, before-leads, before-IsIn,
}
use tiny_libc.Walloc.Absorb.{
  end_of, IsMergeable, IsLargeList, free_bytes, free_bytes-grow, free_bytes-without, chain_nonzero,
  set_link-IsUnlinked,
}
use tiny_libc.Walloc.Links.{
  get_link-set_link, get_link-other, set_link-words, set_link-kinds, next_free-frame, next_free-end,
  joined-IsPlaced,
}

-- An object that takes the one behind it in.
module _ (s : Allocator) (xs : List ℕ) (obj next prev : ℕ) (list : IsLargeList s xs)
    (is_obj : IsIn obj xs) (behind : next_free s obj ≡ some next) where
  abbrev front : ℕ
  front = before 0 xs next

  abbrev size : ℕ
  size = add64 (get_size s obj) (add64 16 (get_size s next))

  abbrev grown : Allocator
  grown = set_size obj size s

  abbrev pub after : Allocator
  after = set_link front (grown.words next) grown

  is_next : IsIn next xs
  is_next = (list.2 obj is_obj).1 next behind

  ends : end_of s obj ≡ next
  ends =
      let h = list.2 obj is_obj in
      sym (next_free-end s obj next behind ∙ add64_small (obj + 16) (get_size s obj) h.0.3)

  larger : size ≡ get_size s obj + 16 + get_size s next
  larger = let h = list.2 next is_next in omega (arith, h.0.3, ends)

  whole : (x : ℕ) → IsIn x xs → x % 256 ≡ 0
  whole x i = (list.2 x i).0.0

  front_whole : front % 256 ≡ 0
  front_whole = elim (before-IsIn 0 next xs) [
    | inl null ↦ rw null refl
    | inr inner ↦ whole front inner
  ]

  pub after-size : (y : ℕ) → IsIn y xs → y ≢ obj → get_size after y ≡ get_size s y
  after-size y i ne =
      set_link-words front (grown.words next) (y + 8) grown
        (λ e. omega (arith, whole y i, front_whole, e))
      ∙ rw (==-ne (y + 8) (obj + 8) (λ e. ne (omega (arith, e)))) refl

  pub after-obj : get_size after obj ≡ get_size s obj + 16 + get_size s next
  after-obj =
      set_link-words front (grown.words next) (obj + 8) grown
        (λ e. omega (arith, whole obj is_obj, front_whole, e))
      ∙ rw (==-refl (obj + 8)) larger

  pub after-kinds : after.kinds ≡ s.kinds
  after-kinds = set_link-kinds front (grown.words next) grown

  grown-words : (y : ℕ) → IsIn y xs → grown.words y ≡ s.words y
  grown-words y i = rw (==-ne y (obj + 8) (λ e. omega (arith, whole y i, whole obj is_obj, e))) refl

  next_apart : next ≢ obj
  next_apart e = omega (arith, ends, e)

  after-IsChain : IsChain after.words after.large_objects (without next xs)
  after-IsChain =
      set_link-IsUnlinked xs next grown
        (IsChain-store xs s.words s.large_objects (obj + 8) size (outside xs whole) list.0) list.1
        is_next
    where
      outside : (ys : List ℕ) → ((y : ℕ) → IsIn y ys → y % 256 ≡ 0) → Each (λ y. y ≢ obj + 8) ys
      outside [] h = tt
      outside (y ∷ ys) h = (
        (λ e. omega (arith, h y (inl refl), whole obj is_obj, e)),
        outside ys (λ z i. h z (inr i)),
      )

  -- Where an object ends, and what lies there, afterwards.
  abbrev IsLater : ℕ → ℕ → Type 0
  IsLater y x = (end_of after y ≡ end_of s x) × (next_free after y ≡ next_free s x) × IsIn x xs

  IsLater-obj : IsLater obj next
  IsLater-obj =
      let h = list.2 next is_next in
      (
        omega (arith, after-obj, ends),
        next_free-frame s after next obj (ap (λ e. e % 2 ^ 64) (omega (arith, after-obj, ends)))
            after-kinds,
        is_next,
      )

  IsLater-other : (y : ℕ) → IsIn y xs → y ≢ obj → IsLater y y
  IsLater-other y i ne = (
    ap (λ n. y + 16 + n) (after-size y i ne),
    next_free-frame s after y y (ap (λ n. add64 (y + 16) n) (sym (after-size y i ne))) after-kinds,
    i,
  )

  pub later :
      (y : ℕ) → IsIn y (without next xs) → ((y ≡ obj) × IsLater y next) ⊎ ((y ≢ obj) × IsLater y y)
  later y i = elim (Bool-cases (y == obj)) [
    | inl same ↦ inl (
      (==_iff y obj).0 same,
      subst (λ z. IsLater z next) (sym ((==_iff y obj).0 same)) IsLater-obj,
    )
    | inr other ↦
        let ne : y ≢ obj = λ e. ground (arith, other, e) in
        inr (ne, IsLater-other y (without-IsIn next y xs i).0 ne)
  ]

  after-IsPlaced : IsPlaced obj (get_size after obj)
  after-IsPlaced = rw after-obj (
      joined-IsPlaced obj (get_size s obj) next (get_size s next) (list.2 obj is_obj).0
        (list.2 next is_next).0 ends)

  -- Nothing ends where `next` begins but the object.
  mergeable :
      (y x : ℕ)
      → IsIn y xs
      → IsLater y x
      → IsPlaced y (get_size after y)
      → end_of s x ≢ next
      → IsMergeable after (without next xs) y
  mergeable y x i l placed ne =
      let h = list.2 x l.2 in
      (
        placed,
        λ e free.
            let f = sym l.1 ∙ free in
            let at = next_free-end s x e f ∙ add64_small (x + 16) (get_size s x) h.0.3 in
            IsIn-without next e xs (h.1 e f) (λ same. ne (sym at ∙ same)),
      )

  after-IsMergeable : (y : ℕ) → IsIn y (without next xs) → IsMergeable after (without next xs) y
  after-IsMergeable y i = elim (later y i) [
    | inl (e, l) ↦
        mergeable y next (without-IsIn next y xs i).0 l
          (subst (λ z. IsPlaced z (get_size after z)) (sym e) after-IsPlaced)
          (λ e'. omega (arith, e'))
    | inr (ne, l) ↦
        mergeable y y (without-IsIn next y xs i).0 l
          (rw (after-size y (without-IsIn next y xs i).0 ne)
            (list.2 y (without-IsIn next y xs i).0).0)
          (λ e'. ne ((list.3) y obj (without-IsIn next y xs i).0 is_obj (e' ∙ sym ends)))
  ]

  after-distinct :
      (x y : ℕ)
      → IsIn x (without next xs)
      → IsIn y (without next xs)
      → end_of after x ≡ end_of after y
      → x ≡ y
  after-distinct x y i j e = go (later x i) (later y j)
    where
      go :
          ((x ≡ obj) × IsLater x next) ⊎ ((x ≢ obj) × IsLater x x)
          → ((y ≡ obj) × IsLater y next) ⊎ ((y ≢ obj) × IsLater y y)
          → x ≡ y
      go (inl (a, l)) (inl (b, k)) = a ∙ sym b
      go (inl (a, l)) (inr (b, k)) =
          absurd
            ((without-IsIn next y xs j).1 ((list.3) y next k.2 is_next (sym k.0 ∙ sym e ∙ l.0)))
      go (inr (a, l)) (inl (b, k)) =
          absurd ((without-IsIn next x xs i).1 ((list.3) x next l.2 is_next (sym l.0 ∙ e ∙ k.0)))
      go (inr (a, l)) (inr (b, k)) = (list.3) x y l.2 k.2 (sym l.0 ∙ e ∙ k.0)

  pub after-IsLargeList : IsLargeList after (without next xs)
  after-IsLargeList =
      (after-IsChain, NoDup-without next xs list.1, after-IsMergeable, after-distinct)

  pub after-free_bytes : free_bytes after (without next xs) ≡ free_bytes s xs
  after-free_bytes =
      let grow =
        free_bytes-grow obj (16 + get_size s next) (without next xs) s after
          (NoDup-without next xs list.1) (IsIn-without next obj xs is_obj (λ e. next_apart (sym e)))
          (λ x i ne. after-size x (without-IsIn next x xs i).0 ne) (omega (arith, after-obj)) in
      omega (arith, grow, free_bytes-without next xs s list.1 is_next)

  obj_nonzero : obj ≢ 0
  obj_nonzero = chain_nonzero xs s.words s.large_objects obj list.0 is_obj

  grown-link : (q : ℕ) → (q ≡ 0) ⊎ IsIn q xs → get_link grown q ≡ get_link s q
  grown-link q (inl null) = rw null refl
  grown-link q (inr inner) =
      rw (==-ne q 0 (chain_nonzero xs s.words s.large_objects q list.0 inner)) (grown-words q inner)

  front_leads : ((front ≡ 0) ⊎ IsIn front xs) × (get_link s front ≡ next)
  front_leads = elim (before-leads 0 next xs s.words s.large_objects list.0 is_next) [
    | inl (null, l) ↦ (inl null, rw null l)
    | inr (inner, l) ↦ (
      inr inner,
      rw (==-ne front 0 (chain_nonzero xs s.words s.large_objects front list.0 inner)) l,
    )
  ]

  -- The link to the object after the round.
  pub after-link :
      get_link s prev ≡ obj
      → (prev ≡ 0) ⊎ IsIn prev xs
      → (let prev' = (absorb obj next prev front s).0 in
          (get_link after prev' ≡ obj) × ((prev' ≡ 0) ⊎ IsIn prev' (without next xs)))
  unfolding absorb
  after-link leads place = elim (Bool-cases (prev == next)) [
    | inl hit ↦
        let same = (==_iff prev next).0 hit in
        let next_leads : s.words next ≡ obj =
          rw (==-ne next 0 (chain_nonzero xs s.words s.large_objects next list.0 is_next)) at
            (rw same at leads) in
        rw hit (
          get_link-set_link front (grown.words next) grown ∙ grown-words next is_next ∙ next_leads,
          kept front front_leads.0 (λ e. next_apart (
              sym front_leads.1
              ∙ ap (λ q. get_link s q) e
              ∙ ap (λ q. get_link s q) (sym same)
              ∙ leads)),
        )
    | inr miss ↦ rw miss (
      get_link-other front (grown.words next) prev grown
            (λ e. next_apart (sym front_leads.1 ∙ ap (λ q. get_link s q) (sym e) ∙ leads))
          ∙ grown-link prev place
          ∙ leads,
      kept prev place (λ e. ground (arith, miss, e)),
    )
  ]
    where
      kept : (q : ℕ) → (q ≡ 0) ⊎ IsIn q xs → q ≢ next → (q ≡ 0) ⊎ IsIn q (without next xs)
      kept q (inl null) ne = inl null
      kept q (inr inner) ne = inr (IsIn-without next q xs inner ne)
