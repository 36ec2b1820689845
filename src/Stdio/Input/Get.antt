-- ===== src/Stdio/Input/Get.antt =====
-- `fgetbuf_unlocked` of libc/src/stdio.c hands out the input in order.

use tiny_libc.Prelude.{
  ℕ, zero, suc, ◌+◌, ◌-◌, ◌≤◌, ◌<◌, ◌≡◌, refl, ap, ◌∙◌, sym, arith, Bool, true, false, Bool-cases,
  inl, inr, Option, none, some, List, [], ◌∷◌, ◌++◌, ◌==◌, ◌||◌, length,
}
use tiny_libc.Stdio.Types.{Buffer, IsValid}
use tiny_libc.Stdio.Input.{
  Answer, gives, fails, got, refill, Source, Got, get_all, advance, current, after_refill,
  fgetbuf_unlocked,
}
use tiny_libc.Stdio.Input.Fill.{pending, Filled, Ensures, refill-Filled}

-- The bytes stored are the next of the input, n at most.
pub record Delivered (n i : ℕ) (s : Source) (g : Got) : Type 0 where
  pub counted : g.count ≡ i + length g.stored
  pub at_most : length g.stored ≤ n
  pub all : g.stored ++ pending g.after ≡ pending s
  pub valid : IsValid g.after.buffer
  pub same_size : g.after.buffer.size ≡ s.buffer.size

pending-advance :
    (s : Source) → s.buffer.start < s.buffer.end → pending s ≡ current s ∷ pending (advance s)
pending-advance s h =
    let e : s.buffer.end - s.buffer.start ≡ suc (s.buffer.end - (s.buffer.start + 1)) =
      omega arith in
    rw e

advance-IsValid :
    (s : Source) → IsValid s.buffer → s.buffer.start < s.buffer.end → IsValid (advance s).buffer
advance-IsValid s v h = record {
  ordered = omega arith;
  within = omega (arith, v.within);
  nonempty = omega (arith, v.nonempty);
}

pending-unread : (s : Source) → s.buffer.start ≡ s.buffer.end → pending s ≡ s.unread
pending-unread s h = let e : s.buffer.end - s.buffer.start ≡ 0 = omega arith in rw e

Delivered-last :
    (left i : ℕ) (s : Source)
    → IsValid s.buffer
    → s.buffer.start < s.buffer.end
    → Delivered
        (suc left)
        i
        s
        (record { count = i + 1; stored = current s ∷ []; after = advance s })
Delivered-last left i s v h = record {
  counted = refl;
  at_most = omega arith;
  all = sym (pending-advance s h);
  valid = advance-IsValid s v h;
  same_size = refl;
}

Delivered-more :
    (left i : ℕ) (s : Source) (g : Got)
    → s.buffer.start < s.buffer.end
    → Delivered left (i + 1) (advance s) g
    → Delivered (suc left) i s (record g { stored = current s ∷ g.stored })
Delivered-more left i s g h d = record {
  counted = omega (arith, d.counted);
  at_most = omega (arith, d.at_most);
  all = ap (λ xs. current s ∷ xs) d.all ∙ sym (pending-advance s h);
  valid = d.valid;
  same_size = d.same_size;
}

get_all-Delivered :
    (left i : ℕ) (s : Source)
    → IsValid s.buffer
    → s.buffer.start < s.buffer.end
    → Delivered left i s (get_all left i s)
unfolding get_all
get_all-Delivered zero i s v h = record {
  counted = omega arith;
  at_most = omega arith;
  all = refl;
  valid = v;
  same_size = refl;
}
get_all-Delivered (suc left) i s v h =
    elim (Bool-cases ((current s == b'\n') || (s.buffer.start + 1 == s.buffer.end))) [
      | inl last ↦ rw last (Delivered-last left i s v h)
      | inr more ↦ rw more (
          Delivered-more left i s (get_all left (i + 1) (advance s)) h
            (get_all-Delivered left (i + 1) (advance s) (advance-IsValid s v h) (ground arith)))
    ]

after_refill-Delivered :
    (n : ℕ) (s : Source) (r : Option (Bool × Source))
    → IsValid s.buffer
    → s.buffer.start ≡ s.buffer.end
    → Ensures r (λ (ok, t). Filled s.buffer s.unread ok t)
    → Ensures (after_refill n r) (Delivered n 0 s)
unfolding after_refill
after_refill-Delivered n s none v e f = tt
after_refill-Delivered n s (some (false, t)) v e f = record {
  counted = refl;
  at_most = omega arith;
  all = f.all ∙ sym (pending-unread s e);
  valid = f.valid;
  same_size = f.same_size;
}
after_refill-Delivered n s (some (true, t)) v e f =
    let d = get_all-Delivered n 0 t f.valid (f.waiting refl) in
    record {
      counted = d.counted;
      at_most = d.at_most;
      all = d.all ∙ f.all ∙ sym (pending-unread s e);
      valid = d.valid;
      same_size = d.same_size ∙ f.same_size;
    }

-- Whatever the kernel answers, when `fgetbuf_unlocked` returns on a valid buffer, the bytes that it stores are as many as it returns,
-- n at most, and they are the next of the input: with what is left they make up what there was.
pub fgetbuf_unlocked-Delivered :
    (n : ℕ) (s : Source) → IsValid s.buffer → Ensures (fgetbuf_unlocked n s) (Delivered n 0 s)
unfolding fgetbuf_unlocked
fgetbuf_unlocked-Delivered n s v = elim (Bool-cases (s.buffer.start == s.buffer.end)) [
  | inl empty ↦
      rw empty (
        after_refill-Delivered n s _ v (ground arith) (refill-Filled s.answers s.buffer s.unread v))
  | inr waiting ↦ rw waiting (get_all-Delivered n 0 s v (ground arith))
]

refill-some :
    (ks : List Answer) (b : Buffer) (unread : List ℕ)
    → 1 ≤ length ks
    → (r : Bool × Source) × (refill ks b unread ≡ some r)
unfolding refill
refill-some [] b unread h = absurd (omega arith)
refill-some (fails ∷ ks) b unread h = (_, refl)
refill-some (gives n ∷ ks) b unread h = elim (Bool-cases (got b unread n == 0)) [
  | inl e ↦ rw e (_, refl)
  | inr e ↦ rw e (_, refl)
]

after_refill-some : (n : ℕ) (r : Bool × Source) → (g : Got) × (after_refill n (some r) ≡ some g)
unfolding after_refill
after_refill-some n (true, s) = (_, refl)
after_refill-some n (false, s) = (_, refl)

returns : (n : ℕ) (s : Source) → 1 ≤ length s.answers → (g : Got) × (fgetbuf_unlocked n s ≡ some g)
unfolding fgetbuf_unlocked
returns n s h = elim (Bool-cases (s.buffer.start == s.buffer.end)) [
  | inl empty ↦
      let (r, e) = refill-some s.answers s.buffer s.unread h in
      let (g, e') = after_refill-some n r in (g, rw (empty, e) e')
  | inr waiting ↦ rw waiting (_, refl)
]

-- If the kernel answers one read, `fgetbuf_unlocked` on a valid buffer returns: the bytes that it stores
-- are as many as it returns, n at most, and the next of the input.
pub fgetbuf_unlocked-total :
    (n : ℕ) (s : Source)
    → IsValid s.buffer
    → 1 ≤ length s.answers
    → (g : Got) × (fgetbuf_unlocked n s ≡ some g) × Delivered n 0 s g
fgetbuf_unlocked-total n s v h =
    let (g, e) = returns n s h in (g, e, rw e at (fgetbuf_unlocked-Delivered n s v))
