-- ===== src/Stdio/Output/Put.antt =====
-- `fputbuf_unlocked` of libc/src/stdio.c puts the bytes that it counts at the end of the stream.
use mathlib.Core.List.{append-nil, append_assoc}
use native.Mathlib.Nat.{sub-zero}
use tiny_libc.Prelude.{
  ℕ, suc, ◌+◌, ◌-◌, ◌≤◌, ◌<◌, ◌≡◌, refl, ap, ◌∙◌, sym, arith, Bool, true, false, Bool-cases, inl,
  inr, some, List, [], ◌∷◌, ◌++◌, ◌==◌, ◌||◌, length, take, leb-false→lt, if◌then◌else◌,
}
use tiny_libc.Prelude.Bytes.{slice, slice-store_end, store, Memory}
use tiny_libc.Stdio.Types.{used, IsValid}
use tiny_libc.Stdio.Output.{
  Sink, Ensures, Ensures-weaken, Ensures->>=, put, full, put_all, fflush_unlocked, fputbuf_unlocked,
  ◌>>=◌,
}
use tiny_libc.Stdio.Output.Flush.{stream, Kept, fflush_unlocked-Kept}

-- The state between two rounds of the loop: there is room for a byte.
record HasRoom (s : Sink) : Type 0 where
  valid : IsValid s.buffer
  room : s.buffer.end < s.buffer.size

-- `n` of the bytes `cs` have gone behind the stream of `s`.
pub record Wrote (cs : List ℕ) (s : Sink) (n : ℕ) (s' : Sink) : Type 0 where
  pub counted : n ≤ length cs
  pub all : stream s' ≡ stream s ++ take n cs
  pub valid : IsValid s'.buffer
  pub same_size : s'.buffer.size ≡ s.buffer.size

used-put :
    (m : Memory) (start end n c : ℕ)
    → end ≡ start + n
    → slice (store m end c) start (end + 1 - start) ≡ slice m start (end - start) ++ c ∷ []
used-put m start end n c h = rw (h, more, same) (slice-store_end m start n c)
  where
    more : start + n + 1 - start ≡ n + 1
    more = omega arith

    same : start + n - start ≡ n
    same = omega arith

put-stream : (s : Sink) (c : ℕ) → IsValid s.buffer → stream (put s c) ≡ stream s ++ c ∷ []
put-stream s c v =
    ap (λ xs. s.sent ++ xs) (used-put bytes start end (end - start) c (omega (arith, v.ordered)))
    ∙ sym (append_assoc s.sent (used s.buffer) (c ∷ []))
  where
    open (s.buffer) use {bytes, start, end}

put-IsValid : (s : Sink) (c : ℕ) → HasRoom s → IsValid (put s c).buffer
put-IsValid s c r = record { ordered = omega arith; within = omega arith; nonempty = omega arith }

Wrote-nothing : (cs : List ℕ) (s : Sink) → IsValid s.buffer → Wrote cs s 0 s
Wrote-nothing cs s v = record {
  counted = omega arith;
  all = sym (append-nil (stream s));
  valid = v;
  same_size = refl;
}

Wrote-cons :
    (c : ℕ) (cs : List ℕ) (s t u : Sink) (n i : ℕ)
    → stream t ≡ stream s ++ c ∷ []
    → t.buffer.size ≡ s.buffer.size
    → (i + 1 ≤ n) × Wrote cs t (n - (i + 1)) u
    → (i ≤ n) × Wrote (c ∷ cs) s (n - i) u
Wrote-cons c cs s t u n i e size (le, w) = (
  omega arith,
  rw next record {
    counted = omega (arith, w.counted);
    all = w.all ∙ ap (λ xs. xs ++ take (n - (i + 1)) cs) e ∙ append_assoc (stream s) (c ∷ []) _;
    valid = w.valid;
    same_size = w.same_size ∙ size;
  },
)
  where
    next : n - i ≡ suc (n - (i + 1))
    next = omega arith

module _ (s : Sink) (c : ℕ) (r : HasRoom s) where
  -- The buffer is flushed after the byte: a failure ends the loop.
  flushed :
      (cs : List ℕ) (i : ℕ)
      → ((t : Sink)
          → HasRoom t
          → Ensures (put_all cs (i + 1) t) (λ n u. (i + 1 ≤ n) × Wrote cs t (n - (i + 1)) u))
      → Ensures
          (fflush_unlocked (put s c) >>= λ ok t.
            if ok then put_all cs (i + 1) t else some (i + 1, t))
          (λ n u. (i ≤ n) × Wrote (c ∷ cs) s (n - i) u)
  flushed cs i ih =
      Ensures->>= (fflush_unlocked (put s c)) _ (Kept (put s c).buffer s.sent) _
        (fflush_unlocked-Kept (put s c) (put-IsValid s c r)) cases
    where
      cases :
          (ok : Bool) (t : Sink)
          → Kept (put s c).buffer s.sent ok t
          → Ensures
              (if ok then put_all cs (i + 1) t else some (i + 1, t))
              (λ n u. (i ≤ n) × Wrote (c ∷ cs) s (n - i) u)
      cases true t k =
          Ensures-weaken (put_all cs (i + 1) t) _ _ (ih t room)
            (λ n u w. Wrote-cons c cs s t u n i (k.all ∙ put-stream s c r.valid) k.same_size w)
        where
          room : HasRoom t
          room = record { valid = k.valid; room = omega (arith, k.emptied refl, k.valid) }
      cases false t k =
          Wrote-cons c cs s t t (i + 1) i (k.all ∙ put-stream s c r.valid) k.same_size
            (omega arith, rw none_more (Wrote-nothing cs t k.valid))
        where
          none_more : i + 1 - (i + 1) ≡ 0
          none_more = omega arith

put_all-Wrote :
    (cs : List ℕ) (i : ℕ) (s : Sink)
    → HasRoom s
    → Ensures (put_all cs i s) (λ n s'. (i ≤ n) × Wrote cs s (n - i) s')
unfolding put_all
put_all-Wrote [] i s r =
    let e : i - i ≡ 0 = omega arith in (omega arith, rw e (Wrote-nothing [] s r.valid))
put_all-Wrote (c ∷ cs) i s r = elim (Bool-cases ((c == b'\n') || full (put s c).buffer)) [
  | inl now ↦ rw now (flushed s c r cs i (λ t. put_all-Wrote cs (i + 1) t))
  | inr later ↦ rw later (
      Ensures-weaken (put_all cs (i + 1) (put s c)) _ _
        (put_all-Wrote cs (i + 1) (put s c) (room later))
        (λ n u w. Wrote-cons c cs s (put s c) u n i (put-stream s c r.valid) refl w))
]
  where
    room : ((c == b'\n') || full (put s c).buffer) ≡ false → HasRoom (put s c)
    room later = record { valid = put-IsValid s c r; room = ground arith }

put_all_start :
    (cs : List ℕ) (s t : Sink)
    → stream t ≡ stream s
    → t.buffer.size ≡ s.buffer.size
    → HasRoom t
    → Ensures (put_all cs 0 t) (Wrote cs s)
put_all_start cs s t e size r =
    Ensures-weaken (put_all cs 0 t) _ _ (put_all-Wrote cs 0 t r)
      λ n u (le, w). from_start (rw (sub-zero n) at w)
  where
    from_start : {n : ℕ} {u : Sink} → Wrote cs t n u → Wrote cs s n u
    from_start {n} w = record {
      counted = w.counted;
      all = w.all ∙ ap (λ xs. xs ++ take n cs) e;
      valid = w.valid;
      same_size = w.same_size ∙ size;
    }

put_after_flush :
    (cs : List ℕ) (s : Sink) (ok : Bool) (t : Sink)
    → Kept s.buffer s.sent ok t
    → Ensures (if ok then put_all cs 0 t else some (0, t)) (Wrote cs s)
put_after_flush cs s true t k =
    put_all_start cs s t k.all k.same_size
      (record { valid = k.valid; room = omega (arith, k.emptied refl, k.valid) })
put_after_flush cs s false t k = record {
  counted = omega arith;
  all = k.all ∙ sym (append-nil (stream s));
  valid = k.valid;
  same_size = k.same_size;
}

-- Whatever the kernel answers, when `fputbuf_unlocked` returns on a valid buffer, its result n is the number of bytes of the
-- argument that have gone behind the stream, in order; the rest of the stream is as it was, and the
-- used range stays within the buffer.
pub fputbuf_unlocked-Wrote :
    (cs : List ℕ) (s : Sink) → IsValid s.buffer → Ensures (fputbuf_unlocked cs s) (Wrote cs s)
unfolding fputbuf_unlocked
fputbuf_unlocked-Wrote cs s v = elim (Bool-cases (full s.buffer)) [
  | inl is_full ↦ rw is_full (
      Ensures->>= (fflush_unlocked s) _ (Kept s.buffer s.sent) _ (fflush_unlocked-Kept s v)
        (put_after_flush cs s))
  | inr room ↦
      rw room (put_all_start cs s s refl refl (record { valid = v; room = leb-false→lt _ _ room }))
]
