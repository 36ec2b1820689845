-- ===== src/Stdio/Output/Progress.antt =====
-- `fputbuf_unlocked` of libc/src/stdio.c ends, with every byte accepted, if the kernel takes bytes.
use native.Mathlib.Nat.{add-zero, zero-add}
use tiny_libc.Prelude.{
  ℕ, suc, ◌+◌, ◌-◌, ◌≤◌, ◌≡◌, arith, Bool-cases, inl, inr, some, List, [], ◌∷◌, ◌==◌, ◌||◌, length,
}
use tiny_libc.Stdio.Output.{Sink, put, full, put_all, fputbuf_unlocked}
use tiny_libc.Stdio.Output.Flush.{Willing, fflush_unlocked-total}

-- The kernel takes a byte at least with each answer, and there are answers for the bytes that wait
-- and for k more.
pub record Enough (k : ℕ) (s : Sink) : Type 0 where
  pub willing : Willing s.answers
  pub answers_left : s.buffer.end - s.buffer.start + k ≤ length s.answers

next : (i n : ℕ) → i + suc n ≡ i + 1 + n
next i n = omega arith

module _ (k : ℕ) where
  put_all-total :
      (cs : List ℕ) (i : ℕ) (s : Sink)
      → Enough (length cs + k) s
      → (t : Sink) × (put_all cs i s ≡ some (i + length cs, t)) × Enough k t
  unfolding put_all
  put_all-total [] i s h = (
    s,
    rw (add-zero i),
    record { willing = h.willing; answers_left = omega (arith, h.answers_left) },
  )
  put_all-total (c ∷ cs) i s h = elim (Bool-cases ((c == b'\n') || full (put s c).buffer)) [
    | inl now ↦
        let (t, flushes, f) =
          fflush_unlocked-total (put s c) h.willing (omega (arith, h.answers_left)) in
        let (u, e, left) = put_all-total cs (i + 1) t (record {
          willing = f.willing;
          answers_left = omega (arith, h.answers_left, f.answers_left, f.emptied);
        }) in
        (u, rw (now, flushes, e, next i (length cs)), left)
    | inr later ↦
        let (u, e, left) =
          put_all-total cs (i + 1) (put s c)
            (record { willing = h.willing; answers_left = omega (arith, h.answers_left) }) in
        (u, rw (later, e, next i (length cs)), left)
  ]

  -- With an answer for each byte that waits and for each of the argument, and k more, the call
  -- returns the length of its argument, and leaves answers for what waits then and k more.
  pub fputbuf_unlocked-Enough :
      (cs : List ℕ) (s : Sink)
      → Enough (length cs + k) s
      → (t : Sink) × (fputbuf_unlocked cs s ≡ some (length cs, t)) × Enough k t
  unfolding fputbuf_unlocked
  fputbuf_unlocked-Enough cs s h = elim (Bool-cases (full s.buffer)) [
    | inl is_full ↦
        let (t, flushes, f) = fflush_unlocked-total s h.willing (omega (arith, h.answers_left)) in
        let (u, e, left) = put_all-total cs 0 t (record {
          willing = f.willing;
          answers_left = omega (arith, h.answers_left, f.answers_left, f.emptied);
        }) in
        (u, rw (is_full, flushes, e, zero-add (length cs)), left)
    | inr room ↦
        let (u, e, left) = put_all-total cs 0 s h in (u, rw (room, e, zero-add (length cs)), left)
  ]

-- If each answer of the kernel takes a byte at least, and there are as many answers as bytes wait in
-- the buffer and come in the argument, then `fputbuf_unlocked` returns the length of its argument.
pub fputbuf_unlocked-total :
    (cs : List ℕ) (s : Sink)
    → Willing s.answers
    → s.buffer.end - s.buffer.start + length cs ≤ length s.answers
    → (t : Sink) × (fputbuf_unlocked cs s ≡ some (length cs, t))
fputbuf_unlocked-total cs s w h =
    let (t, e, left) =
      fputbuf_unlocked-Enough 0 cs s (record { willing = w; answers_left = omega arith }) in
    (t, e)
