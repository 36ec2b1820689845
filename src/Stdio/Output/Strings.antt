-- ===== src/Stdio/Output/Strings.antt =====
-- `fputs` of libc/src/stdio.c: what it writes and what it returns.

use tiny_libc.Prelude.{
  ℕ, suc, ◌+◌, ◌<◌, ◌^◌, ◌≡◌, ap, ◌∙◌, arith, some, List, [], ◌∷◌, ◌++◌, length, take-all, ==-ne,
  lt→leb-false,
}
use tiny_libc.Prelude.Int.{pos, eof, to_int_small}
use tiny_libc.Stdio.Types.{IsValid}
use tiny_libc.Stdio.Output.{Sink, Ensures_elim, fputbuf_unlocked, fputs}
use tiny_libc.Stdio.Output.Flush.{stream}
use tiny_libc.Stdio.Output.Put.{Wrote, fputbuf_unlocked-Wrote}
use tiny_libc.Stdio.Output.Progress.{Enough, fputbuf_unlocked-Enough}

-- A call that accepts its whole argument puts it behind the stream.
pub accepts_all :
    (cs : List ℕ) (s t : Sink)
    → IsValid s.buffer
    → fputbuf_unlocked cs s ≡ some (length cs, t)
    → (stream t ≡ stream s ++ cs) × IsValid t.buffer
accepts_all cs s t v e =
    let w = Ensures_elim (fputbuf_unlocked cs s) (Wrote cs s) (fputbuf_unlocked-Wrote cs s v) e in
    (rw (take-all cs) at w.all, w.valid)

-- `fputs` of a string that is not empty and shorter than an `int` counts, on a valid buffer and a kernel
-- that takes a byte with each of as many answers as bytes wait and come, returns the length plus one,
-- and what it puts behind the stream is the string and a newline.
pub fputs-total :
    (c : ℕ) (cs : List ℕ) (s : Sink)
    → IsValid s.buffer
    → length (c ∷ cs) + 1 < 2 ^ 31
    → Enough (length (c ∷ cs) + 1) s
    → (t : Sink) × (fputs (c ∷ cs) s ≡ some (pos (length (c ∷ cs) + 1), t))
      × (stream t ≡ stream s ++ (c ∷ cs) ++ b'\n' ∷ [])
unfolding fputs
fputs-total c cs s v small h =
    let (t, e, left) = fputbuf_unlocked-Enough 1 (c ∷ cs) s h in
    let (u, e', left') = fputbuf_unlocked-Enough 0 (b'\n' ∷ []) t left in
    let (first, v') = accepts_all (c ∷ cs) s t v e in
    let (second, _) = accepts_all (b'\n' ∷ []) t u v' e' in
    (
      u,
      rw (e, e')
          (rw (==-ne (suc (length cs)) 0 (omega arith), to_int_small (suc (length cs) + 1) small)),
      second ∙ ap (λ xs. xs ++ b'\n' ∷ []) first,
    )

-- `fputs` of the empty string, whenever the buffer has room, writes nothing and returns EOF: it takes the
-- count of 0 bytes for an error and leaves the newline out.
pub fputs-empty : (s : Sink) → s.buffer.end < s.buffer.size → fputs [] s ≡ some (eof, s)
unfolding fputs
fputs-empty s h = rw (lt→leb-false s.buffer.size s.buffer.end h)
