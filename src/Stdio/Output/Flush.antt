-- ===== src/Stdio/Output/Flush.antt =====
-- `fflush_unlocked` of libc/src/stdio.c loses no byte and sends none twice.
use mathlib.Core.List.{append_assoc}
use tiny_libc.Prelude.{
  ℕ, ◌+◌, ◌-◌, ◌≤◌, ◌≡◌, refl, ap, ◌∙◌, sym, arith, Bool, true, false, Bool-cases, inl, inr, some,
  List, [], ◌∷◌, ◌++◌, ltb, ltb→lt, not_less, length,
}
use tiny_libc.Prelude.Bytes.{slice, slice-add}
use tiny_libc.Stdio.Types.{Buffer, used, IsValid}
use tiny_libc.Stdio.Output.{
  Answer, takes, fails, Sink, reset, taken, drain, Ensures, Ensures-weaken, fflush_unlocked,
}

-- All bytes that went in: those that the kernel has, then those that wait.
abbrev pub stream : Sink → List ℕ
stream s = s.sent ++ used s.buffer

-- What a flush of `b` keeps, with its result.
pub record Kept (b : Buffer) (sent : List ℕ) (ok : Bool) (s : Sink) : Type 0 where
  pub all : stream s ≡ sent ++ used b
  pub valid : IsValid s.buffer
  pub same_size : s.buffer.size ≡ b.size
  pub emptied : ok ≡ true → s.buffer.end ≡ 0

used_nothing : (b : Buffer) → IsValid b → ltb b.start b.end ≡ false → used b ≡ []
used_nothing b v h = let e : b.end - b.start ≡ 0 = ground arith in rw e

used_rest :
    (b : Buffer) (n : ℕ)
    → slice b.bytes b.start (taken b n) ++ used (record b { start = b.start + taken b n }) ≡ used b
used_rest b n = sym (
    ap (slice b.bytes b.start) fits
    ∙ slice-add b.bytes b.start (taken b n) (b.end - (b.start + taken b n)))
  where
    fits : b.end - b.start ≡ taken b n + (b.end - (b.start + taken b n))
    fits = omega arith

-- A loop that finds the used range empty resets it.
Kept-reset :
    (b : Buffer) (ks : List Answer) (sent : List ℕ)
    → IsValid b
    → ltb b.start b.end ≡ false
    → Kept b sent true (record { buffer = reset b; answers = ks; sent = sent })
Kept-reset b ks sent v h = record {
  all = rw (used_nothing b v h);
  valid = record { ordered = omega arith; within = omega arith; nonempty = v.nonempty };
  same_size = refl;
  emptied = λ _. refl;
}

Kept-stay :
    (b : Buffer) (ks : List Answer) (sent : List ℕ)
    → IsValid b
    → Kept b sent false (record { buffer = b; answers = ks; sent = sent })
Kept-stay b ks sent v = record { all = refl; valid = v; same_size = refl; emptied = λ e. cc }

drain-Kept :
    (ks : List Answer) (b : Buffer) (sent : List ℕ)
    → IsValid b
    → Ensures (drain ks b sent) (Kept b sent)
unfolding drain
drain-Kept [] b sent v = elim (Bool-cases (ltb b.start b.end)) [
  | inl more ↦ rw more tt
  | inr done ↦ rw done (Kept-reset b [] sent v done)
]
drain-Kept (fails ∷ ks) b sent v = elim (Bool-cases (ltb b.start b.end)) [
  | inl more ↦ rw more (Kept-stay b ks sent v)
  | inr done ↦ rw done (Kept-reset b (fails ∷ ks) sent v done)
]
drain-Kept (takes n ∷ ks) b sent v = elim (Bool-cases (ltb b.start b.end)) [
  | inl more ↦ rw more (
      Ensures-weaken (drain ks b' sent') (Kept b' sent') (Kept b sent) (drain-Kept ks b' sent' v')
        λ ok s k. record {
          all = k.all ∙ append_assoc sent part (used b') ∙ ap (λ xs. sent ++ xs) (used_rest b n);
          valid = k.valid;
          same_size = k.same_size;
          emptied = k.emptied;
        })
  | inr done ↦ rw done (Kept-reset b (takes n ∷ ks) sent v done)
]
  where
    part : List ℕ
    part = slice b.bytes b.start (taken b n)

    b' : Buffer
    b' = record b { start = b.start + taken b n }

    sent' : List ℕ
    sent' = sent ++ part

    v' : IsValid b'
    v' = record { ordered = omega (arith, v.ordered); within = v.within; nonempty = v.nonempty }

-- A flush of a valid buffer that returns, whatever its result, changes no byte of the stream (what the
-- kernel has taken, then what waits in the buffer), and a successful one empties the buffer.
pub fflush_unlocked-Kept :
    (s : Sink) → IsValid s.buffer → Ensures (fflush_unlocked s) (Kept s.buffer s.sent)
unfolding fflush_unlocked
fflush_unlocked-Kept s v = drain-Kept s.answers s.buffer s.sent v

-- Each answer takes a byte at least.
abbrev pub Willing : List Answer → Type 0
Willing [] = Unit
Willing (takes n ∷ ks) = (1 ≤ n) × Willing ks
Willing (fails ∷ ks) = ⊥

-- What is left of the kernel's answers after a flush of `b` that went well.
pub record Flushed (b : Buffer) (ks : List Answer) (s : Sink) : Type 0 where
  pub willing : Willing s.answers
  pub emptied : s.buffer.end - s.buffer.start ≡ 0
  pub answers_left : length ks ≤ length s.answers + (b.end - b.start)

drain-total :
    (ks : List Answer) (b : Buffer) (sent : List ℕ)
    → Willing ks
    → b.end - b.start ≤ length ks
    → (s : Sink) × (drain ks b sent ≡ some (true, s)) × Flushed b ks s
unfolding drain
drain-total [] b sent w h = (
  record { buffer = reset b; answers = []; sent = sent },
  rw (not_less b.start b.end (omega arith)),
  record { willing = tt; emptied = refl; answers_left = omega arith },
)
drain-total (takes n ∷ ks) b sent w h = elim (Bool-cases (ltb b.start b.end)) [
  | inl more ↦
      let (s, e, f) =
        drain-total ks (record b { start = b.start + taken b n })
          (sent ++ slice b.bytes b.start (taken b n)) w.1 (omega (arith, ltb→lt _ _ more)) in
      (
        s,
        rw more e,
        record {
          willing = f.willing;
          emptied = f.emptied;
          answers_left = omega (arith, f.answers_left, w.0, ltb→lt _ _ more);
        },
      )
  | inr done ↦ (
    record { buffer = reset b; answers = takes n ∷ ks; sent = sent },
    rw done,
    record { willing = w; emptied = refl; answers_left = omega arith },
  )
]
drain-total (fails ∷ ks) b sent w h = absurd w

-- A kernel that takes a byte with each write, for as many writes as bytes wait, lets the flush return 0.
pub fflush_unlocked-total :
    (s : Sink)
    → Willing s.answers
    → s.buffer.end - s.buffer.start ≤ length s.answers
    → (t : Sink) × (fflush_unlocked s ≡ some (true, t)) × Flushed s.buffer s.answers t
unfolding fflush_unlocked
fflush_unlocked-total s w h = drain-total s.answers s.buffer s.sent w h
