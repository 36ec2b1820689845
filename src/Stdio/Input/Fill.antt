-- ===== src/Stdio/Input/Fill.antt =====
-- A read of libc/src/stdio.c moves bytes from the kernel to the buffer, in order.
use native.Mathlib.Nat.{sub-zero}
use tiny_libc.Prelude.{
  ℕ, ◌-◌, ◌<◌, ◌≡◌, refl, ap, ◌∙◌, arith, Bool, true, false, Bool-cases, inl, inr, Option, none,
  some, List, [], ◌∷◌, ◌++◌, ◌==◌, length, take, drop, take-append-drop, length-take,
}
use tiny_libc.Prelude.Bytes.{slice, write_at, slice-write_at}
use tiny_libc.Stdio.Types.{Buffer, used, IsValid}
use tiny_libc.Stdio.Input.{Answer, gives, fails, Source, got, refill}

-- The input that has not been handed out: what waits in the buffer, then what the kernel has.
abbrev pub pending : Source → List ℕ
pending s = used s.buffer ++ s.unread

-- A refill, with its result.
pub record Filled (b : Buffer) (unread : List ℕ) (some_bytes : Bool) (s : Source) : Type 0 where
  pub all : pending s ≡ unread
  pub valid : IsValid s.buffer
  pub same_size : s.buffer.size ≡ b.size
  pub waiting : some_bytes ≡ true → s.buffer.start < s.buffer.end
  pub nothing : some_bytes ≡ false → s.buffer.start ≡ s.buffer.end

-- What holds of each result that a refill returns.
abbrev pub Ensures {ℓ} : {A : Type 0} → Option A → (A → Type ℓ) → Type ℓ
Ensures none P = Unit
Ensures (some a) P = P a

length-got :
    (b : Buffer) (unread : List ℕ) (n : ℕ) → length (take (got b unread n) unread) ≡ got b unread n
length-got b unread n = omega (arith, length-take (got b unread n) unread)

Filled-nothing :
    (b : Buffer) (ks : List Answer) (unread : List ℕ)
    → IsValid b
    → Filled b unread false
        (record { buffer = record b { start = 0; end = 0 }; answers = ks; unread = unread })
Filled-nothing b ks unread v = record {
  all = refl;
  valid = record { ordered = omega arith; within = omega arith; nonempty = v.nonempty };
  same_size = refl;
  waiting = λ e. cc;
  nothing = λ e. refl;
}

pub refill-Filled :
    (ks : List Answer) (b : Buffer) (unread : List ℕ)
    → IsValid b
    → Ensures (refill ks b unread) (λ (ok, s). Filled b unread ok s)
unfolding refill
refill-Filled [] b unread v = tt
refill-Filled (fails ∷ ks) b unread v = Filled-nothing b ks unread v
refill-Filled (gives n ∷ ks) b unread v = elim (Bool-cases (r == 0)) [
  | inl zero_bytes ↦ rw zero_bytes (Filled-nothing b ks unread v)
  | inr more ↦ rw more record {
    all = ap (λ xs. xs ++ drop r unread) bytes ∙ take-append-drop r unread;
    valid = record { ordered = omega arith; within = omega arith; nonempty = v.nonempty };
    same_size = refl;
    waiting = λ e. ground arith;
    nothing = λ e. cc;
  }
]
  where
    r : ℕ
    r = got b unread n

    bytes : slice (write_at b.bytes 0 (take r unread)) 0 (r - 0) ≡ take r unread
    bytes =
        rw (sub-zero r) (rw (length-got b unread n) at (slice-write_at (take r unread) b.bytes 0))
