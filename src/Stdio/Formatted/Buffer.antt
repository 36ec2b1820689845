-- ===== src/Stdio/Formatted/Buffer.antt =====
-- What `vsnprintf` of libc/src/stdio.c stores in its buffer.
use native.Mathlib.Nat.{zero-add, add-zero, sub-zero}
use tiny_libc.Prelude.{
  ℕ, suc, ◌+◌, ◌-◌, ◌%◌, ◌^◌, ◌<◌, ◌≤◌, ◌≡◌, ◌≢◌, ◌⊎◌, refl, sym, ap, ◌∙◌, arith, min, ltb, ==-ne,
  dec_lt, not_less, lt→ltb, if◌then◌else◌, List, [], ◌∷◌, ◌++◌, length, take, length-take,
  take-take, take-min,
}
use tiny_libc.Prelude.Bytes.{
  Memory, store, slice, slice-store_end, write_at, write_at_outside, slice-write_at, take-slice,
}
use tiny_libc.Printf.Output.{put_list}
use tiny_libc.Printf.Format.{Arg}
use tiny_libc.Prelude.Int.{ℤ, to_int}
use tiny_libc.Printf.Double.{Doubles}
use tiny_libc.Printf.Convert.{Outcome, printed, undefined, stuck, terminate}
use tiny_libc.Printf.Output.Text.{put_list-idx}
use tiny_libc.Printf.Convert.Printed.{Prints, Prints-print_formatted}
use tiny_libc.Stdio.Formatted.{out_buffer, vsnprintf}

below : (i count : ℕ) → i < count → count - i ≡ suc (count - (i + 1))
below i count h = omega arith

beyond : (i count : ℕ) → ¬ (i < count) → count - i ≡ 0
beyond i count h = omega arith

behind : (buffer i : ℕ) → buffer + (i + 1) ≡ buffer + i + 1
behind buffer i = omega arith

-- The bytes [i, count) of the buffer get those of the text that fit.
put_list-write_at :
    (buffer count : ℕ) (text : List ℕ) (i : ℕ) (m : Memory)
    → (put_list (out_buffer buffer) count text (record { idx = i; written = m })).written
      ≡ write_at m (buffer + i) (take (count - i) text)
unfolding put_list write_at
put_list-write_at buffer count [] i m = elim (dec_lt i count) [
  | yes room ↦ rw (below i count room)
  | no full ↦ rw (beyond i count full)
]
put_list-write_at buffer count (c ∷ text) i m = elim (dec_lt i count) [
  | yes room ↦
      rw (below i count room, put_list, lt→ltb i count room)
        (rw (behind buffer i) at
          (put_list-write_at buffer count text (i + 1) (store m (buffer + i) c)))
  | no full ↦
      rw (beyond i count full, put_list, not_less i count (omega arith))
        (rw (beyond (i + 1) count (omega arith)) at (put_list-write_at buffer count text (i + 1) m))
]

-- The buffer holds as much of the text as fits, and a terminator; all else is as it was.
pub record Stored (m m' : Memory) (buffer count : ℕ) (text : List ℕ) : Type 0 where
  pub shown : slice m' buffer (min (count - 1) (length text) + 1) ≡ take (count - 1) text ++ 0 ∷ []
  pub outside : (a : ℕ) → (a < buffer) ⊎ (buffer + count ≤ a) → m' a ≡ m a

-- The place of the terminator, and the bytes before it.
pub Stored-terminator :
    (m m' : Memory) (buffer count n : ℕ) (text : List ℕ)
    → n ≡ min (count - 1) (length text)
    → 0 < count
    → m' ≡ store (write_at m buffer (take count text)) (buffer + n) 0
    → Stored m m' buffer count text
Stored-terminator m m' buffer count n text e pos h = record {
  shown =
      rw (h, ← e, slice-store_end (write_at m buffer (take count text)) buffer n 0)
        (ap (λ xs. xs ++ 0 ∷ []) before);
  outside = λ a o. rw h (
      rw (==-ne a (buffer + n) (omega arith))
        (write_at_outside (take count text) m buffer a (omega (arith, length-take count text))));
}
  where
    w : Memory
    w = write_at m buffer (take count text)

    before : slice w buffer n ≡ take (count - 1) text
    before =
        sym
          (take-slice w buffer n (length (take count text)) (omega (arith, length-take count text)))
        ∙ ap (take n) (slice-write_at (take count text) m buffer)
        ∙ take-take n count text (omega arith)
        ∙ rw e (take-min (count - 1) text)

place :
    (count n : ℕ)
    → 0 < count
    → count < 2 ^ 64
    → (if ltb n count then n else (count + 2 ^ 64 - 1) % 2 ^ 64) ≡ min (count - 1) n
place count n pos small = ground arith

pub terminate-store :
    (buffer count : ℕ) (text : List ℕ) (m : Memory)
    → 0 < count
    → count < 2 ^ 64
    → terminate
        (out_buffer buffer)
        count
        (put_list (out_buffer buffer) count text (record { idx = 0; written = m }))
      ≡ store (write_at m buffer (take count text)) (buffer + min (count - 1) (length text)) 0
terminate-store buffer count text m pos small = rw (
  put_list-idx (out_buffer buffer) count text (record { idx = 0; written = m }),
  zero-add (length text),
  place count (length text) pos small,
  put_list-write_at buffer count text 0 m,
  add-zero buffer,
  sub-zero count,
  lt→ltb (min (count - 1) (length text)) count (omega arith),
)

-- What `vsnprintf` may do, unless it reads what is not there: it stores a text and a terminator, and
-- returns the length of the text, converted to an `int`.
abbrev pub Formats : ℕ → ℕ → Memory → Outcome (ℤ × Memory) → Type 0
Formats buffer count m (printed (n, m')) =
    (text : List ℕ) × (n ≡ to_int (length text)) × Stored m m' buffer count text
Formats buffer count m undefined = Unit
Formats buffer count m stuck = ⊥

module _ {D : Type 0} (doubles : Doubles D) where
  Formats-Prints :
      (buffer count : ℕ) (m : Memory)
      → 0 < count
      → count < 2 ^ 64
      → (o : Outcome (ℤ × Memory)) → Prints doubles (out_buffer buffer) count m o
      → Formats buffer count m o
  Formats-Prints buffer count m pos small (printed (n, m')) (text, e, done) = (
    text,
    e,
    Stored-terminator m m' buffer count (min (count - 1) (length text)) text refl pos
        (done ∙ terminate-store buffer count text m pos small),
  )
  Formats-Prints buffer count m pos small undefined p = tt
  Formats-Prints buffer count m pos small stuck p = p

  -- For a buffer that is not null, of `count` bytes, any format, any arguments and any arithmetic of
  -- doubles, the loop of `vsnprintf` ends. Unless it reads an argument, a byte of the format or a power
  -- of ten that is not there, or a conversion of a double makes more than three nested calls, it
  -- returns the length of a text, converted to an `int`, the buffer gets as much of the text as fits
  -- before a terminator, and nothing outside the buffer changes.
  pub vsnprintf-Formats :
      (buffer count : ℕ) (fmt : List ℕ) (va : List (Arg D)) (m : Memory)
      → buffer ≢ 0
      → 0 < count
      → count < 2 ^ 64
      → Formats buffer count m (vsnprintf doubles buffer count fmt va m)
  unfolding vsnprintf
  vsnprintf-Formats buffer count fmt va m nz pos small = rw (==-ne buffer 0 nz) (
      Formats-Prints buffer count m pos small _
        (Prints-print_formatted (out_buffer buffer) count doubles fmt va m))
