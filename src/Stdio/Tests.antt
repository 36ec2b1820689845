-- ===== src/Stdio/Tests.antt =====
-- Runs of the functions of libc/src/stdio.c, and the theorems at concrete files.
use tiny_libc.Prelude.{◌+◌, ◌≡◌, refl, arith, false, some, [], ◌∷◌, ◌++◌}
use tiny_libc.Prelude.Int.{pos}
use tiny_libc.Prelude.Bytes.{write_at}
use tiny_libc.Stdio.Types.{empty_buffer, IsValid}
use tiny_libc.Stdio.Output.{Sink, takes, fails, Ensures, fflush_unlocked, fputbuf_unlocked, fputs}
use tiny_libc.Stdio.Output.Flush.{stream}
use tiny_libc.Stdio.Output.Put.{Wrote, fputbuf_unlocked-Wrote}
use tiny_libc.Stdio.Output.Progress.{fputbuf_unlocked-total}
use tiny_libc.Stdio.Output.Strings.{fputs-total}
use tiny_libc.Stdio.Input.{Source, Got, fgetbuf_unlocked}
use tiny_libc.Stdio.Input
use tiny_libc.Stdio.Input.Get.{Delivered, fgetbuf_unlocked-Delivered, fgetbuf_unlocked-total}

-- "hi" in a buffer of four bytes, and a kernel that takes one byte, then fails, then takes all.
abbrev greeting : Sink
greeting = record {
  buffer = record { bytes = λ a. 104 + a; size = 4; start = 0; end = 2 };
  answers = takes 1 ∷ fails ∷ takes 9 ∷ takes 9 ∷ [];
  sent = [];
}

abbrev patient : Sink
patient = record greeting {
  answers = takes 1 ∷ takes 1 ∷ takes 1 ∷ takes 1 ∷ takes 1 ∷ takes 1 ∷ [];
}

greeting-IsValid : IsValid greeting.buffer
greeting-IsValid = omega arith

-- The failure leaves the second byte in the buffer.
flush_twice :
    fflush_unlocked greeting
    ≡ some (
      false,
      record greeting {
        buffer = record greeting.buffer { start = 1 };
        answers = takes 9 ∷ takes 9 ∷ [];
        sent = 104 ∷ [];
      },
    )
unfolding fflush_unlocked
flush_twice = refl

fputbuf_unlocked-Wrote_example :
    Ensures (fputbuf_unlocked (97 ∷ 98 ∷ 99 ∷ []) greeting) (Wrote (97 ∷ 98 ∷ 99 ∷ []) greeting)
fputbuf_unlocked-Wrote_example =
    fputbuf_unlocked-Wrote (97 ∷ 98 ∷ 99 ∷ []) greeting greeting-IsValid

fputbuf_unlocked-total_example :
    (t : Sink) × (fputbuf_unlocked (97 ∷ 98 ∷ 99 ∷ []) patient ≡ some (3, t))
fputbuf_unlocked-total_example =
    fputbuf_unlocked-total (97 ∷ 98 ∷ 99 ∷ []) patient (omega arith) (omega arith)

fputs-total_example :
    (t : Sink) × (fputs (97 ∷ []) patient ≡ some (pos 2, t))
    × (stream t ≡ stream patient ++ (97 ∷ []) ++ b'\n' ∷ [])
fputs-total_example =
    fputs-total 97 [] patient (omega arith) (omega arith)
      (record { willing = omega arith; answers_left = omega arith })

-- Nothing in the buffer, and "a\nb" to read.
abbrev typed : Source
typed = record { buffer = empty_buffer 4; answers = Input.gives 9 ∷ []; unread = 97 ∷ 10 ∷ 98 ∷ [] }

-- The call stops behind the newline.
fgetbuf_line :
    (g : Got) × (fgetbuf_unlocked 3 typed ≡ some g) × (g.count ≡ 2) × (g.stored ≡ 97 ∷ 10 ∷ [])
unfolding fgetbuf_unlocked write_at
fgetbuf_line = (_, refl, refl, refl)

fgetbuf_unlocked-Delivered_example :
    Input.Fill.Ensures (fgetbuf_unlocked 3 typed) (Delivered 3 0 typed)
fgetbuf_unlocked-Delivered_example = fgetbuf_unlocked-Delivered 3 typed (omega arith)

fgetbuf_unlocked-total_example :
    (g : Got) × (fgetbuf_unlocked 3 typed ≡ some g) × Delivered 3 0 typed g
fgetbuf_unlocked-total_example = fgetbuf_unlocked-total 3 typed (omega arith) (omega arith)
