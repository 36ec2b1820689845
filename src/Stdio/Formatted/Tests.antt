-- ===== src/Stdio/Formatted/Tests.antt =====
-- Runs of `vsnprintf` and `vfprintf` of libc/src/stdio.c, and the theorems at concrete arguments.
use tiny_libc.Prelude.{ℕ, ◌≡◌, refl, arith, some, List, [], ◌∷◌, ◌++◌, length, Option, ◌^◌, ◌-◌}
use tiny_libc.Prelude.Bytes.{Memory}
use tiny_libc.Prelude.Int.{pos, to_int}
use tiny_libc.Printf.Output.{put_list, Cursor}
use tiny_libc.Printf.Double.Tests.{thousandths}
use tiny_libc.Printf.Format.{Arg, number, string, double}
use tiny_libc.Printf.Convert.{printed, print_all}
use tiny_libc.Printf.Convert.Decimal.{int_format, int_text}
use tiny_libc.Strings.{atoi}
use tiny_libc.Stdio.Types.{empty_buffer, IsValid}
use tiny_libc.Stdio.Output.{Sink, takes}
use tiny_libc.Stdio.Output.Flush.{stream}
use tiny_libc.Stdio.Output.Progress.{Enough}
use tiny_libc.Stdio.Formatted.{out_sink, vsnprintf, vfprintf}
use tiny_libc.Stdio.Formatted.Buffer.{Formats, vsnprintf-Formats}
use tiny_libc.Stdio.Formatted.File.{vfprintf-stream}
use tiny_libc.Stdio.Formatted.RoundTrip.{atoi-vsnprintf}

abbrev blank : Memory
blank a = 7

-- "%5s%.1f", with a string and 2.5.
abbrev mixed : List ℕ
mixed = b'%' ∷ b'5' ∷ b's' ∷ b'%' ∷ b'.' ∷ b'1' ∷ b'f' ∷ []

abbrev mixed_args : List (Arg ℕ)
mixed_args = string (b'a' ∷ []) ∷ double 2500 ∷ []

vsnprintf-Formats_example : Formats 100 4 blank (vsnprintf thousandths 100 4 mixed mixed_args blank)
vsnprintf-Formats_example =
    vsnprintf-Formats thousandths 100 4 mixed mixed_args blank (omega arith) (omega arith)
      (omega arith)

atoi-vsnprintf_example :
    (m' : Memory) × (vsnprintf thousandths 100 20 int_format (number (2 ^ 32 - 42) ∷ []) blank
      ≡ printed (pos (length (int_text (2 ^ 32 - 42))), m'))
    × (atoi 12 m' 100 ≡ some (to_int (2 ^ 32 - 42)))
atoi-vsnprintf_example =
    atoi-vsnprintf thousandths 100 20 12 (2 ^ 32 - 42) blank (omega arith) (omega arith)
      (omega arith) (omega arith) (omega arith) (omega arith)

-- An empty file, and a kernel that takes a byte at a time.
abbrev slow : Sink
slow = record {
  buffer = empty_buffer 8;
  answers = takes 1 ∷ takes 1 ∷ takes 1 ∷ takes 1 ∷ [];
  sent = [];
}

slow-Enough : Enough 3 slow
slow-Enough = record { willing = omega arith; answers_left = omega arith }

slow-IsValid : IsValid slow.buffer
slow-IsValid = omega arith

abbrev after_hi : Cursor (Option Sink)
after_hi = record {
  idx = 2;
  written = out_sink b'i' 1 (2 ^ 64 - 1) (out_sink b'h' 0 (2 ^ 64 - 1) (some slow));
}

hi_printed :
    print_all out_sink
      (2 ^ 64 - 1)
      thousandths
      3
      (b'h' ∷ b'i' ∷ [])
      []
      (record { idx = 0; written = some slow })
    ≡ printed after_hi
unfolding print_all put_list
hi_printed = refl

vfprintf-stream_example :
    (text : List ℕ) × (t : Sink) × (length text ≡ after_hi.idx)
    × (vfprintf thousandths (b'h' ∷ b'i' ∷ []) [] slow ≡ printed (to_int after_hi.idx, some t))
    × (stream t ≡ stream slow ++ text ++ 0 ∷ [])
vfprintf-stream_example =
    vfprintf-stream thousandths (b'h' ∷ b'i' ∷ []) [] slow after_hi slow-IsValid slow-Enough
      hi_printed
