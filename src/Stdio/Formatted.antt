-- ===== src/Stdio/Formatted.antt =====
-- `vsnprintf` and `vfprintf` of libc/src/stdio.c (`printf`, `fprintf` and `snprintf` pass their arguments
-- on to them). The arithmetic of doubles is a parameter, `doubles`.
pub mod Buffer
pub mod File
pub mod RoundTrip
mod Tests
use tiny_libc.Prelude.{
  ℕ, ◌+◌, ◌-◌, ◌^◌, Bool, true, false, ◌==◌, ltb, if◌then◌else◌, List, Option, none, some,
}
use tiny_libc.Prelude.Bytes.{Memory, store}
use tiny_libc.Printf.Output.{OutFct}
use tiny_libc.Printf.Format.{Arg}
use tiny_libc.Prelude.Int.{ℤ}
use tiny_libc.Printf.Double.{Doubles}
use tiny_libc.Printf.Convert.{Outcome, print_formatted}
use tiny_libc.Stdio.Output.{Sink, out_file}

-- `if (idx < maxlen) ((char*)buffer)[idx] = character`
abbrev pub out_buffer : ℕ → OutFct Memory
out_buffer buffer character idx maxlen m =
    if ltb idx maxlen then store m (buffer + idx) character else m

-- A file that a call never returned from stays so.
abbrev pub state_after : Option (Unit {0} × Sink) → Option Sink
state_after none = none
state_after (some (u, s)) = some s

abbrev pub out_sink : OutFct (Option Sink)
out_sink character idx maxlen none = none
out_sink character idx maxlen (some s) = state_after (out_file character s)

pub vsnprintf :
    {D : Type 0} (doubles : Doubles D)
    → ℕ
    → ℕ
    → List ℕ
    → List (Arg D)
    → Memory
    → Outcome (ℤ × Memory)
vsnprintf doubles buffer count fmt va m =
    print_formatted (buffer == 0) (out_buffer buffer) count doubles fmt va m

-- `maxlen` is `(size_t)-1`.
pub vfprintf :
    {D : Type 0} (doubles : Doubles D) → List ℕ → List (Arg D) → Sink → Outcome (ℤ × Option Sink)
vfprintf doubles fmt va s = print_formatted false out_sink (2 ^ 64 - 1) doubles fmt va (some s)
