-- ===== src/Stdio/Formatted/File.antt =====
-- What `vfprintf` of libc/src/stdio.c puts on a file.
use mathlib.Core.List.{append-nil, append_assoc}
use native.Mathlib.Nat.{zero-add}
use tiny_libc.Prelude.{
  ℕ, suc, ◌+◌, ◌-◌, ◌^◌, ◌≡◌, refl, sym, ap, ◌∙◌, arith, Option, some, List, [], ◌∷◌, ◌++◌, length,
}
use tiny_libc.Printf.Output.{Cursor, put_list}
use tiny_libc.Printf.Format.{Arg}
use tiny_libc.Prelude.Int.{to_int}
use tiny_libc.Printf.Output.Text.{put_list-idx}
use tiny_libc.Printf.Double.{Doubles}
use tiny_libc.Printf.Convert.{printed, terminate, print_all, print_format, print_formatted}
use tiny_libc.Printf.Convert.Printed.{Ends-print_all}
use tiny_libc.Stdio.Types.{IsValid}
use tiny_libc.Stdio.Output.{Sink, out_file, ◌>>=◌}
use tiny_libc.Stdio.Output.Flush.{stream}
use tiny_libc.Stdio.Output.Strings.{accepts_all}
use tiny_libc.Stdio.Output.Progress.{Enough, fputbuf_unlocked-Enough}
use tiny_libc.Stdio.Formatted.{out_sink, state_after, vfprintf}

-- The file has taken the text, and can take k bytes more.
record Taken (s : Sink) (k : ℕ) (text : List ℕ) (o : Option Sink) : Type 0 where
  after : Sink
  returned : o ≡ some after
  valid : IsValid after.buffer
  enough : Enough k after
  all : stream after ≡ stream s ++ text

Taken-out_sink :
    (c k idx maxlen : ℕ) (s : Sink)
    → IsValid s.buffer
    → Enough (1 + k) s
    → Taken s k (c ∷ []) (out_sink c idx maxlen (some s))
unfolding out_file
Taken-out_sink c k idx maxlen s v h =
    let (t, e, left) = fputbuf_unlocked-Enough k (c ∷ []) s h in
    let (all, valid) = accepts_all (c ∷ []) s t v e in
    record {
      after = t;
      returned = ap (λ r. state_after (r >>= λ _ s'. some (tt, s'))) e;
      valid = valid;
      enough = left;
      all = all;
    }

one_more :
    (k : ℕ) (text : List ℕ) (s : Sink)
    → Enough (suc (length text) + k) s
    → Enough (1 + (length text + k)) s
one_more k text s h = record { willing = h.willing; answers_left = omega (arith, h.answers_left) }

Taken-put_list :
    (text : List ℕ) (k idx maxlen : ℕ) (s : Sink)
    → IsValid s.buffer
    → Enough (length text + k) s
    → Taken s k text
        (put_list out_sink maxlen text (record { idx = idx; written = some s })).written
unfolding put_list
Taken-put_list [] k idx maxlen s v h = record {
  after = s;
  returned = refl;
  valid = v;
  enough = rw (zero-add k) at h;
  all = sym (append-nil (stream s));
}
Taken-put_list (c ∷ text) k idx maxlen s v h =
    let first = Taken-out_sink c (length text + k) idx maxlen s v (one_more k text s h) in
    let rest = Taken-put_list text k (idx + 1) maxlen first.after first.valid first.enough in
    record {
      after = rest.after;
      returned = rw (put_list, first.returned) rest.returned;
      valid = rest.valid;
      enough = rest.enough;
      all = rest.all ∙ rw first.all (append_assoc (stream s) (c ∷ []) text);
    }

-- `vfprintf` on a valid file and a kernel that takes bytes, any format, any arguments and any arithmetic
-- of doubles: where the loop of `_vsnprintf` ends with a count of n characters, and the kernel has
-- answers enough for n + 1, it returns n, converted to an `int`, and what it puts behind the stream is
-- a text of n bytes and the terminator, a zero byte.
pub vfprintf-stream :
    {D : Type 0} (doubles : Doubles D) (fmt : List ℕ) (va : List (Arg D)) (s : Sink)
    (k : Cursor (Option Sink))
    → IsValid s.buffer
    → Enough (k.idx + 1) s
    → print_all out_sink
        (2 ^ 64 - 1)
        doubles
        (suc (length fmt))
        fmt
        va
        (record { idx = 0; written = some s })
      ≡ printed k
    → (text : List ℕ) × (t : Sink) × (length text ≡ k.idx)
      × (vfprintf doubles fmt va s ≡ printed (to_int k.idx, some t))
      × (stream t ≡ stream s ++ text ++ 0 ∷ [])
unfolding vfprintf print_formatted print_format
vfprintf-stream doubles fmt va s k v enough e =
    let max = 2 ^ 64 - 1 in
    let p = rw e at (
      Ends-print_all doubles out_sink max (suc (length fmt)) fmt va
        (record { idx = 0; written = some s }) (omega arith)) in
    let n : k.idx ≡ length p.text =
      ap (λ k'. k'.idx) p.done ∙ put_list-idx out_sink max p.text _ ∙ zero-add (length p.text) in
    let first = Taken-put_list p.text 1 0 max s v (rw n at enough) in
    let last = Taken-out_sink 0 0 0 max first.after first.valid first.enough in
    (
      p.text,
      last.after,
      sym n,
      rw e (
          ap (λ o. printed (to_int k.idx, o))
            (ap (λ k'. terminate out_sink max k') p.done
              ∙ ap (out_sink 0 0 max) first.returned
              ∙ last.returned)),
      last.all ∙ rw first.all,
    )
