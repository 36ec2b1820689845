-- ===== src/Stdio/Input.antt =====
-- The functions of libc/src/stdio.c that read. Proofs are in the modules below.
pub mod Fill
pub mod Get
use tiny_libc.Prelude.{
  ℕ, zero, suc, ◌+◌, ◌-◌, ◌*◌, ◌/◌, ◌%◌, ◌^◌, min, Bool, true, false, Option, none, some, List, [],
  ◌∷◌, ◌++◌, ◌==◌, ◌||◌, if◌then◌else◌, length, take, drop, head_or,
}
use tiny_libc.Prelude.Bytes.{Memory, write_at}
use tiny_libc.Prelude.Int.{ℤ, pos, eof}
use tiny_libc.Stdio.Types.{Buffer, used}

-- The kernel's answer to a `read`: it gives at most so many bytes, or it fails.
pub data Answer : Type 0 where
  gives : ℕ → Answer
  fails : Answer

-- The input buffer of a file, the answers that the kernel will give to the reads on its descriptor,
-- and the bytes that it has not given yet. With no answers left a read never returns.
pub record Source : Type 0 where
  pub buffer : Buffer
  pub answers : List Answer
  pub unread : List ℕ

-- How many bytes a read of the whole buffer gets.
abbrev pub got : Buffer → List ℕ → ℕ → ℕ
got b unread n = min n (min b.size (length unread))

-- `used->start = used->end = fp->in.allocated.start; r = read(…); if (r <= 0) return 0;
-- used->end += r`. The result is whether there are bytes.
pub refill : List Answer → Buffer → List ℕ → Option (Bool × Source)
refill [] b unread = none
refill (fails ∷ rest) b unread =
    some
      (false, record { buffer = record b { start = 0; end = 0 }; answers = rest; unread = unread })
refill (gives n ∷ rest) b unread =
    let r = got b unread n in
    if r == 0
    then some (
      false,
      record { buffer = record b { start = 0; end = 0 }; answers = rest; unread = unread },
    )
    else some (
      true,
      record {
        buffer = record b { bytes = write_at b.bytes 0 (take r unread); start = 0; end = r };
        answers = rest;
        unread = drop r unread;
      },
    )

-- `char c = *used->start++`
abbrev pub advance : Source → Source
advance s = record s { buffer = record s.buffer { start = s.buffer.start + 1 } }

abbrev pub current : Source → ℕ
current s = s.buffer.bytes s.buffer.start

-- What a call returns: its result, the bytes that it stored at `buf`, and the new state.
pub record Got : Type 0 where
  pub count : ℕ
  pub stored : List ℕ
  pub after : Source

-- The loop of `fgetbuf_unlocked` at index `i`, with `left` rounds to go.
get_all : ℕ → ℕ → Source → Got
get_all zero i s = record { count = i; stored = []; after = s }
get_all (suc left) i s =
    let rest = get_all left (i + 1) (advance s) in
    if (current s == b'\n') || (s.buffer.start + 1 == s.buffer.end)
    then record { count = i + 1; stored = current s ∷ []; after = advance s }
    else record rest { stored = current s ∷ rest.stored }

after_refill : ℕ → Option (Bool × Source) → Option Got
after_refill n none = none
after_refill n (some (false, s)) = some (record { count = 0; stored = []; after = s })
after_refill n (some (true, s)) = some (get_all n 0 s)

unfoldable pub fgetbuf_unlocked : ℕ → Source → Option Got
unfolding refill after_refill get_all
fgetbuf_unlocked n s =
    if s.buffer.start == s.buffer.end
    then after_refill n (refill s.answers s.buffer s.unread)
    else some (get_all n 0 s)

-- `fgetc` of what `fgetbuf_unlocked` returned: a byte as an `unsigned char`, or EOF.
fgetc_result : Option Got → Option (ℤ × Source)
fgetc_result none = none
fgetc_result (some g) = some (if g.count == 0 then eof else pos (head_or 0 g.stored % 256), g.after)

unfoldable pub fgetc : Source → Option (ℤ × Source)
unfolding fgetbuf_unlocked fgetc_result
fgetc s = fgetc_result (fgetbuf_unlocked 1 s)

-- `n / size` has no value where the size is zero.
fread_result : ℕ → Option Got → Option (Option ℕ × Got)
fread_result size none = none
fread_result size (some g) = some (if size == 0 then none else some (g.count / size), g)

unfoldable pub fread : ℕ → ℕ → Source → Option (Option ℕ × Got)
unfolding fgetbuf_unlocked fread_result
fread size count s = fread_result size (fgetbuf_unlocked (size * count % 2 ^ 64) s)
