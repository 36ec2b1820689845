-- ===== src/Stdio/Output.antt =====
-- The functions of libc/src/stdio.c that write. Proofs are in the modules below.
pub mod Flush
pub mod Put
pub mod Progress
pub mod Strings
use tiny_libc.Prelude.{
  ℕ, zero, suc, ◌+◌, ◌-◌, ◌*◌, ◌/◌, ◌%◌, ◌^◌, ◌≡◌, min, Bool, true, false, Option, none, some, List,
  [], ◌∷◌, ◌++◌, ◌==◌, ◌||◌, leb, ltb, if◌then◌else◌, length, take,
}
use tiny_libc.Prelude.Bytes.{Memory, store, slice}
use tiny_libc.Prelude.Int.{ℤ, pos, eof, to_int}
use tiny_libc.Stdio.Types.{Buffer, File, used}

-- The kernel's answer to a `write`: it takes at most so many bytes, or it fails (`__write` maps
-- each error to -1).
pub data Answer : Type 0 where
  takes : ℕ → Answer
  fails : Answer

-- The output buffer of a file, the answers that the kernel will give to the writes on its
-- descriptor, and the bytes that the kernel has taken. With no answers left a write never returns.
pub record Sink : Type 0 where
  pub buffer : Buffer
  pub answers : List Answer
  pub sent : List ℕ

-- A call that returns gives its result and the new state; `none` is a call that never returns.
abbrev pub Call : Type 0 → Type 0
Call A = Option (A × Sink)

infixl 5 ◌>>=◌
abbrev pub ◌>>=◌ : {A B : Type 0} → Call A → (A → Sink → Call B) → Call B
none >>= f = none
some (a, s) >>= f = f a s

-- What holds of each result that a call returns.
abbrev pub Ensures : {A : Type 0} → Call A → (A → Sink → Type 0) → Type 0
Ensures none P = Unit
Ensures (some (a, s)) P = P a s

pub Ensures-weaken :
    {A : Type 0} (m : Call A) (P Q : A → Sink → Type 0)
    → Ensures m P
    → ((a : A) (s : Sink) → P a s → Q a s)
    → Ensures m Q
Ensures-weaken none P Q h k = tt
Ensures-weaken (some (a, s)) P Q h k = k a s h

pub Ensures->>= :
    {A B : Type 0} (m : Call A) (f : A → Sink → Call B) (P : A → Sink → Type 0)
    (Q : B → Sink → Type 0)
    → Ensures m P
    → ((a : A) (s : Sink) → P a s → Ensures (f a s) Q)
    → Ensures (m >>= f) Q
Ensures->>= none f P Q h k = tt
Ensures->>= (some (a, s)) f P Q h k = k a s h

pub Ensures_elim :
    {A : Type 0} (m : Call A) (P : A → Sink → Type 0) {a : A} {s : Sink}
    → Ensures m P
    → m ≡ some (a, s)
    → P a s
Ensures_elim m P h e = rw e at h

-- `used->start = used->end = fp->out.allocated.start`
abbrev reset : Buffer → Buffer
reset b = record b { start = 0; end = 0 }

-- What a write of the used range takes, if the kernel takes at most `n` bytes.
abbrev taken : Buffer → ℕ → ℕ
taken b n = min n (b.end - b.start)

-- The loop of `fflush_unlocked`, by the kernel's answers. The result is whether all went well.
drain : List Answer → Buffer → List ℕ → Call Bool
drain [] b sent =
    if ltb b.start b.end
    then none
    else some (true, record { buffer = reset b; answers = []; sent = sent })
drain (fails ∷ rest) b sent =
    if ltb b.start b.end
    then some (false, record { buffer = b; answers = rest; sent = sent })
    else some (true, record { buffer = reset b; answers = fails ∷ rest; sent = sent })
drain (takes n ∷ rest) b sent =
    let again =
      drain rest (record b { start = b.start + taken b n })
        (sent ++ slice b.bytes b.start (taken b n)) in
    if ltb b.start b.end
    then again
    else some (true, record { buffer = reset b; answers = takes n ∷ rest; sent = sent })

-- `true` stands for 0 and `false` for EOF.
unfoldable pub fflush_unlocked : Sink → Call Bool
unfolding drain
fflush_unlocked s = drain s.answers s.buffer s.sent

-- `*fp->out.used.end++ = c`
abbrev put : Sink → ℕ → Sink
put s c = record s {
  buffer = record s.buffer { bytes = store s.buffer.bytes s.buffer.end c; end = s.buffer.end + 1 };
}

abbrev full : Buffer → Bool
full b = leb b.size b.end

-- The loop of `fputbuf_unlocked` at index `i`. The list is `buf[i..n)`.
put_all : List ℕ → ℕ → Sink → Call ℕ
put_all [] i s = some (i, s)
put_all (c ∷ cs) i s =
    let next = put_all cs (i + 1) in
    if (c == b'\n') || full (put s c).buffer
    then (fflush_unlocked (put s c) >>= λ ok s'. if ok then next s' else some (i + 1, s'))
    else next (put s c)

unfoldable pub fputbuf_unlocked : List ℕ → Sink → Call ℕ
unfolding put_all fflush_unlocked
fputbuf_unlocked cs s =
    if full s.buffer
    then (fflush_unlocked s >>= λ ok s'. if ok then put_all cs 0 s' else some (0, s'))
    else put_all cs 0 s

-- The loop's element `c` is converted to a `char`.
abbrev to_char : ℕ → ℕ
to_char c = c % 256

-- The argument is the bit pattern of an `int`.
unfoldable pub fputc : ℕ → Sink → Call ℤ
unfolding fputbuf_unlocked
fputc c s = fputbuf_unlocked (to_char c ∷ []) s >>= λ n s'.
    some (if n == 0 then eof else pos (to_char c), s')

-- The list is the string, without its terminator, and its length is `strlen(s)`.
unfoldable pub fputs : List ℕ → Sink → Call ℤ
unfolding fputbuf_unlocked
fputs str s = fputbuf_unlocked str s >>= λ n s'.
    if n == 0
    then some (eof, s')
    else (fputbuf_unlocked (b'\n' ∷ []) s' >>= λ m s''.
        some (if m == 0 then eof else to_int (length str + 1), s''))

-- The list is the memory from `buffer` on. The result has no value where `n / size` divides by zero.
unfoldable pub fwrite : List ℕ → ℕ → ℕ → Sink → Call (Option ℕ)
unfolding fputbuf_unlocked
fwrite xs size count s = fputbuf_unlocked (take (size * count % 2 ^ 64) xs) s >>= λ n s'.
    some (if size == 0 then none else some (n / size), s')

-- `_out_file` of `vfprintf`, which ignores the result.
unfoldable pub out_file : ℕ → Sink → Call (Unit {0})
unfolding fputbuf_unlocked
out_file c s = fputbuf_unlocked (c ∷ []) s >>= λ _ s'. some (tt, s')
