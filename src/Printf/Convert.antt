-- ===== src/Printf/Convert.antt =====
-- The specifiers of a conversion in libc/src/printf.c, and `_vsnprintf`.
pub mod Printed
pub mod Decimal
mod Tests
use tiny_libc.Prelude.{
  ℕ, zero, suc, ◌+◌, ◌-◌, ◌*◌, ◌/◌, ◌%◌, ◌^◌, Bool, true, false, ◌&&◌, ◌||◌, ◌==◌, ltb, leb, min,
  if◌then◌else◌, List, [], ◌∷◌, Option, none, some, length, take, head_or, drop,
}
use tiny_libc.Prelude.Options.{◌>>=◌}
use tiny_libc.Printf.Output.{
  Flags, no_flags, OutFct, out_null, Cursor, put_char, put_list, put_spaces,
}
use tiny_libc.Prelude.Int.{ℤ, to_int}
use tiny_libc.Printf.Double.{Doubles}
use tiny_libc.Printf.Double.Scientific.{ftoa, etoa}
use tiny_libc.Printf.Integer.{ntoa_long, ntoa_long_long}
use tiny_libc.Printf.Format.{
  Arg, Conversion, next_number, next_string, next_double, is_negative, magnitude, read_conversion,
}

-- `%d` and `%i`
abbrev pub is_signed : ℕ → Bool
is_signed c = c == b'd' || c == b'i'

abbrev pub is_integer : ℕ → Bool
is_integer c = is_signed c || c == b'u' || c == b'x' || c == b'X' || c == b'o' || c == b'b'

abbrev pub is_fixed : ℕ → Bool
is_fixed c = c == b'f' || c == b'F'

abbrev pub is_exponential : ℕ → Bool
is_exponential c = c == b'e' || c == b'E' || c == b'g' || c == b'G'

abbrev pub base_of : ℕ → ℕ
base_of c =
    if c == b'x' || c == b'X' then 16 else if c == b'o' then 8 else if c == b'b' then 2 else 10

-- The flags that an integer conversion goes by.
abbrev pub integer_flags : ℕ → Flags → Flags
integer_flags c flags = record flags {
  hash = if base_of c == 10 then false else flags.hash;
  uppercase = (c == b'X') || flags.uppercase;
  plus = if is_signed c then flags.plus else false;
  space = if is_signed c then flags.space else false;
  zeropad = if flags.precision then false else flags.zeropad;
}

-- The bits of the type that the length field names.
abbrev pub bits_of : Flags → ℕ
bits_of flags =
    if flags.long_long || flags.long
    then 64
    else if flags.char
    then 8
    else if flags.short
    then 16
    else 32

-- The loop of `_strnlen_s`, which counts the characters.
abbrev pub count_chars : List ℕ → ℕ → ℕ
count_chars [] maxsize = 0
count_chars (c ∷ s) zero = 0
count_chars (c ∷ s) (suc maxsize) = suc (count_chars s maxsize)

-- `_strnlen_s`, which returns an `unsigned int`.
abbrev pub strnlen_s : List ℕ → ℕ → ℕ
strnlen_s s maxsize = count_chars s maxsize % 2 ^ 32

-- How deep `_ftoa` and `_etoa` may call each other: `_ftoa` of a large value calls `_etoa`, which calls
-- `_ftoa` with a value that is not.
abbrev pub double_calls : ℕ
double_calls = 3

pub data Outcome (A : Type 0) : Type 0 where
  printed : A → Outcome A
  -- An argument that is missing, a read past the terminator or past the table of `_ftoa`, or more than
  -- `double_calls` calls.
  undefined : Outcome A
  stuck : Outcome A  -- out of fuel

module _ {S : Type 0} (out : OutFct S) (maxlen : ℕ) where
  -- `out((char)0, buffer, idx < maxlen ? idx : maxlen - 1U, maxlen)`
  abbrev pub terminate : Cursor S → S
  terminate k =
      out 0 (if ltb k.idx maxlen then k.idx else (maxlen + 2 ^ 64 - 1) % 2 ^ 64) maxlen k.written

  -- `return (int)idx`
  abbrev finish : Outcome (Cursor S) → Outcome (ℤ × S)
  finish (printed k) = printed (to_int k.idx, terminate k)
  finish undefined = undefined
  finish stuck = stuck

module _ {D S : Type 0} (out : OutFct S) (maxlen : ℕ) (doubles : Doubles D) where
  pub convert_integer : ℕ → Conversion D → Cursor S → Option (List (Arg D) × Cursor S)
  convert_integer c v k = do
    (n, args) ← next_number v.args
    let flags = integer_flags c v.flags
    let bits = bits_of flags
    let value = if is_signed c then magnitude bits n else n % 2 ^ bits
    let negative = if is_signed c then is_negative bits n else false
    some (
      args,
      (if flags.long_long
          then ntoa_long_long out maxlen value negative (base_of c) v.precision v.width flags k
          else ntoa_long out maxlen value negative (base_of c) v.precision v.width flags k),
    )

  -- `case 'c'`, where `l` is 1 at first.
  pub convert_char : Conversion D → Cursor S → Option (List (Arg D) × Cursor S)
  convert_char v k = do
    (n, args) ← next_number v.args
    let before = if v.flags.left then k else put_spaces out maxlen (v.width - 1) k
    let after = put_char out maxlen (n % 2 ^ 8) before
    some (args, (if v.flags.left then put_spaces out maxlen (v.width - 1) after else after))

  -- `case 's'`
  pub convert_string : Conversion D → Cursor S → Option (List (Arg D) × Cursor S)
  convert_string v k = do
    (p, args) ← next_string v.args
    let n = strnlen_s p (if v.precision == 0 then 2 ^ 64 - 1 else v.precision)
    let l = if v.flags.precision then (if ltb n v.precision then n else v.precision) else n
    let before = if v.flags.left then k else put_spaces out maxlen (v.width - l) k
    let after = put_list out maxlen (if v.flags.precision then take v.precision p else p) before
    some (args, (if v.flags.left then put_spaces out maxlen (v.width - l) after else after))

  -- `case 'p'`
  pub convert_pointer : Conversion D → Cursor S → Option (List (Arg D) × Cursor S)
  convert_pointer v k = do
    (n, args) ← next_number v.args
    some (
      args,
      ntoa_long_long out maxlen (n % 2 ^ 64) false 16 v.precision 16
          (record v.flags { zeropad = true; uppercase = true }) k,
    )

  -- `case 'f'` and `case 'F'`
  pub convert_fixed : ℕ → Conversion D → Cursor S → Option (List (Arg D) × Cursor S)
  convert_fixed c v k = do
    (x, args) ← next_double v.args
    let flags = record v.flags { uppercase = (c == b'F') || v.flags.uppercase }
    k' ← ftoa doubles out maxlen double_calls x v.precision v.width flags k
    some (args, k')

  -- `case 'e'`, `case 'E'`, `case 'g'` and `case 'G'`
  pub convert_exponential : ℕ → Conversion D → Cursor S → Option (List (Arg D) × Cursor S)
  convert_exponential c v k = do
    (x, args) ← next_double v.args
    let flags = record v.flags {
      adapt_exp = (c == b'g' || c == b'G') || v.flags.adapt_exp;
      uppercase = (c == b'E' || c == b'G') || v.flags.uppercase;
    }
    k' ← etoa doubles out maxlen double_calls x v.precision v.width flags k
    some (args, k')

  -- The `switch` on the specifier.
  pub convert : ℕ → Conversion D → Cursor S → Option (List (Arg D) × Cursor S)
  convert c v k =
      if is_integer c
      then convert_integer c v k
      else if is_fixed c
      then convert_fixed c v k
      else if is_exponential c
      then convert_exponential c v k
      else if c == b'c'
      then convert_char v k
      else if c == b's'
      then convert_string v k
      else if c == b'p'
      then convert_pointer v k
      else some (v.args, put_char out maxlen c k)

  -- After the length field. A format that ends here has its terminator printed, and is read past it.
  pub specifier : List ℕ → Conversion D → Cursor S → Option (List ℕ × List (Arg D) × Cursor S)
  specifier [] v k = none
  specifier (c ∷ rest) v k = convert c v k >>= λ (args, k'). some (rest, args, k')

  -- `while (*format)`
  unfoldable pub print_all : ℕ → List ℕ → List (Arg D) → Cursor S → Outcome (Cursor S)
  print_all zero format args k = stuck
  print_all (suc fuel) [] args k = printed k
  print_all (suc fuel) (c ∷ format) args k =
      let plain = print_all fuel format args (put_char out maxlen c k) in
      let converted : Outcome (Cursor S) =
        elim (read_conversion format args >>= λ v. specifier v.format v k) [
          | none ↦ undefined
          | some (rest, args', k') ↦ print_all fuel rest args' k'
        ] in
      if c == b'%' then converted else plain

  -- `_vsnprintf` after the choice of the output function: what it returns, and what is written.
  unfoldable pub print_format : List ℕ → List (Arg D) → S → Outcome (ℤ × S)
  print_format format args s =
      finish out maxlen
        (print_all (suc (length format)) format args (record { idx = 0; written = s }))

-- `_vsnprintf`: whether the buffer is null decides on the output function.
unfoldable pub print_formatted :
    {D S : Type 0} → Bool → OutFct S → ℕ → Doubles D → List ℕ → List (Arg D) → S → Outcome (ℤ × S)
print_formatted is_null out maxlen doubles format args s =
    if is_null
    then print_format out_null maxlen doubles format args s
    else print_format out maxlen doubles format args s
