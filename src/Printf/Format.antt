-- ===== src/Printf/Format.antt =====
-- The parser of a conversion in libc/src/printf.c, and the conversions that it selects. A format is
-- the list of its bytes before the terminator. `none` is undefined behaviour: an argument that is
-- missing or of another type.
pub mod Shorter
use tiny_libc.Prelude.{
  ℕ, zero, suc, ◌+◌, ◌-◌, ◌*◌, ◌/◌, ◌%◌, ◌^◌, Bool, true, false, ◌&&◌, ◌||◌, ◌==◌, ltb, leb, min,
  if◌then◌else◌, List, [], ◌∷◌, Option, none, some, length, take, head_or, drop,
}
use tiny_libc.Prelude.Options.{◌>>=◌}
use tiny_libc.Printf.Output.{Flags, no_flags, OutFct, Cursor, put_char, put_list, put_spaces}
use tiny_libc.Printf.Integer.{ntoa_long, ntoa_long_long}

-- An argument: a number or a pointer by its bits, a string, or a `double`.
pub data Arg (D : Type 0) : Type 0 where
  number : ℕ → Arg D
  string : List ℕ → Arg D
  double : D → Arg D

-- The variables of a conversion.
pub record Conversion (D : Type 0) : Type 0 where
  pub flags : Flags
  pub width : ℕ
  pub precision : ℕ
  pub format : List ℕ
  pub args : List (Arg D)

-- `_is_digit`
abbrev pub is_digit : ℕ → Bool
is_digit ch = leb b'0' ch && leb ch b'9'

-- `_atoi`, from the value so far.
unfoldable pub read_number : ℕ → List ℕ → ℕ × List ℕ
read_number i [] = (i, [])
read_number i (c ∷ str) =
    let next = read_number ((i * 10 + (c - b'0')) % 2 ^ 32) str in
    if is_digit c then next else (i, c ∷ str)

-- The `switch` of the flags loop: whether `n` becomes 1, and the flag that the character sets.
abbrev pub is_flag : ℕ → Bool
is_flag c = c == b'0' || c == b'-' || c == b'+' || c == b' ' || c == b'#'

abbrev pub set_flag : ℕ → Flags → Flags
set_flag c flags =
    if c == b'0'
    then record flags { zeropad = true }
    else if c == b'-'
    then record flags { left = true }
    else if c == b'+'
    then record flags { plus = true }
    else if c == b' '
    then record flags { space = true }
    else if c == b'#'
    then record flags { hash = true }
    else flags

unfoldable pub read_flags : List ℕ → Flags → Flags × List ℕ
read_flags [] flags = (flags, [])
read_flags (c ∷ format) flags =
    let next = read_flags format (set_flag c flags) in
    if is_flag c then next else (flags, c ∷ format)

-- The `int` of these 32 bits is negative.
abbrev pub is_negative : ℕ → ℕ → Bool
is_negative bits n = leb (2 ^ (bits - 1)) (n % 2 ^ bits)

-- `value > 0 ? value : 0 - value`
abbrev pub magnitude : ℕ → ℕ → ℕ
magnitude bits n = if is_negative bits n then 2 ^ bits - n % 2 ^ bits else n % 2 ^ bits

module _ {D : Type 0} where
  -- `va_arg` of an integer or a pointer.
  abbrev pub next_number : List (Arg D) → Option (ℕ × List (Arg D))
  next_number (number n ∷ args) = some (n, args)
  next_number _ = none

  abbrev pub next_string : List (Arg D) → Option (List ℕ × List (Arg D))
  next_string (string s ∷ args) = some (s, args)
  next_string _ = none

  abbrev pub next_double : List (Arg D) → Option (D × List (Arg D))
  next_double (double x ∷ args) = some (x, args)
  next_double _ = none

  -- `const int w = va_arg(va, int)` and what the width makes of it.
  unfoldable pub star_width : Conversion D → Option (ℕ × List (Arg D)) → Option (Conversion D)
  star_width v none = none
  star_width v (some (w, args)) = some (record v {
    flags = (if is_negative 32 w then record v.flags { left = true } else v.flags);
    width = magnitude 32 w;
    format = drop 1 v.format;
    args = args;
  })

  -- `width = 0U; if (_is_digit(*format)) …`
  unfoldable pub read_width : Conversion D → Option (Conversion D)
  read_width v =
      let (n, rest) = read_number 0 v.format in
      let star = star_width v (next_number v.args) in
      if is_digit (head_or 0 v.format)
      then some (record v { width = n; format = rest })
      else if head_or 0 v.format == b'*'
      then star
      else some (record v { width = 0 })

  -- `const int prec = (int)va_arg(va, int)` and what the precision makes of it.
  unfoldable pub star_precision : Conversion D → Option (ℕ × List (Arg D)) → Option (Conversion D)
  star_precision v none = none
  star_precision v (some (p, args)) = some (record v {
    precision = (if is_negative 32 p then 0 else p % 2 ^ 32);
    format = drop 1 v.format;
    args = args;
  })

  -- What follows the point of a precision.
  unfoldable pub read_digits : Conversion D → Option (Conversion D)
  read_digits v =
      let (n, rest) = read_number 0 v.format in
      let star = star_precision v (next_number v.args) in
      if is_digit (head_or 0 v.format)
      then some (record v { precision = n; format = rest })
      else if head_or 0 v.format == b'*'
      then star
      else some v

  -- `precision = 0U; if (*format == '.') …`
  unfoldable pub read_precision : Conversion D → Option (Conversion D)
  read_precision v =
      let point = read_digits (record v {
        flags = record v.flags { precision = true };
        precision = 0;
        format = drop 1 v.format;
      }) in
      if head_or 0 v.format == b'.' then point else some (record v { precision = 0 })

  -- The `switch` of the length field. `ptrdiff_t`, `intmax_t` and `size_t` are as wide as `long`.
  unfoldable pub read_length : Conversion D → Conversion D
  read_length v =
      let c = head_or 0 v.format in
      let rest = drop 1 v.format in
      let again = head_or 0 rest == c in
      if c == b'l'
      then record v {
        flags = record v.flags { long = true; long_long = again || v.flags.long_long };
        format = if again then drop 1 rest else rest;
      }
      else if c == b'h'
      then record v {
        flags = record v.flags { short = true; char = again || v.flags.char };
        format = if again then drop 1 rest else rest;
      }
      else if c == b't' || c == b'j' || c == b'z'
      then record v { flags = record v.flags { long = true }; format = rest }
      else v

  -- From the `%` on to the specifier.
  unfoldable pub read_conversion : List ℕ → List (Arg D) → Option (Conversion D)
  read_conversion format args = do
    let (flags, rest) = read_flags format no_flags
    v ← read_width (record { flags = flags; width = 0; precision = 0; format = rest; args = args })
    w ← read_precision v
    some (read_length w)
