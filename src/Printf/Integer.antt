-- ===== src/Printf/Integer.antt =====
-- The conversions of integers in libc/src/printf.c.
pub mod Digits
pub mod Decimal
mod Tests
pub mod Printed
use tiny_libc.Prelude.{
  ℕ, zero, suc, ◌+◌, ◌-◌, ◌*◌, ◌/◌, ◌%◌, ◌^◌, Bool, true, false, not, ◌&&◌, ◌||◌, ◌==◌, ltb,
  if◌then◌else◌, List, [], ◌∷◌, length,
}
use tiny_libc.Printf.Output.{Flags, OutFct, Cursor, out_rev}

-- `PRINTF_NTOA_BUFFER_SIZE`
abbrev pub ntoa_buffer_size : ℕ
ntoa_buffer_size = 32

-- `if (len < PRINTF_NTOA_BUFFER_SIZE) buf[len++] = c`, where the list is the `len` characters of
-- `buf`, the last one first.
abbrev pub push : ℕ → List ℕ → List ℕ
push c buf = if ltb (length buf) ntoa_buffer_size then c ∷ buf else buf

-- `while ((len < bound) && (len < PRINTF_NTOA_BUFFER_SIZE)) buf[len++] = '0'`
unfoldable pub pad_zeros : ℕ → ℕ → List ℕ → List ℕ
pad_zeros zero bound buf = buf
pad_zeros (suc fuel) bound buf =
    let next = pad_zeros fuel bound (b'0' ∷ buf) in
    if ltb (length buf) bound && ltb (length buf) ntoa_buffer_size then next else buf

-- `len--`
abbrev pub pop : List ℕ → List ℕ
pop [] = []
pop (c ∷ buf) = buf

abbrev pub is_empty : List ℕ → Bool
is_empty [] = true
is_empty (c ∷ buf) = false

-- The width that is left for digits when zeros fill it.
abbrev pub sign_width : Bool → ℕ → Flags → ℕ
sign_width negative width flags =
    if (if width == 0 then false else flags.zeropad) && (negative || (flags.plus || flags.space))
    then width - 1
    else width

-- `if (!(flags & FLAGS_LEFT))`: the zeros that the precision and the width ask for.
abbrev pub add_zeros : List ℕ → ℕ → ℕ → Flags → List ℕ
add_zeros buf prec width flags =
    let padded = pad_zeros ntoa_buffer_size prec buf in
    if flags.left
    then buf
    else if flags.zeropad
    then pad_zeros ntoa_buffer_size width padded
    else padded

-- The zeros that make room for the prefix.
abbrev pub drop_zeros : List ℕ → ℕ → ℕ → ℕ → Flags → List ℕ
drop_zeros buf base prec width flags =
    if flags.precision
      || (if is_empty buf
          then true
          else if length buf == prec
          then false
          else if length buf == width
          then false
          else true)
    then buf
    else if (if is_empty (pop buf) then false else base == 16)
    then pop (pop buf)
    else pop buf

-- The letter of the prefix.
abbrev pub add_letter : List ℕ → ℕ → Flags → List ℕ
add_letter buf base flags =
    if base == 16 && (if flags.uppercase then false else ltb (length buf) ntoa_buffer_size)
    then b'x' ∷ buf
    else if base == 16 && (flags.uppercase && ltb (length buf) ntoa_buffer_size)
    then b'X' ∷ buf
    else if base == 2 && ltb (length buf) ntoa_buffer_size
    then b'b' ∷ buf
    else buf

-- `if (flags & FLAGS_HASH)`
abbrev pub add_prefix : List ℕ → ℕ → ℕ → ℕ → Flags → List ℕ
add_prefix buf base prec width flags =
    if flags.hash
    then push b'0' (add_letter (drop_zeros buf base prec width flags) base flags)
    else buf

abbrev pub add_sign : List ℕ → Bool → Flags → List ℕ
add_sign buf negative flags =
    if negative
    then push b'-' buf
    else if flags.plus
    then push b'+' buf
    else if flags.space
    then push b' ' buf
    else buf

-- What `_ntoa_format` makes of the buffer.
pub format_buffer : List ℕ → Bool → ℕ → ℕ → ℕ → Flags → List ℕ
format_buffer buf negative base prec width flags =
    add_sign (add_prefix (add_zeros buf prec width flags) base prec width flags) negative flags

-- The character of a digit.
abbrev pub digit_char : ℕ → Flags → ℕ
digit_char digit flags =
    if ltb digit 10 then b'0' + digit else (if flags.uppercase then b'A' else b'a') + digit - 10

-- `do { … value /= base; } while (value && (len < PRINTF_NTOA_BUFFER_SIZE))`
pub put_digits : ℕ → ℕ → ℕ → Flags → List ℕ → List ℕ
put_digits zero value base flags buf = buf
put_digits (suc fuel) value base flags buf =
    let next = put_digits fuel (value / base) base flags (digit_char (value % base) flags ∷ buf) in
    if value / base == 0 || (if ltb (suc (length buf)) ntoa_buffer_size then false else true)
    then digit_char (value % base) flags ∷ buf
    else next

-- `if (!value) flags &= ~FLAGS_HASH`
abbrev pub hash_flags : ℕ → Flags → Flags
hash_flags value flags = if value == 0 then record flags { hash = false } else flags

abbrev pub digits : ℕ → ℕ → Flags → List ℕ
digits value base flags =
    if flags.precision && value == 0 then [] else put_digits ntoa_buffer_size value base flags []

module _ {S : Type 0} (out : OutFct S) (maxlen : ℕ) where
  pub ntoa_format : List ℕ → Bool → ℕ → ℕ → ℕ → Flags → Cursor S → Cursor S
  ntoa_format buf negative base prec width flags k =
      let width' = if flags.left then width else sign_width negative width flags in
      out_rev out maxlen (format_buffer buf negative base prec width' flags) width' flags k

  pub ntoa_long : ℕ → Bool → ℕ → ℕ → ℕ → Flags → Cursor S → Cursor S
  ntoa_long value negative base prec width flags k =
      ntoa_format (digits value base (hash_flags value flags)) negative base prec width
        (hash_flags value flags) k

  -- `long long` is as wide as `long`, and the body is the same.
  pub ntoa_long_long : ℕ → Bool → ℕ → ℕ → ℕ → Flags → Cursor S → Cursor S
  ntoa_long_long value negative base prec width flags k =
      ntoa_format (digits value base (hash_flags value flags)) negative base prec width
        (hash_flags value flags) k
