-- ===== src/Printf/Double.antt =====
-- libc/src/printf.c: _ftoa and _etoa, which print a double. The arithmetic of doubles is a parameter.
pub mod Scientific
pub mod Fraction
pub mod Written
pub mod Calls
pub mod Bounds
pub mod Tests
use tiny_libc.Prelude.{
  ℕ, zero, suc, ◌+◌, ◌-◌, ◌*◌, ◌/◌, ◌%◌, ◌^◌, Bool, true, false, not, ◌&&◌, ◌||◌, ◌==◌, ltb, leb,
  if◌then◌else◌, Option, none, some, List, [], ◌∷◌, length,
}
use tiny_libc.Prelude.Int.{ℤ, pos, negsuc, pos_part, neg_part, neg_ℤ, ◌+ℤ◌, ◌-ℤ◌, ltb_ℤ, to_int}
use tiny_libc.Prelude.Options.{◌>>=◌}
use tiny_libc.Printf.Output.{Flags, no_flags, OutFct, Cursor, put_char, put_spaces, out_rev}
use tiny_libc.Printf.Integer.{push, pad_zeros, ntoa_long}

-- What the functions do with doubles. `literal m e` is m * 10 ^ -e, `truncate` the conversion to an
-- `int`, `truncate_long` the one to an `unsigned long`, and `bits` and `of_bits` the two members of the
-- union.
pub record Doubles (D : Type 0) : Type 0 where
  pub literal : ℕ → ℕ → D
  pub of_int : ℤ → D
  pub of_long : ℕ → D
  pub truncate : D → ℤ
  pub truncate_long : D → ℕ
  pub bits : D → ℕ
  pub of_bits : ℕ → D
  pub dbl_max : D
  pub add : D → D → D
  pub sub : D → D → D
  pub mul : D → D → D
  pub div : D → D → D
  pub neg : D → D
  pub lt : D → D → Bool
  pub le : D → D → Bool
  pub eq : D → D → Bool

-- `PRINTF_FTOA_BUFFER_SIZE`
abbrev pub ftoa_buffer_size : ℕ
ftoa_buffer_size = 32

-- `(count - 1)` of an `unsigned int`.
abbrev pub count_down : ℕ → ℕ
count_down count = (count + 2 ^ 32 - 1) % 2 ^ 32

-- `while ((len < PRINTF_FTOA_BUFFER_SIZE) && (prec > 17U))`
unfoldable pub limit_precision : ℕ → ℕ → List ℕ → ℕ × List ℕ
limit_precision zero prec buf = (prec, buf)
limit_precision (suc fuel) prec buf =
    let rest = limit_precision fuel (prec - 1) (b'0' ∷ buf) in
    if ltb (length buf) ftoa_buffer_size && ltb 17 prec then rest else (prec, buf)

-- The digits of the fractional part, with what is left of `count`.
unfoldable pub put_fraction : ℕ → ℕ → ℕ → List ℕ → ℕ × List ℕ
put_fraction zero count frac buf = (count, buf)
put_fraction (suc fuel) count frac buf =
    let pushed = (48 + frac % 10) ∷ buf in
    let rest = put_fraction fuel (count_down count) (frac / 10) pushed in
    if ltb (length buf) ftoa_buffer_size
    then if frac / 10 == 0 then (count_down count, pushed) else rest
    else (count, buf)

-- `while ((len < PRINTF_FTOA_BUFFER_SIZE) && (count-- > 0U))`
unfoldable pub put_zeros : ℕ → ℕ → List ℕ → List ℕ
put_zeros zero count buf = buf
put_zeros (suc fuel) count buf =
    let rest = put_zeros fuel (count_down count) (b'0' ∷ buf) in
    if ltb (length buf) ftoa_buffer_size && ltb 0 count then rest else buf

-- The digits of the whole part.
unfoldable pub put_whole : ℕ → ℕ → List ℕ → List ℕ
put_whole zero whole buf = buf
put_whole (suc fuel) whole buf =
    let pushed = (48 + whole % 10) ∷ buf in
    let rest = put_whole fuel (whole / 10) pushed in
    if ltb (length buf) ftoa_buffer_size then if whole / 10 == 0 then pushed else rest else buf

-- The `else` branch of `if (prec == 0U)`: fractional part, zeros and the decimal point.
unfoldable pub put_decimals : ℕ → ℕ → List ℕ → List ℕ
put_decimals prec frac buf =
    let digits = put_fraction (suc ftoa_buffer_size) prec frac buf in
    push b'.' (put_zeros (suc ftoa_buffer_size) digits.0 digits.1)

-- From the whole part to the sign.
unfoldable pub finish_number : ℕ → Bool → ℕ → Flags → List ℕ → List ℕ
finish_number whole negative width flags buf =
    let digits = put_whole (suc ftoa_buffer_size) whole buf in
    let room =
      if not (width == 0) && (negative || (flags.plus || flags.space)) then width - 1 else width in
    let padded =
      if not flags.left && flags.zeropad then pad_zeros ftoa_buffer_size room digits else digits in
    if negative
    then push b'-' padded
    else if flags.plus
    then push b'+' padded
    else if flags.space
    then push b' ' padded
    else padded

-- The width that `_out_rev` gets.
abbrev pub out_width : Bool → ℕ → Flags → ℕ
out_width negative width flags =
    if not flags.left
      && (flags.zeropad && (not (width == 0) && (negative || (flags.plus || flags.space))))
    then width - 1
    else width

module _ {D : Type 0} (d : Doubles D) where
  -- `pow10[i]`; the table has 20 entries.
  unfoldable pub pow10 : ℕ → Option D
  pow10 i = if ltb i 20 then some (d.literal (10 ^ i) 0) else none

  abbrev half : D
  half = d.literal 5 1

  abbrev pub is_nan : D → Bool
  is_nan x = not (d.eq x x)

  -- The text of a special value. `_out_rev` gets its characters the last one first, so the strings of the
  -- source are reversed here, as every buffer is.
  unfoldable pub special_text : D → Flags → Option (List ℕ)
  special_text x flags =
      if is_nan x
      then some (b'n' ∷ b'a' ∷ b'n' ∷ [])
      else if d.lt x (d.neg d.dbl_max)
      then some (b'-' ∷ b'i' ∷ b'n' ∷ b'f' ∷ [])
      else if d.lt d.dbl_max x
      then some (if flags.plus then b'+' ∷ b'i' ∷ b'n' ∷ b'f' ∷ [] else b'i' ∷ b'n' ∷ b'f' ∷ [])
      else none

  -- `(value > PRINTF_MAX_FLOAT) || (value < -PRINTF_MAX_FLOAT)`
  abbrev pub is_large : D → Bool
  is_large x = d.lt (d.literal (10 ^ 9) 0) x || d.lt x (d.neg (d.literal (10 ^ 9) 0))

  -- The whole and the fractional part, rounded.
  unfoldable pub round_parts : D → D → ℕ × ℕ
  round_parts value pow =
      let whole = pos_part (d.truncate value) in
      let tmp = d.mul (d.sub value (d.of_int (pos whole))) pow in
      let frac = d.truncate_long tmp in
      let diff = d.sub tmp (d.of_long frac) in
      let next = (frac + 1) % 2 ^ 64 in
      if d.lt half diff
      then (if d.le pow (d.of_long next) then (whole + 1, 0) else (whole, next))
      else if d.lt diff half
      then (whole, frac)
      else if frac == 0 || frac % 2 == 1
      then (whole, next)
      else (whole, frac)

  -- `if (prec == 0U)`: the whole part is rounded again.
  unfoldable pub round_whole : D → ℕ → ℕ
  round_whole value whole =
      let diff = d.sub value (d.of_int (pos whole)) in
      if (not (d.lt diff half) || d.lt half diff) && whole % 2 == 1 then whole + 1 else whole

  -- The characters of a number that is neither special nor large, the last one first. A value is not
  -- negative where it is truncated. `none` is a read behind the end of `pow10`.
  unfoldable pub number_text : D → ℕ → ℕ → Flags → Option (List ℕ)
  number_text x prec width flags =
      let negative = d.lt x (d.literal 0 0) in
      let value = if negative then d.sub (d.literal 0 0) x else x in
      let limited =
        limit_precision (suc ftoa_buffer_size) (if flags.precision then prec else 6) [] in
      pow10 limited.0 >>= λ pow.
      let parts = round_parts value pow in
      some (
        if limited.0 == 0
        then finish_number (round_whole value parts.0) negative width flags limited.1
        else finish_number parts.0 negative width flags (put_decimals limited.0 parts.1 limited.1))
