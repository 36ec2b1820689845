-- ===== src/Printf/Convert/Decimal.antt =====
-- What `_vsnprintf` of libc/src/printf.c writes for the format "%d".
use tiny_libc.Prelude.{ℕ, ◌≡◌, arith, false, List, [], ◌∷◌}
use tiny_libc.Printf.Output.{OutFct, put_list}
use tiny_libc.Printf.Integer.Decimal.{decimal, ntoa_long-decimal}
use tiny_libc.Printf.Format.{
  number, is_negative, magnitude, read_number, read_flags, read_width, read_digits, read_precision,
  read_length, read_conversion,
}
use tiny_libc.Prelude.Int.{to_int}
use tiny_libc.Printf.Double.{Doubles}
use tiny_libc.Printf.Convert.{
  printed, convert_integer, convert, specifier, print_all, print_format, print_formatted, terminate,
}

abbrev pub int_format : List ℕ
int_format = b'%' ∷ b'd' ∷ []

-- The text of the `int` with these bits.
abbrev pub int_text : ℕ → List ℕ
int_text n = decimal (is_negative 32 n) (magnitude 32 n)

-- "%d" writes the decimal text of an `int`, whatever the output goes to.
pub print_formatted-int :
    {D S : Type 0} (out : OutFct S) (maxlen : ℕ) (doubles : Doubles D) (n : ℕ) (s : S)
    → print_formatted false out maxlen doubles int_format (number n ∷ []) s ≡ (
        let k = put_list out maxlen (int_text n) (record { idx = 0; written = s }) in
        printed (to_int k.idx, terminate out maxlen k))
unfolding print_formatted print_format print_all specifier convert convert_integer read_conversion
    read_flags read_width read_precision read_length read_number read_digits
print_formatted-int out maxlen doubles n s = rw (
    ntoa_long-decimal out maxlen (magnitude 32 n) (is_negative 32 n)
      (record { idx = 0; written = s }) (ground arith))
