-- ===== src/Printf/Convert/Tests.antt =====
-- A run of `_vsnprintf` of libc/src/printf.c with the conversions of doubles that it calls.
use tiny_libc.Prelude.{ℕ, ◌≡◌, refl, false, List, [], ◌∷◌, ◌++◌}
use tiny_libc.Prelude.Int.{pos}
use tiny_libc.Printf.Output.{OutFct, out_rev, put_list, put_spaces}
use tiny_libc.Printf.Format.{
  string, double, read_number, read_flags, read_width, read_digits, read_precision, read_length,
  read_conversion,
}
use tiny_libc.Printf.Double.{
  number_text, special_text, limit_precision, finish_number, round_parts, pow10, put_decimals,
  put_fraction, put_zeros, put_whole,
}
use tiny_libc.Printf.Double.Scientific.{ftoa}
use tiny_libc.Printf.Double.Tests.{thousandths}
use tiny_libc.Printf.Convert.{
  printed, undefined, convert, convert_string, convert_fixed, specifier, print_all, print_format,
  print_formatted,
}

abbrev collect : OutFct (List ℕ)
collect character idx maxlen text = text ++ character ∷ []

-- "%3s%.1f", of "a" and 2.5, with the terminator behind.
mixed_run :
    print_formatted false collect 20 thousandths
      (b'%' ∷ b'3' ∷ b's' ∷ b'%' ∷ b'.' ∷ b'1' ∷ b'f' ∷ [])
      (string (b'a' ∷ []) ∷ double 2500 ∷ [])
      []
    ≡ printed (pos 6, b' ' ∷ b' ' ∷ b'a' ∷ b'2' ∷ b'.' ∷ b'5' ∷ 0 ∷ [])
unfolding print_formatted print_format print_all specifier convert convert_string convert_fixed
    read_conversion read_flags read_width read_precision read_length read_number read_digits out_rev
    put_list put_spaces ftoa number_text special_text limit_precision finish_number round_parts
    pow10 put_decimals put_fraction put_zeros put_whole
mixed_run = refl

-- "%.60f" reads behind the table of powers.
past_table_run :
    print_formatted false collect 20 thousandths
      (b'%' ∷ b'.' ∷ b'6' ∷ b'0' ∷ b'f' ∷ [])
      (double 2500 ∷ [])
      []
    ≡ undefined
unfolding print_formatted print_format print_all specifier convert convert_fixed read_conversion
    read_flags read_width read_precision read_length read_number read_digits ftoa number_text
    special_text limit_precision pow10
past_table_run = refl
