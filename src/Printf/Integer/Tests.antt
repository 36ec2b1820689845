-- ===== src/Printf/Integer/Tests.antt =====
-- Runs of the integer conversions of libc/src/printf.c, and the theorem on digits at a number.
use tiny_libc.Prelude.{◌≡◌, refl, arith, true, false, [], ◌∷◌, ◌^◌}
use tiny_libc.Printf.Output.{no_flags}
use tiny_libc.Printf.Integer.{put_digits, pad_zeros, digits, format_buffer}
use tiny_libc.Printf.Integer.Digits.{number_value, digits-value}

-- %#x of 255
hex :
    format_buffer (digits 255 16 no_flags) false 16 0 0 (record no_flags { hash = true })
    ≡ b'0' ∷ b'x' ∷ b'f' ∷ b'f' ∷ []
unfolding format_buffer put_digits pad_zeros
hex = refl

-- %05d of -42, where the sign takes one of the five places
zero_padded :
    format_buffer (digits 42 10 no_flags) true 10 0 4 (record no_flags { zeropad = true })
    ≡ b'-' ∷ b'0' ∷ b'0' ∷ b'4' ∷ b'2' ∷ []
unfolding format_buffer put_digits pad_zeros
zero_padded = refl

-- %b has room for 32 digits: the bit above them is lost.
binary_cut : number_value 2 0 (digits (2 ^ 32) 2 no_flags) ≡ 0
unfolding put_digits
binary_cut = refl

digits-value_example : number_value 16 0 (digits 48879 16 no_flags) ≡ 48879
digits-value_example = digits-value 48879 16 no_flags (omega arith) (omega arith) (omega arith)
