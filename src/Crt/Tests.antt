-- ===== src/Crt/Tests.antt =====
-- Runs of the division of libc/src/crt.c, and the theorems at concrete numbers.
use tiny_libc.Prelude.{◌+◌, ◌^◌, ◌/◌, ◌%◌, ◌≡◌, refl, arith, some, none}
use tiny_libc.Prelude.Int.{pos, negsuc}
use tiny_libc.Crt.{
  quotient, get_quotient, get_rem, fix_signs, divide, subtract, halve, clz128, clzll, bit_length,
  udivmodti4, divmodti4, udivti3, modti3,
}
use tiny_libc.Crt.Divide.{udivmodti4-eq-div}
use tiny_libc.Crt.Signed.{bits128, trunc_div, trunc_mod, divmodti4-trunc}

udivti3_run : udivti3 (2 ^ 100 + 5) 7 ≡ some ((2 ^ 100 + 5) / 7)
unfolding udivti3 get_quotient udivmodti4 divide subtract halve clz128 clzll bit_length
udivti3_run = refl

modti3_run : modti3 (bits128 (negsuc 6)) 3 ≡ some (bits128 (negsuc 0))
unfolding modti3 get_rem divmodti4 fix_signs udivmodti4 divide subtract halve clz128 clzll
    bit_length
modti3_run = refl

modti3_zero : modti3 9 0 ≡ none
unfolding modti3 get_rem divmodti4 fix_signs udivmodti4 divide subtract halve clz128 clzll
    bit_length
modti3_zero = refl

udivmodti4-eq-div_example : udivmodti4 (2 ^ 100) 7 ≡ quotient (2 ^ 100 / 7) (2 ^ 100 % 7)
udivmodti4-eq-div_example = udivmodti4-eq-div (2 ^ 100) 7 (omega arith) (omega arith) (omega arith)

divmodti4-trunc_example :
    divmodti4 (bits128 (negsuc 6)) (bits128 (pos 2))
    ≡ quotient (bits128 (trunc_div (negsuc 6) (pos 2))) (bits128 (trunc_mod (negsuc 6) (pos 2)))
divmodti4-trunc_example =
    divmodti4-trunc (negsuc 6) (pos 2) (omega arith, omega arith) (omega arith, omega arith)
      (ground arith)
