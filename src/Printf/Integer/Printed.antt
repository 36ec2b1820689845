-- ===== src/Printf/Integer/Printed.antt =====
-- `_ntoa_format` and `_ntoa_long` of libc/src/printf.c do nothing but write a text.
use tiny_libc.Prelude.{ℕ, Bool, List}
use tiny_libc.Printf.Output.{Flags, OutFct, Cursor}
use tiny_libc.Printf.Output.Printed.{Printed, Printed-out_rev}
use tiny_libc.Printf.Integer.{ntoa_format, ntoa_long, ntoa_long_long}

module _ {S : Type 0} {out : OutFct S} {maxlen : ℕ} where
  pub Printed-ntoa_format :
      (buf : List ℕ) (negative : Bool) (base prec width : ℕ) (flags : Flags) (k : Cursor S)
      → Printed out maxlen k (ntoa_format out maxlen buf negative base prec width flags k)
  unfolding ntoa_format
  Printed-ntoa_format buf negative base prec width flags k = Printed-out_rev _ _ flags k

  pub Printed-ntoa_long :
      (value : ℕ) (negative : Bool) (base prec width : ℕ) (flags : Flags) (k : Cursor S)
      → Printed out maxlen k (ntoa_long out maxlen value negative base prec width flags k)
  unfolding ntoa_long
  Printed-ntoa_long value negative base prec width flags k =
      Printed-ntoa_format _ negative base prec width _ k

  pub Printed-ntoa_long_long :
      (value : ℕ) (negative : Bool) (base prec width : ℕ) (flags : Flags) (k : Cursor S)
      → Printed out maxlen k (ntoa_long_long out maxlen value negative base prec width flags k)
  unfolding ntoa_long_long
  Printed-ntoa_long_long value negative base prec width flags k =
      Printed-ntoa_format _ negative base prec width _ k
