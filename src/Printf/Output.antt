-- ===== src/Printf/Output.antt =====
-- The output of libc/src/printf.c: the flags, the cursor that the output functions move, and
-- `_out_rev`.
pub mod Text
pub mod Printed
use tiny_libc.Prelude.{
  ℕ, zero, suc, ◌+◌, ◌-◌, Bool, true, false, ◌||◌, if◌then◌else◌, List, [], ◌∷◌, length, replicate,
}

-- The bits `FLAGS_…` of the variable `flags`.
pub record Flags : Type 0 where
  pub zeropad : Bool
  pub left : Bool
  pub plus : Bool
  pub space : Bool
  pub hash : Bool
  pub uppercase : Bool
  pub char : Bool
  pub short : Bool
  pub long : Bool
  pub long_long : Bool
  pub precision : Bool
  pub adapt_exp : Bool

-- `flags = 0U`
abbrev pub no_flags : Flags
no_flags = record {
  zeropad = false;
  left = false;
  plus = false;
  space = false;
  hash = false;
  uppercase = false;
  char = false;
  short = false;
  long = false;
  long_long = false;
  precision = false;
  adapt_exp = false;
}

-- `out_fct_type`: the character, the index and `maxlen`, and what the output is written to.
abbrev pub OutFct : Type 0 → Type 0
OutFct S = ℕ → ℕ → ℕ → S → S

-- `_out_null`
abbrev pub out_null : {S : Type 0} → OutFct S
out_null character idx maxlen s = s

-- The next index, and what has been written to.
pub record Cursor (S : Type 0) : Type 0 where
  pub idx : ℕ
  pub written : S

module _ {S : Type 0} (out : OutFct S) (maxlen : ℕ) where
  -- `out(character, buffer, idx++, maxlen)`
  abbrev pub put_char : ℕ → Cursor S → Cursor S
  put_char character k = record { idx = k.idx + 1; written = out character k.idx maxlen k.written }

  -- `while (len) out(buf[--len], buffer, idx++, maxlen)`, where the list is the `len` characters of
  -- `buf`, the last one first.
  unfoldable pub put_list : List ℕ → Cursor S → Cursor S
  put_list [] k = k
  put_list (c ∷ cs) k = put_list cs (put_char c k)

  -- n spaces
  unfoldable pub put_spaces : ℕ → Cursor S → Cursor S
  put_spaces zero k = k
  put_spaces (suc n) k = put_spaces n (put_char b' ' k)

  unfoldable pub out_rev : List ℕ → ℕ → Flags → Cursor S → Cursor S
  out_rev buf width flags k =
      let padded = if flags.left || flags.zeropad then k else put_spaces (width - length buf) k in
      let reversed = put_list buf padded in
      if flags.left then put_spaces (width - (reversed.idx - k.idx)) reversed else reversed
