-- ===== src/Stdio/Formatted/RoundTrip.antt =====
-- `atoi` of libc/src/string.c reads what `vsnprintf` of libc/src/stdio.c printed.
use native.Mathlib.Nat.{zero-add}
use tiny_libc.Prelude.{
  ℕ, suc, ◌+◌, ◌-◌, ◌*◌, ◌^◌, ◌<◌, ◌≤◌, ◌≡◌, ◌≢◌, refl, ap, subst, ◌∙◌, arith, Bool, Bool-cases,
  inl, inr, min, ==-ne, if◌then◌else◌, List, [], ◌∷◌, ◌++◌, length, some, drop, head_or, take-long,
}
use tiny_libc.Prelude.Bytes.{Memory, slice}
use tiny_libc.Prelude.Int.{pos, to_int, to_int_small}
use tiny_libc.Printf.Output.{no_flags, put_list}
use tiny_libc.Printf.Output.Text.{put_list-idx}
use tiny_libc.Printf.Integer.{digits}
use tiny_libc.Printf.Integer.Digits.{number_value, digits-value}
use tiny_libc.Printf.Integer.Decimal.{AllDecimal, digits-AllDecimal, digits-length}
use tiny_libc.Printf.Format.{number, is_negative, magnitude}
use tiny_libc.Printf.Double.{Doubles}
use tiny_libc.Printf.Convert.{printed, terminate}
use tiny_libc.Printf.Convert.Decimal.{int_format, int_text, print_formatted-int}
use tiny_libc.Strings.{atoi}
use tiny_libc.Strings.Scan.{IsString}
use tiny_libc.Strings.Build.{
  AllDigits, digits_value, Sign, plain, minus, sign_text, signed, atoi-signed,
}
use tiny_libc.Stdio.Formatted.{out_buffer, vsnprintf}
use tiny_libc.Stdio.Formatted.Buffer.{Stored, Stored-terminator, terminate-store}

AllDigits-AllDecimal : (cs : List ℕ) → AllDecimal cs → AllDigits cs
AllDigits-AllDecimal [] d = tt
AllDigits-AllDecimal (c ∷ cs) (low, high, d) = (ground arith, AllDigits-AllDecimal cs d)

digits_value-eq-number_value :
    (cs : List ℕ) (n : ℕ) → AllDecimal cs → digits_value n cs ≡ number_value 10 n cs
digits_value-eq-number_value [] n d = refl
digits_value-eq-number_value (c ∷ cs) n (low, high, d) =
    digits_value-eq-number_value cs (10 * n + (c - b'0')) d
    ∙ ap (λ v. number_value 10 v cs) (ground arith)

AllNonzero : List ℕ → Type 0
AllNonzero [] = Unit
AllNonzero (c ∷ cs) = (c ≢ 0) × AllNonzero cs

AllDecimal-AllNonzero : (cs : List ℕ) → AllDecimal cs → AllNonzero cs
unfolding AllNonzero
AllDecimal-AllNonzero [] d = tt
AllDecimal-AllNonzero (c ∷ cs) (low, high, d) = (omega arith, AllDecimal-AllNonzero cs d)

longer : (n : ℕ) → suc n + 1 ≡ suc (n + 1)
longer n = omega arith

-- Bytes that are not zero, and a zero behind them, are a string.
IsString-slice :
    (cs : List ℕ) (m : Memory) (p : ℕ)
    → AllNonzero cs
    → slice m p (length cs + 1) ≡ cs ++ 0 ∷ []
    → IsString m p cs
unfolding AllNonzero
IsString-slice [] m p nz h = ap (head_or 0) h
IsString-slice (c ∷ cs) m p (nz, rest) h =
    let h' = rw (longer (length cs)) at h in
    (ap (head_or 0) h', nz, IsString-slice cs m (p + 1) rest (ap (drop 1) h'))

abbrev sign_of : Bool → Sign
sign_of negative = if negative then minus else plain

abbrev int_digits : ℕ → List ℕ
int_digits n = digits (magnitude 32 n) 10 no_flags

int_text_parts : (n : ℕ) → int_text n ≡ sign_text (sign_of (is_negative 32 n)) ++ int_digits n
int_text_parts n = elim (Bool-cases (is_negative 32 n)) [ inl e ↦ rw e | inr e ↦ rw e ]

int_text-AllNonzero : (n : ℕ) → AllNonzero (int_text n)
unfolding AllNonzero
int_text-AllNonzero n =
    let all = AllDecimal-AllNonzero (int_digits n) (digits-AllDecimal (magnitude 32 n)) in
    elim (Bool-cases (is_negative 32 n)) [
      | inl e ↦ rw e (omega arith, rw e at all)
      | inr e ↦ rw e (rw e at all)
    ]

int_digits-length : (n : ℕ) → length (int_digits n) ≤ 10
int_digits-length n = digits-length (magnitude 32 n) 9 (ground arith)

int_text-length : (n : ℕ) → length (int_text n) ≤ 11
int_text-length n = elim (Bool-cases (is_negative 32 n)) [
  | inl e ↦ rw e (omega (arith, rw e at (int_digits-length n)))
  | inr e ↦ rw e (omega (arith, rw e at (int_digits-length n)))
]

int_digits-value : (n : ℕ) → digits_value 0 (int_digits n) ≡ magnitude 32 n
int_digits-value n =
    digits_value-eq-number_value (int_digits n) 0 (digits-AllDecimal (magnitude 32 n))
    ∙ digits-value (magnitude 32 n) 10 no_flags (omega arith) (omega arith) (ground arith)

magnitude-signed :
    (n : ℕ) → n < 2 ^ 32 → signed (sign_of (is_negative 32 n)) (magnitude 32 n) ≡ to_int n
magnitude-signed n h = ground arith

-- What the buffer holds after the call.
abbrev memory_after : ℕ → ℕ → ℕ → Memory → Memory
memory_after buffer count n m =
    terminate (out_buffer buffer) count
      (put_list (out_buffer buffer) count (int_text n) (record { idx = 0; written = m }))

IsString-memory_after :
    (buffer count n : ℕ) (m : Memory)
    → 12 ≤ count
    → count < 2 ^ 64
    → IsString (memory_after buffer count n m) buffer (int_text n)
IsString-memory_after buffer count n m room small =
    IsString-slice (int_text n) (memory_after buffer count n m) buffer (int_text-AllNonzero n)
      (rw (all, take-long (count - 1) (int_text n) (omega (arith, int_text-length n))) at st.shown)
  where
    st : Stored m (memory_after buffer count n m) buffer count (int_text n)
    st =
        Stored-terminator m _ buffer count (min (count - 1) (length (int_text n))) (int_text n) refl
          (omega arith) (terminate-store buffer count (int_text n) m (omega arith) small)

    all : min (count - 1) (length (int_text n)) ≡ length (int_text n)
    all = omega (arith, int_text-length n)

-- For an `int` other than the least, a buffer that is not null and has room for 12 bytes, and fuel for
-- them: `vsnprintf` with "%d" returns, and `atoi` of the buffer is the `int` again.
pub atoi-vsnprintf :
    {D : Type 0} (doubles : Doubles D) (buffer count fuel n : ℕ) (m : Memory)
    → buffer ≢ 0
    → 12 ≤ count
    → count < 2 ^ 64
    → 12 ≤ fuel
    → n < 2 ^ 32
    → n ≢ 2 ^ 31
    → (m' : Memory) × (vsnprintf doubles buffer count int_format (number n ∷ []) m
        ≡ printed (pos (length (int_text n)), m'))
      × (atoi fuel m' buffer ≡ some (to_int n))
unfolding vsnprintf
atoi-vsnprintf doubles buffer count fuel n m nz room small enough word other = (
  memory_after buffer count n m,
  rw (==-ne buffer 0 nz) (
      print_formatted-int (out_buffer buffer) count doubles n m
      ∙ ap (λ i. printed (i, memory_after buffer count n m))
          (ap to_int (
              put_list-idx (out_buffer buffer) count (int_text n) _
              ∙ zero-add (length (int_text n)))
            ∙ to_int_small (length (int_text n)) (omega (arith, int_text-length n)))),
  atoi-signed (sign_of (is_negative 32 n)) (int_digits n) fuel (memory_after buffer count n m)
        buffer (omega (arith, int_digits-length n))
        (subst (IsString (memory_after buffer count n m) buffer) (int_text_parts n)
          (IsString-memory_after buffer count n m room small))
        (AllDigits-AllDecimal (int_digits n) (digits-AllDecimal (magnitude 32 n)))
        (rw (int_digits-value n) (ground arith))
      ∙ rw (int_digits-value n, magnitude-signed n word),
)
