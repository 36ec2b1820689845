-- ===== src/Strings.antt =====
-- libc/src/string.c over a memory of bytes. A pointer is an address, and no range reaches the end of
-- the address space. A loop that runs up to a terminator takes fuel, and `none` means that it ran out.
pub mod Copy
pub mod Scan
pub mod Build
mod Tests
use tiny_libc.Prelude.{
  ℕ, zero, suc, ◌+◌, ◌-◌, ◌*◌, ◌/◌, ◌%◌, ◌^◌, Bool, true, false, not, Option, none, some, ◌==◌,
  ◌&&◌, ◌||◌, ltb, leb, if◌then◌else◌,
}
use tiny_libc.Prelude.Bytes.{Memory, store}
use tiny_libc.Prelude.Int.{ℤ, pos, negsuc, ltb_ℤ, ◌-ℤ◌, to_int, neg_ℤ}

-- What a byte is as a `char`, which is signed on x86-64.
abbrev pub char_value : ℕ → ℤ
char_value b = if ltb b 128 then pos b else negsuc (255 - b)

-- The loop of `strlen` at `s`, with the bytes counted so far.
strlen_from : ℕ → Memory → ℕ → ℕ → Option ℕ
strlen_from zero m s n = none
strlen_from (suc fuel) m s n =
    let next = strlen_from fuel m (s + 1) (n + 1) in if m s == 0 then some n else next

unfoldable pub strlen : ℕ → Memory → ℕ → Option ℕ
unfolding strlen_from
strlen fuel m str = strlen_from fuel m str 0

-- `while (len--) *d++ = *s++`
copy_up : ℕ → Memory → ℕ → ℕ → Memory
copy_up zero m d s = m
copy_up (suc len) m d s = copy_up len (store m d (m s)) (d + 1) (s + 1)

-- `s += len; d += len; while (len-- > 0) *--d = *--s`
copy_down : ℕ → Memory → ℕ → ℕ → Memory
copy_down zero m d s = m
copy_down (suc len) m d s = copy_down len (store m (d + len) (m (s + len))) d s

unfoldable pub memcpy : Memory → ℕ → ℕ → ℕ → Memory
unfolding copy_up
memcpy m dest src len = copy_up len m dest src

unfoldable pub memmove : Memory → ℕ → ℕ → ℕ → Memory
unfolding copy_up copy_down
memmove m dest src len =
    if ltb src dest && ltb dest (src + len)
    then copy_down len m dest src
    else copy_up len m dest src

-- `while (len--) *d++ = v`
fill : ℕ → Memory → ℕ → ℕ → Memory
fill zero m d v = m
fill (suc len) m d v = fill len (store m d v) (d + 1) v

-- `c` is the bit pattern of an `int`, which is converted to a `char`.
unfoldable pub memset : Memory → ℕ → ℕ → ℕ → Memory
unfolding fill
memset m dest c len = fill len m dest (c % 256)

-- The bytes are compared as `char`.
unfoldable pub memcmp : Memory → ℕ → ℕ → ℕ → ℤ
memcmp m s1 s2 zero = pos 0
memcmp m s1 s2 (suc len) =
    let next = memcmp m (s1 + 1) (s2 + 1) len in
    if ltb_ℤ (char_value (m s1)) (char_value (m s2))
    then negsuc 0
    else if ltb_ℤ (char_value (m s2)) (char_value (m s1))
    then pos 1
    else next

unfoldable pub bcmp : Memory → ℕ → ℕ → ℕ → ℤ
unfolding memcmp
bcmp m v1 v2 len = memcmp m v1 v2 len

-- `*s == c`, with the `char` promoted to `int`.
abbrev pub is_char : ℕ → ℤ → Bool
is_char b c =
    if ltb_ℤ (char_value b) c then false else if ltb_ℤ c (char_value b) then false else true

-- The result is the pointer found, or null.
unfoldable pub strchr : ℕ → Memory → ℕ → ℤ → Option (Option ℕ)
strchr zero m s c = none
strchr (suc fuel) m s c =
    let next = strchr fuel m (s + 1) c in
    if is_char (m s) c then some (some s) else if m s == 0 then some none else next

-- `memchr` does not advance `s`.
unfoldable pub memchr : Memory → ℕ → ℤ → ℕ → Option ℕ
memchr m s c zero = none
memchr m s c (suc len) = let next = memchr m s c len in if is_char (m s) c then some s else next

-- `*(unsigned char*)s1 - *(unsigned char*)s2`
abbrev pub difference : ℕ → ℕ → ℤ
difference a b = pos a -ℤ pos b

unfoldable pub strcmp : ℕ → Memory → ℕ → ℕ → Option ℤ
strcmp zero m s1 s2 = none
strcmp (suc fuel) m s1 s2 =
    let next = strcmp fuel m (s1 + 1) (s2 + 1) in
    if m s1 == 0
    then some (difference (m s1) (m s2))
    else if m s1 == m s2
    then next
    else some (difference (m s1) (m s2))

unfoldable pub strncmp : Memory → ℕ → ℕ → ℕ → ℤ
strncmp m s1 s2 zero = pos 0
strncmp m s1 s2 (suc n) =
    let next = strncmp m (s1 + 1) (s2 + 1) n in
    if m s1 == 0
    then difference (m s1) (m s2)
    else if m s1 == m s2
    then next
    else difference (m s1) (m s2)

-- `while ((*dest++ = *src++) != '\0')`
unfoldable pub strcpy : ℕ → Memory → ℕ → ℕ → Option Memory
strcpy zero m dest src = none
strcpy (suc fuel) m dest src =
    let next = strcpy fuel (store m dest (m src)) (dest + 1) (src + 1) in
    if m src == 0 then some (store m dest (m src)) else next

-- `while (*dest) dest++`
seek_end : ℕ → Memory → ℕ → Option ℕ
seek_end zero m dest = none
seek_end (suc fuel) m dest =
    let next = seek_end fuel m (dest + 1) in if m dest == 0 then some dest else next

copy_to : ℕ → Memory → ℕ → Option ℕ → Option Memory
copy_to fuel m src none = none
copy_to fuel m src (some dest) = strcpy fuel m dest src

unfoldable pub strcat : ℕ → Memory → ℕ → ℕ → Option Memory
unfolding seek_end copy_to strcpy
strcat fuel m dest src = copy_to fuel m src (seek_end fuel m dest)

abbrev is_zero : ℤ → Bool
is_zero (pos zero) = true
is_zero _ = false

-- `while (*str)` of `strstr`, with the length of the substring.
search_from : ℕ → Memory → ℕ → ℕ → ℕ → Option (Option ℕ)
search_from zero m str substr len = none
search_from (suc fuel) m str substr len =
    let next = search_from fuel m (str + 1) substr len in
    if m str == 0
    then some none
    else if is_zero (strncmp m str substr len)
    then some (some str)
    else next

search_with : ℕ → Memory → ℕ → ℕ → Option ℕ → Option (Option ℕ)
search_with fuel m str substr none = none
search_with fuel m str substr (some len) = search_from fuel m str substr len

unfoldable pub strstr : ℕ → Memory → ℕ → ℕ → Option (Option ℕ)
unfolding search_from search_with strncmp strlen
strstr fuel m str substr = search_with fuel m str substr (strlen fuel m substr)

-- `while (*--sr != c) { if (sr == s) return NULL; }`, with `left` bytes between `s` and `sr`. The read
-- below `s`, which happens for the empty string, is outside the object: `none`.
search_back : ℕ → Memory → ℕ → ℤ → Option (Option ℕ)
search_back zero m s c = none
search_back (suc left) m s c =
    let next = search_back left m s c in
    if is_char (m (s + left)) c
    then some (some (s + left))
    else if left == 0
    then some none
    else next

search_back_with : Memory → ℕ → ℤ → Option ℕ → Option (Option ℕ)
search_back_with m s c none = none
search_back_with m s c (some len) = search_back len m s c

unfoldable pub strrchr : ℕ → Memory → ℕ → ℤ → Option (Option ℕ)
unfolding search_back search_back_with strlen
strrchr fuel m s c = search_back_with m s c (strlen fuel m s)

-- `k = 10 * k + (*p) - '0'` on an `int`, kept as a bit pattern.
abbrev pub push_digit : ℕ → ℕ → ℕ
push_digit k c = (10 * k + c - b'0') % 2 ^ 32

-- `*p < '0' || *p > '9'` does not hold.
abbrev pub is_digit : ℕ → Bool
is_digit c = leb b'0' c && leb c b'9'

atoi_from : ℕ → Memory → ℕ → ℕ → Option ℕ
atoi_from zero m p k = none
atoi_from (suc fuel) m p k =
    let next = atoi_from fuel m (p + 1) (push_digit k (m p)) in
    if m p == 0 then some k else if is_digit (m p) then next else some k

-- `return negate ? -k : k`
atoi_sign : Bool → Option ℕ → Option ℤ
atoi_sign negate none = none
atoi_sign true (some k) = some (to_int (2 ^ 32 - k))
atoi_sign false (some k) = some (to_int k)

unfoldable pub atoi : ℕ → Memory → ℕ → Option ℤ
unfolding atoi_from atoi_sign
atoi fuel m p =
    atoi_sign (m p == b'-')
      (atoi_from fuel m (if (m p == b'-') || (m p == b'+') then p + 1 else p) 0)
