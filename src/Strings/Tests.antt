-- ===== src/Strings/Tests.antt =====
-- Runs of the functions of libc/src/string.c, and the theorems at a concrete memory.
use tiny_libc.Prelude.{ℕ, ◌+◌, ◌<◌, ◌≡◌, refl, arith, ◌⊎◌, some, [], ◌∷◌, get_or}
use tiny_libc.Prelude.Bytes.{Memory, slice}
use tiny_libc.Prelude.Int.{ℤ, negsuc, ◌-ℤ◌}
use tiny_libc.Strings.{memmove, memcmp, strcmp, strcat, strstr, atoi}
use tiny_libc.Strings.Copy.{Copied, memmove-Copied}
use tiny_libc.Strings.Scan.{IsString, strcmp-Ordered, Ordered}
use tiny_libc.Strings.Build.{strcat-Written, minus, atoi-signed}

-- "ab" at 0, "abc" at 4 and "-42" at 10.
abbrev text : Memory
text a = get_or (97 ∷ 98 ∷ 0 ∷ 0 ∷ 97 ∷ 98 ∷ 99 ∷ 0 ∷ 0 ∷ 0 ∷ 45 ∷ 52 ∷ 50 ∷ []) a 0

memmove_overlap : slice (memmove text 5 4 3) 4 4 ≡ 97 ∷ 97 ∷ 98 ∷ 99 ∷ []
unfolding memmove
memmove_overlap = refl

-- Bytes from 128 on are negative as `char`.
memcmp_signed : memcmp (λ a. get_or (128 ∷ 1 ∷ []) a 0) 0 1 1 ≡ negsuc 0
unfolding memcmp
memcmp_signed = refl

strstr_finds : strstr 9 text 4 5 ≡ some (some 5)
unfolding strstr ◌-ℤ◌
strstr_finds = refl

strcmp-Ordered_example :
    (r : ℤ) × (strcmp 9 text 0 4 ≡ some r) × Ordered (97 ∷ 98 ∷ []) (97 ∷ 98 ∷ 99 ∷ []) r
strcmp-Ordered_example =
    strcmp-Ordered (97 ∷ 98 ∷ []) (97 ∷ 98 ∷ 99 ∷ []) 9 text 0 4 (omega arith) (omega arith)
      (omega arith)

strcat-Written_example :
    (m' : Memory) × (strcat 9 text 4 0 ≡ some m')
    × IsString m' 4 (97 ∷ 98 ∷ 99 ∷ 97 ∷ 98 ∷ [])
    × ((b : ℕ) → (b < 4) ⊎ (4 + 3 + 2 < b) → m' b ≡ text b)
strcat-Written_example =
    strcat-Written (97 ∷ 98 ∷ 99 ∷ []) (97 ∷ 98 ∷ []) 9 text 4 0 (omega arith) (omega arith)
      (omega arith) (omega arith) (omega arith)

atoi-signed_example : atoi 9 text 10 ≡ some (negsuc 41)
atoi-signed_example =
    atoi-signed minus (52 ∷ 50 ∷ []) 9 text 10 (omega arith) (omega arith) (refl, (refl, tt))
      (omega arith)

memmove-Copied_example : Copied text (memmove text 5 4 3) 5 4 3
memmove-Copied_example = memmove-Copied text 5 4 3
