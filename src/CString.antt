-- ===== src/CString.antt =====
-- The functions of the C library's <string.h>, <strings.h>, <ctype.h> and <stdio.h> that the
-- programs call. A C string is the list of its bytes without the terminating NUL.
pub mod Search
pub mod Bounds
pub mod Scan
pub mod Decimal
pub mod Lines
use mathlib.Core.Option
use ece.Prelude.{
  ℕ, zero, suc, ◌+◌, ◌-◌, ◌≤◌, ◌<◌, ◌≡◌, refl, Bool, true, false, not, ◌&&◌, ◌||◌, Option, none,
  some, List, [], ◌∷◌, ◌++◌, arith, ltb, leb, ◌==◌, if◌then◌else◌, Bytes, codes, drop, length, ℤ,
  pos, negsuc,
}

-- The string that starts a block of memory: what stands before the first NUL.
unfoldable pub c_string : Bytes → Bytes
c_string [] = []
c_string (c ∷ s) = if c == 0 then [] else c ∷ c_string s

abbrev pub is_space : ℕ → Bool
is_space c = c == 32 || leb 9 c && leb c 13

abbrev pub is_digit : ℕ → Bool
is_digit c = leb b'0' c && leb c b'9'

abbrev pub tolower : ℕ → ℕ
tolower c = if leb b'A' c && leb c b'Z' then c + 32 else c

-- The byte that a pointer into a string shows, the terminator at its end.
abbrev pub char_of : Bytes → ℕ
char_of [] = 0
char_of (c ∷ s) = c

-- `strncasecmp(s, t, n) == 0`.
unfoldable pub strncasecmp_eq : Bytes → Bytes → ℕ → Bool
strncasecmp_eq s t zero = true
strncasecmp_eq s t (suc n) =
    tolower (char_of s) == tolower (char_of t)
    && (char_of s == 0 || strncasecmp_eq (drop 1 s) (drop 1 t) n)

-- What follows a prefix.
unfoldable pub strip_prefix : Bytes → Bytes → Option Bytes
strip_prefix [] s = some s
strip_prefix (c ∷ p) [] = none
strip_prefix (c ∷ p) (d ∷ s) = if c == d then strip_prefix p s else none

-- `strchr`, as the text behind the first such byte.
unfoldable pub strchr : Bytes → ℕ → Option Bytes
strchr [] c = none
strchr (d ∷ s) c = if d == c then some s else strchr s c

abbrev pub behind : ℕ → Bytes × Bytes → Bytes × Bytes
behind c (before, after) = (c ∷ before, after)

-- `strstr`, as the texts before and behind the first occurrence.
unfoldable pub strstr : Bytes → Bytes → Option (Bytes × Bytes)
unfolding strip_prefix
strstr [] needle = Option.map (λ rest. ([], rest)) (strip_prefix needle [])
strstr (c ∷ s) needle = elim (strip_prefix needle (c ∷ s)) [
  | some rest ↦ some ([], rest)
  | none ↦ Option.map (behind c) (strstr s needle)
]

-- The longest prefix whose bytes pass a test, and the rest.
unfoldable pub span : (ℕ → Bool) → Bytes → Bytes × Bytes
span test [] = ([], [])
span test (c ∷ s) = if test c then behind c (span test s) else ([], c ∷ s)

-- A conversion of `sscanf` that must store at least one byte.
abbrev pub nonempty : Bytes × Bytes → Option (Bytes × Bytes)
nonempty ([], rest) = none
nonempty (c ∷ w, rest) = some (c ∷ w, rest)

abbrev pub skip_space : Bytes → Bytes
skip_space s = (span is_space s).1

-- `%s`.
unfoldable pub scan_word : Bytes → Option (Bytes × Bytes)
unfolding span
scan_word s = nonempty (span (λ c. not (is_space c)) (skip_space s))

-- `%[^:/]`.
unfoldable pub scan_host : Bytes → Option (Bytes × Bytes)
unfolding span
scan_host s = nonempty (span (λ c. not (c == b':' || c == b'/')) s)

unfoldable pub value : ℕ → Bytes → ℕ
value n [] = n
value n (c ∷ s) = value (Prim.Native.Nat.◌*◌ n 10 + (c - b'0')) s

abbrev pub read_digits : (ℕ → ℤ) → Bytes → Option (ℤ × Bytes)
read_digits sign s = Option.map (λ p. (sign (value 0 p.0), p.1)) (nonempty (span is_digit s))

abbrev pub negative : ℕ → ℤ
negative zero = pos 0
negative (suc n) = negsuc n

abbrev pub signed_digits : Bytes → Option (ℤ × Bytes)
signed_digits [] = none
signed_digits (c ∷ s) =
    if c == b'-'
    then read_digits negative s
    else if c == b'+'
    then read_digits pos s
    else read_digits pos (c ∷ s)

-- `%d`. A number that does not fit an `int` is undefined in C; here it is read in full.
unfoldable pub scan_int : Bytes → Option (ℤ × Bytes)
unfolding span value
scan_int s = signed_digits (skip_space s)

-- `atoi`: 0 where no number stands.
unfoldable pub atoi : Bytes → ℤ
unfolding scan_int
atoi s = elim (scan_int s) [ some (n, rest) ↦ n | none ↦ pos 0 ]
