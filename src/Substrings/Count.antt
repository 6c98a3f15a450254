-- ===== src/Substrings/Count.antt =====
-- `countSubstrings` counts the places where the substring stands.
use ece.Prelude.{
  ltb, ◌≤◌, ◌^◌, ◌%◌, ℕ, zero, suc, ◌+◌, ◌-◌, ◌<◌, ◌≡◌, ◌≢◌, Bool, true, false, ◌&&◌, [], ◌∷◌,
  Bytes, ◌==◌, if◌then◌else◌, length, arith, All, refl, ◌∙◌,
}
use Prim.Native.Nat.add
use native.Mathlib.Decide.{dec_lt}
use ece.CString.{strncasecmp_eq, tolower}
use ece.Substrings.{round_count, count_loop, count_substrings}

-- The text begins with the pattern, up to the case of letters.
abbrev pub begins : Bytes → Bytes → Bool
begins [] s = true
begins (c ∷ p) [] = false
begins (c ∷ p) (d ∷ s) = tolower d == tolower c && begins p s

-- The number of places in a text, its end among them, at which the pattern begins.
pub occurrences : Bytes → Bytes → ℕ
occurrences p [] = if begins p [] then 1 else 0
occurrences p (c ∷ s) = (if begins p (c ∷ s) then 1 else 0) + occurrences p s

tolower-ne-zero : (c : ℕ) → c ≢ 0 → (0 == tolower c) ≡ false
tolower-ne-zero c h = ground arith

strncasecmp_eq-begins :
    (s p : Bytes) → All (λ c. c ≢ 0) p → strncasecmp_eq s p (length p) ≡ begins p s
unfolding strncasecmp_eq
strncasecmp_eq-begins s [] h = refl
strncasecmp_eq-begins [] (c ∷ p) h = ground (arith, tolower-ne-zero c h.0)
strncasecmp_eq-begins (d ∷ s) (c ∷ p) h =
    ground (arith, tolower-ne-zero c h.0, strncasecmp_eq-begins s p h.1)

begins-length : (p s : Bytes) → length s < length p → begins p s ≡ false
begins-length [] s h = absurd (omega arith)
begins-length (c ∷ p) [] h = refl
begins-length (c ∷ p) (d ∷ s) h = ground (arith, begins-length p s)

occurrences-short : (p s : Bytes) → length s < length p → occurrences p s ≡ 0
unfolding occurrences
occurrences-short p [] h = ground (arith, begins-length p [])
occurrences-short p (c ∷ s) h = ground (arith, begins-length p (c ∷ s), occurrences-short p s)

count_loop-occurrences :
    (s p : Bytes) (rounds count : ℕ)
    → All (λ c. c ≢ 0) p
    → rounds + length p ≡ length s + 1
    → count_loop rounds s p (length p) count ≡ count + occurrences p s
unfolding count_loop occurrences
count_loop-occurrences [] p zero count h e = ground (arith, begins-length p [])
count_loop-occurrences [] p (suc zero) count h e = ground (arith, strncasecmp_eq-begins [] p h)
count_loop-occurrences [] p (suc (suc rounds)) count h e = absurd (omega arith)
count_loop-occurrences (c ∷ s) p zero count h e =
    ground (arith, begins-length p (c ∷ s), occurrences-short p s)
count_loop-occurrences (c ∷ s) p (suc rounds) count h e = ground (
  arith,
  strncasecmp_eq-begins (c ∷ s) p h,
  count_loop-occurrences s p rounds
      (if strncasecmp_eq (c ∷ s) p (length p) then count + 1 else count) h (omega arith),
)

-- Where neither the file nor the substring is too long for an `int`, the bound of the loop is exact.
round_count-small :
    (size len : ℕ)
    → size < 2 ^ 31 - 1
    → len < 2 ^ 31
    → round_count size (len % 2 ^ 32) ≡ size + 1 - len
round_count-small size len h g = elim (dec_lt (size + 1) len) [
  | yes long ↦
      let e : (size + 2 ^ 32 - len % 2 ^ 32 + 1) % 2 ^ 32 ≡ size + 2 ^ 32 - len + 1 = omega arith in
      rw e (ground arith)
  | no short ↦
      let e : (size + 2 ^ 32 - len % 2 ^ 32 + 1) % 2 ^ 32 ≡ size + 1 - len = omega arith in
      rw e (ground arith)
]

-- For a file of 2 GiB or more, below 4 GiB - 1, and a substring that is not longer than what is above
-- 2 GiB, there is no round: `size` is negative.
count_substrings-large :
    (buffer substring : Bytes)
    → 2 ^ 31 + length substring ≤ length buffer
    → length buffer < 2 ^ 32 - 1
    → length substring < 2 ^ 31
    → count_substrings buffer substring (length buffer) ≡ 0
unfolding count_substrings count_loop
count_substrings-large buffer substring h g l =
    let e : (length buffer + 2 ^ 32 - length substring % 2 ^ 32 + 1) % 2 ^ 32
        ≡ length buffer + 1 - length substring =
      omega arith in
    let large : ltb (length buffer + 1 - length substring) (2 ^ 31) ≡ false = ground arith in
    rw (e, large) refl

no_round :
    (buffer substring : Bytes)
    → length buffer < length substring
    → count_loop (length buffer + 1 - length substring) buffer substring (length substring) 0
      ≡ occurrences substring buffer
unfolding count_loop
no_round buffer substring long =
    let e : length buffer + 1 - length substring ≡ 0 = omega arith in
    ground (arith, occurrences-short substring buffer long)

-- For a substring with no NUL, and a file of at most 2^31 - 2 bytes and a substring below 2 GiB,
-- `countSubstrings` over the whole file returns the number of places at which the substring stands in
-- it, up to case; for one that is longer than the file this is 0.
pub count_substrings-occurrences :
    (buffer substring : Bytes)
    → All (λ c. c ≢ 0) substring
    → length buffer < 2 ^ 31 - 1
    → length substring < 2 ^ 31
    → count_substrings buffer substring (length buffer) ≡ occurrences substring buffer
unfolding count_substrings
count_substrings-occurrences buffer substring h small few =
    let len : length substring % 2 ^ 32 ≡ length substring = omega arith in
    rw (round_count-small (length buffer) (length substring) small few, len)
      (elim (dec_lt (length buffer) (length substring)) [
        | yes long ↦ no_round buffer substring long
        | no short ↦
            count_loop-occurrences buffer substring (length buffer + 1 - length substring) 0 h
              (omega arith)
            ∙ add.zero (occurrences substring buffer)
      ])
