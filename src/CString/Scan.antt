-- ===== src/CString/Scan.antt =====
-- What the conversions of `sscanf` read.
use ece.Prelude.{
  ℕ, ◌≡◌, ◌≢◌, refl, Bool, true, false, not, ◌||◌, some, [], ◌∷◌, ◌++◌, arith, ◌==◌, Bytes, All,
  Bool-cases, inl, inr,
}
use ece.CString.{span, is_space, nonempty, scan_word, scan_host, skip_space}

-- A text that does not begin with a byte that passes the test.
abbrev pub Stops : (ℕ → Bool) → Bytes → Type 0
Stops test [] = Unit
Stops test (c ∷ s) = test c ≡ false

pub span-append :
    (test : ℕ → Bool) (w rest : Bytes)
    → All (λ c. test c ≡ true) w
    → Stops test rest
    → span test (w ++ rest) ≡ (w, rest)
unfolding span
span-append test [] [] h stop = refl
span-append test [] (c ∷ rest) h stop = rw stop
span-append test (c ∷ w) rest h stop = rw (h.0, span-append test w rest h.1 stop)

pub span-split : (test : ℕ → Bool) (s : Bytes) → (span test s).0 ++ (span test s).1 ≡ s
unfolding span
span-split test [] = refl
span-split test (c ∷ s) = elim (Bool-cases (test c)) [
  | inl e ↦ rw e (rw (span-split test s))
  | inr e ↦ rw e
]

abbrev pub IsBlankless : Bytes → Type 0
IsBlankless w = (w ≢ []) × All (λ c. is_space c ≡ false) w

abbrev pub IsHost : Bytes → Type 0
IsHost w = (w ≢ []) × All (λ c. (c ≢ b':') × (c ≢ b'/')) w

All-not :
    (test : ℕ → Bool) (w : Bytes) → All (λ c. test c ≡ false) w → All (λ c. not (test c) ≡ true) w
All-not test [] h = tt
All-not test (c ∷ w) h = (rw h.0, All-not test w h.1)

All-host :
    (w : Bytes)
    → All (λ c. (c ≢ b':') × (c ≢ b'/')) w
    → All (λ c. not (c == b':' || c == b'/') ≡ true) w
All-host [] h = tt
All-host (c ∷ w) h = (ground arith, All-host w h.1)

skip_space-word : (w rest : Bytes) → IsBlankless w → skip_space (w ++ rest) ≡ w ++ rest
unfolding span
skip_space-word [] rest h = absurd (h.0 refl)
skip_space-word (c ∷ w) rest h = rw (h.1.0, skip_space)

nonempty-pair : (w rest : Bytes) → w ≢ [] → nonempty (w, rest) ≡ some (w, rest)
nonempty-pair [] rest h = absurd (h refl)
nonempty-pair (c ∷ w) rest h = refl

pub skip_space-of_stop : (s : Bytes) → Stops is_space s → skip_space s ≡ s
unfolding span
skip_space-of_stop [] h = refl
skip_space-of_stop (c ∷ s) h = rw (h, skip_space)

-- `%s` reads a word up to the white space behind it.
pub scan_word-append :
    (w rest : Bytes)
    → IsBlankless w
    → Stops (λ c. not (is_space c)) rest
    → scan_word (w ++ rest) ≡ some (w, rest)
unfolding scan_word
scan_word-append w rest h stop =
    rw (skip_space-word w rest h)
      (rw (span-append _ w rest (All-not is_space w h.1) stop) (nonempty-pair w rest h.0))

-- `%[^:/]` reads a host name up to the `:` or `/` behind it.
pub scan_host-append :
    (w rest : Bytes)
    → IsHost w
    → Stops (λ c. not (c == b':' || c == b'/')) rest
    → scan_host (w ++ rest) ≡ some (w, rest)
unfolding scan_host
scan_host-append w rest h stop =
    rw (span-append _ w rest (All-host w h.1) stop) (nonempty-pair w rest h.0)
