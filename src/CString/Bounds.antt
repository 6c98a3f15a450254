-- ===== src/CString/Bounds.antt =====
-- The conversions of `sscanf` take bytes away from the text.
use ece.Prelude.{
  ℕ, ◌+◌, ◌≤◌, ◌≡◌, Bytes, Bool, arith, some, length, length-append, ap, ℤ, inl, inr, ◌∷◌, [],
  Option-cases,
}
use ece.CString.{
  span, scan_word, scan_host, scan_int, strip_prefix, nonempty, skip_space, is_space, signed_digits,
  is_digit, read_digits, negative,
}
use ece.CString.Scan.{span-split}
use ece.CString.Search.{strip_prefix_sound}

length-span :
    (test : ℕ → Bool) (s : Bytes) → length (span test s).0 + length (span test s).1 ≡ length s
length-span test s =
    omega (arith, length-append (span test s).0 (span test s).1, ap length (span-split test s))

nonempty-fields :
    (p : Bytes × Bytes) (w rest : Bytes) → nonempty p ≡ some (w, rest) → (p.0 ≡ w) × (p.1 ≡ rest)
nonempty-fields ([], r) w rest h = ground arith
nonempty-fields (c ∷ v, r) w rest h = ground arith

length-nonempty :
    (test : ℕ → Bool) (s w rest : Bytes)
    → nonempty (span test s) ≡ some (w, rest)
    → length w + length rest ≡ length s
length-nonempty test s w rest h =
    let (e, f) = nonempty-fields (span test s) w rest h in
    omega (arith, length-span test s, ap length e, ap length f)

pub length-scan_word :
    (s w rest : Bytes) → scan_word s ≡ some (w, rest) → length w + length rest ≤ length s
unfolding scan_word
length-scan_word s w rest h =
    omega (arith, length-nonempty _ (skip_space s) w rest h, length-span is_space s)

pub length-scan_host :
    (s w rest : Bytes) → scan_host s ≡ some (w, rest) → length w + length rest ≡ length s
unfolding scan_host
length-scan_host s w rest h = length-nonempty _ s w rest h

pub length-strip_prefix : (p s rest : Bytes) → strip_prefix p s ≡ some rest → length rest ≤ length s
length-strip_prefix p s rest h =
    omega (arith, length-append p rest, ap length (strip_prefix_sound p s rest h))

length-read_digits :
    (sign : ℕ → ℤ) (s : Bytes) (n : ℤ) (rest : Bytes)
    → read_digits sign s ≡ some (n, rest)
    → length rest ≤ length s
length-read_digits sign s n rest h = elim (Option-cases (nonempty (span is_digit s))) [
  | inl e ↦ ground arith
  | inr ((w, r), e) ↦ ground (arith, length-nonempty is_digit s w r)
]

length-signed_digits :
    (s : Bytes) (n : ℤ) (rest : Bytes) → signed_digits s ≡ some (n, rest) → length rest ≤ length s
length-signed_digits [] n rest h = ground arith
length-signed_digits (c ∷ s) n rest h = ground (
  arith,
  length-read_digits negative s n rest,
  length-read_digits ℤ.pos s n rest,
  length-read_digits ℤ.pos (c ∷ s) n rest,
)

pub length-scan_int :
    (s : Bytes) (n : ℤ) (rest : Bytes) → scan_int s ≡ some (n, rest) → length rest ≤ length s
unfolding scan_int
length-scan_int s n rest h =
    omega (arith, length-signed_digits (skip_space s) n rest h, length-span is_space s)
