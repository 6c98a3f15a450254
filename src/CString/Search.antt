-- ===== src/CString/Search.antt =====
-- What `strstr`, `strchr` and the prefix test find.
use ece.Prelude.{
  ℕ, ◌<◌, ◌≡◌, ◌≢◌, refl, inl, inr, none, some, [], ◌∷◌, ◌++◌, arith, ==_refl, ==_ne, Bytes,
  Option-cases, All, length,
}
use ece.CString.{strip_prefix, strchr, strstr}

pub strip_prefix_sound : (p s rest : Bytes) → strip_prefix p s ≡ some rest → s ≡ p ++ rest
unfolding strip_prefix
strip_prefix_sound [] s rest h = ground arith
strip_prefix_sound (c ∷ p) [] rest h = ground arith
strip_prefix_sound (c ∷ p) (d ∷ s) rest h = ground (arith, strip_prefix_sound p s rest)

pub strip_prefix-append : (p rest : Bytes) → strip_prefix p (p ++ rest) ≡ some rest
unfolding strip_prefix
strip_prefix-append [] rest = refl
strip_prefix-append (c ∷ p) rest = rw (==_refl c) (strip_prefix-append p rest)

-- The text is the part before, the needle and the part behind.
pub strstr_sound :
    (s n before after : Bytes) → strstr s n ≡ some (before, after) → s ≡ before ++ (n ++ after)
unfolding strstr
strstr_sound [] n before after h = ground (arith, strip_prefix_sound n [] after)
strstr_sound (c ∷ s) n before after h = elim (Option-cases (strip_prefix n (c ∷ s))) [
  | inl e ↦ elim (Option-cases (strstr s n)) [
    | inl f ↦ ground arith
    | inr ((b, a), f) ↦ ground (arith, strstr_sound s n b a)
  ]
  | inr (rest, e) ↦ ground (arith, strip_prefix_sound n (c ∷ s) rest)
]

-- Where `strstr` finds nothing, no occurrence starts at any place of the text.
pub strstr-none : (s n before after : Bytes) → strstr s n ≡ none → s ≡ before ++ (n ++ after) → ⊥
unfolding strstr
strstr-none [] n [] after h e = ground (arith, strip_prefix-append n after)
strstr-none [] n (b ∷ before) after h e = ground arith
strstr-none (c ∷ s) n [] after h e = ground (arith, strip_prefix-append n after)
strstr-none (c ∷ s) n (b ∷ before) after h e = elim (Option-cases (strstr s n)) [
  | inl f ↦ strstr-none s n before after f (ground arith)
  | inr (p, f) ↦ ground arith
]

pub strchr-append :
    (s : Bytes) (c : ℕ) (rest : Bytes) → All (λ d. d ≢ c) s → strchr (s ++ c ∷ rest) c ≡ some rest
unfolding strchr
strchr-append [] c rest h = rw (==_refl c)
strchr-append (d ∷ s) c rest h = rw (==_ne d c h.0) (strchr-append s c rest h.1)

pub length-strchr :
    (s : Bytes) (c : ℕ) (rest : Bytes) → strchr s c ≡ some rest → length rest < length s
unfolding strchr
length-strchr [] c rest h = ground arith
length-strchr (d ∷ s) c rest h = ground (arith, length-strchr s c rest)
