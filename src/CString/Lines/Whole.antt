-- ===== src/CString/Lines/Whole.antt =====
-- Lines are pieces of the text.
use ece.Prelude.{
  ℕ, zero, suc, ◌≤◌, ◌<◌, ◌≡◌, ◌≢◌, refl, ap, [], ◌∷◌, ◌++◌, Bytes, Bool-cases, ◌==◌, inl, inr,
  length, arith, All,
}
use ece.CString.{c_string}
use ece.CString.Lines.{get_line}

-- No NUL in a text.
abbrev pub IsText : Bytes → Type 0
IsText = All (λ c. c ≢ 0)

-- A line is the beginning of what is left, at most so long, and not empty if any is left.
abbrev pub Cut : ℕ → Bytes → Bytes × Bytes → Type 0
Cut n s (line, rest) = (line ++ rest ≡ s) × (length line ≤ n) × (length rest ≤ length s)

get_line-Cut : (n : ℕ) (s : Bytes) → Cut n s (get_line n s)
unfolding get_line
get_line-Cut zero s = (refl, omega arith, omega arith)
get_line-Cut (suc n) [] = (refl, omega arith, omega arith)
get_line-Cut (suc n) (c ∷ s) = elim (Bool-cases (c == b'\n')) [
  | inl e ↦ rw e (refl, omega arith, omega arith)
  | inr e ↦
      let h = get_line-Cut n s in rw e (ap (λ l. c ∷ l) h.0, omega (arith, h.1), omega (arith, h.2))
]

pub get_line-shorter : (n c : ℕ) (s : Bytes) → length (get_line (suc n) (c ∷ s)).1 < length (c ∷ s)
unfolding get_line
get_line-shorter n c s = elim (Bool-cases (c == b'\n')) [
  | inl e ↦ rw e (omega arith)
  | inr e ↦ rw e (omega (arith, (get_line-Cut n s).2))
]

IsText-parts : (x y : Bytes) → IsText (x ++ y) → IsText x × IsText y
IsText-parts [] y h = (tt, h)
IsText-parts (c ∷ x) y h = let (l, r) = IsText-parts x y h.1 in ((h.0, l), r)

pub c_string-text : (s : Bytes) → IsText s → c_string s ≡ s
unfolding c_string
c_string-text [] h = refl
c_string-text (c ∷ s) h = ground (arith, c_string-text s h.1)

-- What `fgets` gives of a text that is not at its end.
pub get_line-IsText :
    (n c : ℕ) (s : Bytes)
    → IsText (c ∷ s)
    → let (line, rest) = get_line (suc n) (c ∷ s) in
      (line ++ rest ≡ c ∷ s)
      × (length line ≤ suc n)
      × (length rest < length (c ∷ s))
      × IsText line
      × IsText rest
get_line-IsText n c s h =
    let cut = get_line-Cut (suc n) (c ∷ s) in
    let (line, rest) = get_line (suc n) (c ∷ s) in
    let whole : IsText (line ++ rest) = rw cut.0 h in
    let parts = IsText-parts line rest whole in
    (cut.0, cut.1, get_line-shorter n c s, parts.0, parts.1)
