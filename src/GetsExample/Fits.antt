-- ===== src/GetsExample/Fits.antt =====
-- Which lines the array takes.
use ece.Prelude.{
  ℕ, suc, ◌+◌, ◌≤◌, ◌<◌, ◌≡◌, ◌⊎◌, inl, inr, refl, ap, ◌∙◌, arith, ◌==◌, Bool, Bool-cases, true,
  false, not, some, none, [], ◌∷◌, ◌++◌, append_assoc, append-nil, Bytes, codes, set, drop, length,
  length-append, if◌then◌else◌, Option,
}
use ece.CString.{c_string}
use ece.GetsExample.{put_byte, terminate, copy_line, echo}

-- The characters in front of the first newline.
unfoldable pub first_line : Bytes → Bytes
first_line [] = []
first_line (c ∷ input) = if c == b'\n' then [] else c ∷ first_line input

set-append :
    (pre rest : Bytes) (r c : ℕ) → set (pre ++ r ∷ rest) (length pre) c ≡ (pre ++ c ∷ []) ++ rest
set-append [] rest r c = refl
set-append (x ∷ pre) rest r c = ap (λ q. x ∷ q) (set-append pre rest r c)

put-inside :
    (pre rest : Bytes) (r c : ℕ)
    → put_byte c (length pre) (pre ++ r ∷ rest) ≡ some ((pre ++ c ∷ []) ++ rest)
unfolding put_byte
put-inside pre rest r c = ground (arith, set-append pre rest r c, length-append pre (r ∷ rest))

put-outside : (pre : Bytes) (c : ℕ) → put_byte c (length pre) (pre ++ []) ≡ none
unfolding put_byte
put-outside pre c = rw (append-nil pre) (ground arith)

-- What is left of the array behind the terminator.
abbrev Copied : Bytes → Bytes → Bytes → Option (Bool × Bytes) → Type 0
Copied line pre rest o =
    ((length line < length rest)
      × ((is_null : Bool) × (o
            ≡ some (is_null, pre ++ (line ++ 0 ∷ drop (suc (length line)) rest)))))
    ⊎ ((length rest ≤ length line) × (o ≡ none))

terminate-Copied :
    (pre rest : Bytes) (is_null : Bool)
    → Copied [] pre rest (terminate (length pre) is_null (pre ++ rest))
unfolding terminate
terminate-Copied pre [] is_null = inr (omega arith, rw (terminate, put-outside pre 0) refl)
terminate-Copied pre (r ∷ rest) is_null = inl (
  omega arith,
  (
    is_null,
    rw (terminate, put-inside pre rest r 0)
        (ap (λ q. some (is_null, q)) (append_assoc pre (0 ∷ []) rest)),
  ),
)

-- A character more, with what becomes of the others.
shift-Copied :
    (c : ℕ) (line pre rest : Bytes) (r : ℕ) (o : Option (Bool × Bytes))
    → Copied line (pre ++ c ∷ []) rest o
    → Copied (c ∷ line) pre (r ∷ rest) o
shift-Copied c line pre rest r o (inl (h, (is_null, e))) = inl (
  omega (arith, h),
  (
    is_null,
    e
        ∙ ap (λ q. some (is_null, q))
            (append_assoc pre (c ∷ []) (line ++ 0 ∷ drop (suc (length line)) rest)),
  ),
)
shift-Copied c line pre rest r o (inr (h, e)) = inr (omega (arith, h), e)

char-Copied :
    (c : ℕ) (line pre rest : Bytes) (f : Bytes → Option (Bool × Bytes))
    → ((rest' : Bytes) → Copied line (pre ++ c ∷ []) rest' (f ((pre ++ c ∷ []) ++ rest')))
    → Copied
        (c ∷ line)
        pre
        rest
        (elim (put_byte c (length pre) (pre ++ rest)) [ none ↦ none | some buf ↦ f buf ])
char-Copied c line pre [] f h = inr (omega arith, rw (put-outside pre c) refl)
char-Copied c line pre (r ∷ rest) f h =
    rw (put-inside pre rest r c) (shift-Copied c line pre rest r _ (h rest))

copy-Copied :
    (input pre rest : Bytes) (gotchar : Bool)
    → Copied (first_line input) pre rest (copy_line input (length pre) gotchar (pre ++ rest))
unfolding copy_line first_line
copy-Copied [] pre rest gotchar = terminate-Copied pre rest (not gotchar)
copy-Copied (c ∷ input) pre rest gotchar = elim (Bool-cases (c == b'\n')) [
  | inl e ↦ rw e (terminate-Copied pre rest false)
  | inr e ↦ rw e (
      char-Copied c (first_line input) pre rest (copy_line input (length pre + 1) true) (λ rest'.
        let n : length (pre ++ c ∷ []) ≡ length pre + 1 = length-append pre (c ∷ []) in
        rw n at (copy-Copied input (pre ++ c ∷ []) rest' true)))
]

c_string-line : (line rest : Bytes) → c_string (line ++ 0 ∷ rest) ≡ c_string line
unfolding c_string
c_string-line [] rest = refl
c_string-line (c ∷ line) rest = ground (arith, c_string-line line rest)

-- What `puts` prints behind `gets_sample`.
abbrev shown : Option (Bool × Bytes) → Option Bytes
unfolding c_string
shown none = none
shown (some (is_null, buf)) = some (c_string buf ++ codes "\n")

-- Just the lines of less than eight characters fit: `puts` prints them, up to a NUL in them; with a longer
-- line, a write behind the array is undefined behaviour.
pub echo-cases :
    (input buf : Bytes)
    → length buf ≡ 8
    → ((length (first_line input) < 8)
        × (echo input buf ≡ some (c_string (first_line input) ++ codes "\n")))
      ⊎ ((8 ≤ length (first_line input)) × (echo input buf ≡ none))
unfolding echo
echo-cases input buf h = elim (copy-Copied input [] buf false) [
  | inl (l, (is_null, e)) ↦ inl (
    omega arith,
    ap shown e
        ∙ ap (λ q. some (q ++ codes "\n"))
            (c_string-line (first_line input) (drop (suc (length (first_line input))) buf)),
  )
  | inr (l, e) ↦ inr (omega arith, ap shown e)
]
