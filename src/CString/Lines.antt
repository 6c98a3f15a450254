-- ===== src/CString/Lines.antt =====
-- `fgets`, and the lines that a text is read in.
pub mod Whole
use ece.Prelude.{ℕ, zero, suc, Option, some, none, [], ◌∷◌, Bytes, ◌==◌, if◌then◌else◌, List}
use ece.CString.{behind}

-- At most so many bytes, up to and with a newline.
unfoldable pub get_line : ℕ → Bytes → Bytes × Bytes
get_line zero s = ([], s)
get_line (suc n) [] = ([], [])
get_line (suc n) (c ∷ s) = if c == b'\n' then (c ∷ [], s) else behind c (get_line n s)

-- `fgets` into an array of `n + 1` bytes: what it stores and what is left; `none` at the end of the
-- text.
unfoldable pub fgets : ℕ → Bytes → Option (Bytes × Bytes)
unfolding get_line
fgets n [] = none
fgets n (c ∷ s) = some (get_line n (c ∷ s))

-- All lines, for a number of calls that is at least the length of the text.
unfoldable pub lines : ℕ → ℕ → Bytes → List Bytes
lines n zero text = []
lines n (suc calls) text = elim (fgets n text) [
  | none ↦ []
  | some (line, rest) ↦ line ∷ lines n calls rest
]
