-- ===== src/GetsExample.antt =====
-- Lecture9/gets_example/gets_example.c: a line is read into an array of eight bytes without a look at its
-- size. The line that tells the address of the array is left out.
pub mod Fits
mod Tests
use ece.Prelude.{
  ℕ, ◌+◌, ◌==◌, Bool, true, false, not, ◌&&◌, Option, some, none, List, [], ◌∷◌, ◌++◌, Bytes, codes,
  set, ltb, length, if◌then◌else◌,
}
use ece.CString.{c_string}

-- `*dest++ = c`, with `dest` as an index into the array; outside of the array it is undefined.
unfoldable pub put_byte : ℕ → ℕ → Bytes → Option Bytes
put_byte c dest buf = if ltb dest (length buf) then some (set buf dest c) else none

-- The end of `gets_sample`: gives whether it returns NULL, and the array.
unfoldable pub terminate : ℕ → Bool → Bytes → Option (Bool × Bytes)
terminate dest is_null buf = elim (put_byte 0 dest buf) [
  | none ↦ none
  | some buf' ↦ some (is_null, buf')
]

-- Its loop, with what is still to come from `getchar`, up to EOF.
unfoldable pub copy_line : Bytes → ℕ → Bool → Bytes → Option (Bool × Bytes)
copy_line [] dest gotchar buf = terminate dest (not gotchar) buf
copy_line (c ∷ input) dest gotchar buf =
    if c == b'\n' then terminate dest false buf else elim (put_byte c dest buf) [
      | none ↦ none
      | some buf' ↦ copy_line input (dest + 1) true buf'
    ]

abbrev pub gets_sample : Bytes → Bytes → Option (Bool × Bytes)
gets_sample input buf = copy_line input 0 false buf

-- `echo`, with what stands in its array at first: what `puts` prints. It prints it when `gets_sample` has
-- returned NULL, too.
unfoldable pub echo : Bytes → Bytes → Option Bytes
unfolding c_string
echo input buf = elim (gets_sample input buf) [
  | none ↦ none
  | some (is_null, buf') ↦ some (c_string buf' ++ codes "\n")
]
