-- ===== src/Substrings/Agree.antt =====
-- The two implementations print the same.
use ece.Prelude.{
  if◌then◌else◌, not, some, Option, ◌∙◌, ℕ, zero, suc, ◌+◌, ◌≡◌, refl, false, none, Bool, List, [],
  ◌∷◌, Bytes, ap, arith,
}
use ece.Substrings.{
  Run, exit, finish, Files, systemcalls, main, main_opts, run_system, run_stdio, read_byte,
  read_loop, fill, fread,
}

-- Bytes read one by one are those of one `fread`.
read_loop-fill :
    (fails : ℕ → Bool) (i rounds : ℕ) (text : Bytes)
    → ((j : ℕ) → fails j ≡ false)
    → read_loop fails i rounds text ≡ fill rounds text
unfolding read_loop read_byte fill
read_loop-fill fails i zero text h = refl
read_loop-fill fails i (suc rounds) [] h =
    rw (h i) (ap (λ q. 0 ∷ q) (read_loop-fill fails (i + 1) rounds [] h))
read_loop-fill fails i (suc rounds) (c ∷ text) h =
    rw (h i) (ap (λ q. c ∷ q) (read_loop-fill fails (i + 1) rounds text h))

buffers :
    (fails : ℕ → Bool) (error : Option ℕ) (size : ℕ) (text : Bytes)
    → ((i : ℕ) → fails i ≡ false)
    → error ≡ none
    → read_loop fails 0 size text ≡ fread error size text
unfolding fread
buffers fails none size text reads whole = read_loop-fill fails 0 size text reads
buffers fails (some n) size text reads whole = absurd (ground arith)

-- The file is opened before there is memory, or after it.
two_orders :
    (o o' c : Bool) (r r' : Run)
    → o ≡ o'
    → r ≡ r'
    → (if not o then ([], exit 1) else if not c then ([], exit 1) else r)
      ≡ (if not c then ([], exit 1) else if not o' then ([], exit 1) else r')
two_orders o o' c r r' e f = ground arith

-- Let no `read` fail and `fread` meet no error, and let `fopen` and `fclose` succeed on the file just if
-- `open` and `close` do. With `-s` or `--systemcalls` in front of the operands, the program prints the
-- same counts and ends as it does on the operands alone, whatever the file holds and `stat` gives as
-- its size, whether or not it can be opened and closed, and with or without memory.
pub main-systemcalls :
    (fs : Files) (path opt : Bytes) (substrings : List Bytes)
    → ((i : ℕ) → fs.read_fails i ≡ false)
    → fs.fread_error ≡ none
    → fs.opens path ≡ fs.fopens path
    → fs.closes path ≡ fs.fcloses path
    → main fs (systemcalls ∷ []) (path ∷ substrings) (opt ∷ path ∷ substrings)
      ≡ main fs [] (path ∷ substrings) (path ∷ substrings)
unfolding main main_opts run_system run_stdio fread
main-systemcalls fs path opt [] reads whole opens closes = refl
main-systemcalls fs path opt (s ∷ substrings) reads whole opens closes =
    two_orders (fs.opens path) (fs.fopens path) (fs.calloc (fs.st_size path)) _ _ opens (
      ap (λ b. finish (fs.closes path) (fs.st_size path) b (s ∷ substrings))
        (buffers fs.read_fails fs.fread_error (fs.st_size path) (fs.contents path) reads whole)
      ∙ ap
          (λ c.
            finish c (fs.st_size path) (fread fs.fread_error (fs.st_size path) (fs.contents path))
              (s ∷ substrings))
          closes)
