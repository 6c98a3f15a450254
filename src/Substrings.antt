-- ===== src/Substrings.antt =====
-- Assignment1/jwh139-p01/p01.c: counting substrings in a file, with system calls or with <stdio.h>.
pub mod Count
pub mod Agree
mod Tests
use ece.Prelude.{
  ◌^◌, ◌%◌, pos_part, signed32, ℕ, zero, suc, ◌+◌, ◌-◌, Option, none, some, Bool, true, false, List,
  [], ◌∷◌, ◌++◌, map, Bytes, ltb, not, if◌then◌else◌, length, take, drop,
}
use ece.CString.{strncasecmp_eq}

-- `for (j = 0; j < rounds; j++) if (strncasecmp(ptr++, substring, substringLen) == 0) count++;`
unfoldable pub count_loop : ℕ → Bytes → Bytes → ℕ → ℕ → ℕ
count_loop zero ptr substring substring_len count = count
count_loop (suc rounds) ptr substring substring_len count =
    count_loop rounds (drop 1 ptr) substring substring_len
      (if strncasecmp_eq ptr substring substring_len then count + 1 else count)

-- `size - substringLen + 1` of two `int` patterns, as the rounds of a loop from 0: none if it is not
-- positive. Where the result does not fit an `int`, which C leaves undefined, it wraps.
abbrev pub round_count : ℕ → ℕ → ℕ
round_count size substring_len = pos_part (signed32 ((size + 2 ^ 32 - substring_len + 1) % 2 ^ 32))

-- `countSubstrings`; `size` is an `int` pattern, and so is what `strlen` gives. `count` is at most the
-- number of rounds, so that it stays an `int`.
unfoldable pub count_substrings : Bytes → Bytes → ℕ → ℕ
count_substrings buffer substring size =
    let substring_len = length substring % 2 ^ 32 in
    count_loop (round_count size substring_len) buffer substring substring_len 0

-- How the process ends: by `exit` or `return`, or by `abort`.
pub data End : Type 0 where
  exit : ℕ → End
  abort : End

-- What is written to stdout besides the usage text, a number a line, and the end.
abbrev pub Run : Type 0
Run = List ℕ × End

-- The files, and the replies of the calls on them. `st_size` is the field that `stat` leaves, whatever it
-- is where `stat` fails. `read_fails` is whether the `read` of that number, from 0 on, fails;
-- `fread_error` is the number of bytes behind which `fread` meets an error, if it does.
pub record Files : Type 0 where
  pub contents : Bytes → Bytes
  pub st_size : Bytes → ℕ
  pub calloc : ℕ → Bool
  pub opens : Bytes → Bool
  pub closes : Bytes → Bool
  pub read_fails : ℕ → Bool
  pub fopens : Bytes → Bool
  pub fcloses : Bytes → Bool
  pub fread_error : Option ℕ

abbrev pub print_usage : ℕ → Run
print_usage exit_code = ([], exit exit_code)

-- One `read` of one byte into a buffer of zeros, by whether it fails, and what is left of the file. A
-- failing one, and one at the end of the file, leave the zero.
unfoldable pub read_byte : Bool → Bytes → ℕ × Bytes
read_byte true text = (0, text)
read_byte false [] = (0, [])
read_byte false (c ∷ text) = (c, text)

-- `for (long i = 0; i < size; i++) read(fd, ptr++, 1);`, for a number of rounds: the buffer from `ptr` on.
unfoldable pub read_loop : (ℕ → Bool) → ℕ → ℕ → Bytes → Bytes
read_loop fails i zero text = []
read_loop fails i (suc rounds) text =
    let (c, rest) = read_byte (fails i) text in c ∷ read_loop fails (i + 1) rounds rest

-- A buffer of `size` zero bytes with what `fread` has put over its beginning.
unfoldable pub fill : ℕ → Bytes → Bytes
fill zero text = []
fill (suc size) [] = 0 ∷ fill size []
fill (suc size) (c ∷ text) = c ∷ fill size text

-- What `fread` gets of a text. Its result is never -1: it is unsigned, and at most `size`.
unfoldable pub fread : Option ℕ → ℕ → Bytes → Bytes
fread none size text = fill size text
fread (some n) size text = fill size (take n text)

-- The counts, in which `size` becomes an `int`; they are printed before the file is closed.
abbrev pub finish : Bool → ℕ → Bytes → List Bytes → Run
finish closes size buffer substrings = (
  map (λ s. count_substrings buffer s (size % 2 ^ 32)) substrings,
  if closes then exit 0 else exit 1,
)

-- The implementation with system calls; `args` is `argv` from `optind` on.
unfoldable pub run_system : Files → List Bytes → Run
run_system fs [] = print_usage 1
run_system fs (path ∷ []) = print_usage 1
run_system fs (path ∷ s ∷ substrings) =
    let size = fs.st_size path in
    if not (fs.opens path)
    then ([], exit 1)
    else if not (fs.calloc size)
    then ([], exit 1)
    else finish (fs.closes path) size (read_loop fs.read_fails 0 size (fs.contents path))
        (s ∷ substrings)

-- The implementation with <stdio.h>; `args` is `argv` from 1 on.
unfoldable pub run_stdio : Files → List Bytes → Run
run_stdio fs [] = print_usage 1
run_stdio fs (path ∷ []) = print_usage 1
run_stdio fs (path ∷ s ∷ substrings) =
    let size = fs.st_size path in
    if not (fs.calloc size)
    then ([], exit 1)
    else if not (fs.fopens path)
    then ([], exit 1)
    else finish (fs.fcloses path) size (fread fs.fread_error size (fs.contents path))
        (s ∷ substrings)

-- What `getopt_long` returns for each option.
pub data Opt : Type 0 where
  help : Opt
  systemcalls : Opt
  unknown : Opt
  other : Opt

-- The loop over the options, and what follows it; `operands` is `argv` from `optind` on, and `argv`
-- all from 1 on.
unfoldable pub main_opts : Files → List Opt → Bool → List Bytes → List Bytes → Run
main_opts fs (help ∷ opts) system_flag operands argv = print_usage 0
main_opts fs (systemcalls ∷ opts) system_flag operands argv = main_opts fs opts true operands argv
main_opts fs (unknown ∷ opts) system_flag operands argv = print_usage 1
main_opts fs (other ∷ opts) system_flag operands argv = ([], abort)
main_opts fs [] true operands argv = run_system fs operands
main_opts fs [] false operands argv = run_stdio fs argv

unfoldable pub main : Files → List Opt → List Bytes → List Bytes → Run
main fs opts operands argv = main_opts fs opts false operands argv
