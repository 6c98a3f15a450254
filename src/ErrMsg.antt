-- ===== src/ErrMsg.antt =====
-- `err_doit` and the functions around it, which Lecture3/process_control, Lecture4/directory,
-- Lecture5/daytime/daytimetcpcli.c and others have a copy of, and the mains of the last two.
pub mod Fits
pub mod Directory
pub mod Daytime
pub mod Shell
mod Tests
use ece.Prelude.{
  ℕ, ◌+◌, ◌-◌, Bool, true, false, Option, some, none, [], ◌∷◌, ◌++◌, Bytes, codes, length, take,
  ltb, if◌then◌else◌,
}

abbrev pub maxline : ℕ
maxline = 4096

-- What `vsnprintf` and `snprintf` store of a text in an array of that size.
abbrev pub vsnprintf : ℕ → Bytes → Bytes
vsnprintf size text = take (size - 1) text

unfoldable pub add_error : Bool → Bytes → Bytes → Bytes
add_error false error buf = buf
add_error true error buf = buf ++ vsnprintf (maxline - length buf) (codes ": " ++ error)

-- `strcat(buf, "\n")`; `none`: the array ends in front of the NUL, which is undefined.
unfoldable pub add_newline : Bytes → Option Bytes
add_newline buf = if ltb (length buf + 1) maxline then some (buf ++ b'\n' ∷ []) else none

-- What is written to stderr. `text` is what the format gives, `error` is `strerror(error)`.
unfoldable pub err_doit : Bool → Bytes → Bytes → Option Bytes
err_doit errnoflag error text = add_newline (add_error errnoflag error (vsnprintf maxline text))

-- How a process ends: `return n` in `main` is `exit(n)`.
pub data End : Type 0 where
  exited : ℕ → End
  undefined : End

pub record Run : Type 0 where
  pub stdout : Bytes
  pub stderr : Bytes
  pub end : End

abbrev pub exit : ℕ → Run
exit n = record { stdout = []; stderr = []; end = End.exited n }

abbrev pub print : Bytes → Run → Run
print text r = record r { stdout = text ++ r.stdout }

abbrev pub with_message : Option Bytes → Run
with_message none = record { stdout = []; stderr = []; end = End.undefined }
with_message (some message) = record (exit 1) { stderr = message }

unfoldable pub err_sys : Bytes → Bytes → Run
err_sys text error = with_message (err_doit true error text)

unfoldable pub err_ret : Bytes → Bytes → Option Bytes
err_ret text error = err_doit true error text

-- EXIT_FAILURE is 1.
abbrev pub err_quit : Bytes → Run
err_quit text = record (exit 1) { stderr = text }
