-- ===== src/ErrMsg/Shell.antt =====
-- `main` of Lecture3/process_control/main.c: a shell for commands of one word.
pub mod Runs
use mathlib.Core.Option
use ece.Prelude.{ℕ, Option, some, none, List, [], ◌∷◌, ◌++◌, Bytes, codes, ◌==◌, if◌then◌else◌}
use ece.CString.{c_string}
use ece.CString.Lines.{fgets}
use ece.ErrMsg.{true, maxline, err_ret, err_doit}

-- What a round of the loop comes to; the errors have their texts. In `no_exec` the child goes on behind
-- `execlp`.
pub data Reply : Type 0 where
  done : Reply
  no_fork : (error : Bytes) → Reply
  no_exec : (error : Bytes) → Reply
  no_wait : (error : Bytes) → Reply

-- What the shell does: it prints its prompt; a child runs a command, or ends with status 127, with what
-- it prints to stderr (`none`: it writes behind its array); the shell does so with an error.
pub data Event : Type 0 where
  prompt : Event
  ran : (command : Bytes) → Event
  not_run : (message : Option Bytes) → Event
  failed : (message : Option Bytes) → Event

-- `running`: it waits for a child, or for what a further call of `fork` comes to.
pub data End : Type 0 where
  exited : ℕ → End
  undefined : End
  running : End

abbrev pub Run : Type 0
Run = List Event × End

abbrev pub event : Event → Run → Run
event e (events, end) = (e ∷ events, end)

-- The newline at the end of a string is replaced with NUL.
unfoldable pub strip_newline : Bytes → Bytes
strip_newline [] = []
strip_newline (c ∷ []) = if c == b'\n' then [] else c ∷ []
strip_newline (c ∷ d ∷ s) = c ∷ strip_newline (d ∷ s)

-- The command in `buf`; `none`: `buf[strlen(buf) - 1]` stands in front of the array.
unfoldable pub command : Bytes → Option Bytes
command [] = none
command (c ∷ s) = some (strip_newline (c ∷ s))

-- `err_sys` in the shell.
abbrev pub end_with : Option Bytes → Run
end_with none = (Event.failed none ∷ [], End.undefined)
end_with (some message) = (Event.failed (some message) ∷ [], End.exited 1)

abbrev pub fail : Bytes → Bytes → Run
fail text error = end_with (err_doit true error text)

abbrev pub not_found : Bytes
not_found = codes "couldn" ++ (0xe2 ∷ 0x80 ∷ 0x99 ∷ codes "t execute: ")

-- The body of the loop, with the rest of it.
unfoldable pub round : Run → Reply → Option Bytes → Run
round next reply none = ([], End.undefined)
round next Reply.done (some buf) = event (Event.ran buf) (event Event.prompt next)
round next (Reply.no_fork error) (some buf) = fail (codes "fork error") error
round next (Reply.no_exec error) (some buf) =
    event (Event.not_run (err_ret (not_found ++ buf) error)) (event Event.prompt next)
round next (Reply.no_wait error) (some buf) =
    event (Event.ran buf) (fail (codes "waitpid error") error)

unfoldable pub rounds : List Reply → Bytes → Run
rounds [] stdin = elim (fgets 4095 stdin) [
  | none ↦ ([], End.exited 0)
  | some (line, rest) ↦ ([], End.running)
]
rounds (reply ∷ replies) stdin = elim (fgets 4095 stdin) [
  | none ↦ ([], End.exited 0)
  | some (line, rest) ↦ round (rounds replies rest) reply (command (c_string line))
]

unfoldable pub main : List Reply → Bytes → Run
main replies stdin = event Event.prompt (rounds replies stdin)
