-- ===== src/ErrMsg/Shell/Runs.antt =====
-- The commands are those of the lines.
use ece.Prelude.{◌≢◌, ◌<◌, Option, some, none, List, [], ◌∷◌, ◌++◌, Bytes, length, All}
use ece.ErrMsg.{err_ret}
use ece.ErrMsg.Shell.{Reply, Event, not_found}

-- A command that stands on a line of its own, without a NUL.
abbrev pub IsCommand : Bytes → Type 0
IsCommand cmd = All (λ c. (c ≢ 0) × (c ≢ b'\n')) cmd × (length cmd < 4095)

-- What `execlp` comes to for a command: it runs, or there is an error with that text.
abbrev pub reply_of : Bytes × Option Bytes → Reply
reply_of (cmd, none) = Reply.done
reply_of (cmd, some error) = Reply.no_exec error

abbrev pub event_of : Bytes × Option Bytes → Event
event_of (cmd, none) = Event.ran cmd
event_of (cmd, some error) = Event.not_run (err_ret (not_found ++ cmd) error)

-- The text of the commands, each with a newline.
unfoldable pub script : List (Bytes × Option Bytes) → Bytes
script [] = []
script ((cmd, error) ∷ cmds) = cmd ++ (b'\n' ∷ script cmds)

-- The prompt stands behind each of the events.
unfoldable pub session : List (Bytes × Option Bytes) → List Event
session [] = []
session (c ∷ cmds) = event_of c ∷ Event.prompt ∷ session cmds
