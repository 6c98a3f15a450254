-- ===== src/Echo/Client.antt =====
-- What the echo clients have in common: the loop over the lines of stdin.
pub mod Plain
pub mod Select
pub mod Alarm
pub mod Action
pub mod Timeout
pub mod Ends
use ece.Prelude.{◌-◌, some, none, ◌-◌, ℕ, List, [], ◌∷◌, Bytes, Bool, if◌then◌else◌}
use ece.CString.{c_string}
use ece.CString.Lines.{fgets}

abbrev pub maxline : ℕ
maxline = 4096

-- What the client meets that waits in `recvfrom`, as in the servers.
pub data Reply : Type 0 where
  answer : (recvline : Bytes) → Reply
  silence : Reply
  failed : Reply

-- `sendto`; `fputs` to stdout; a line on stderr.
pub data Note : Type 0 where
  send : (sendline : Bytes) → Note
  print : (recvline : Bytes) → Note
  timeout : Note
  error : Note

-- How the client is left: `echo_client` has returned; it waits in `recvfrom`; it has written to
-- `recvline[-1]`, which is undefined; it has exited, or returned from `main`, with a status.
pub data End : Type 0 where
  returned : End
  waiting : End
  undefined : End
  exited : ℕ → End

abbrev pub Run : Type 0
Run = List Note × End

abbrev pub note : Note → Run → Run
note n (notes, end) = (n ∷ notes, end)

-- `while (fgets(sendline, MAXLINE, fp) != NULL) { sendto(…); … }`. `handle` is what follows `sendto`, on
-- what `recvfrom` comes to and the rest of the loop. When the replies are spent, it waits.
unfoldable pub loop : (Reply → Run → Run) → List Reply → Bytes → Run
loop handle [] text = elim (fgets (maxline - 1) text) [
  | none ↦ ([], End.returned)
  | some (line, rest) ↦ note (Note.send (c_string line)) ([], End.waiting)
]
loop handle (reply ∷ replies) text = elim (fgets (maxline - 1) text) [
  | none ↦ ([], End.returned)
  | some (line, rest) ↦ note (Note.send (c_string line)) (handle reply (loop handle replies rest))
]

-- `main`: whether `inet_pton` and `socket` succeed, and `echo_client`.
abbrev pub finish : Run → Run
finish (notes, End.returned) = (notes, End.exited 0)
finish (notes, end) = (notes, end)

abbrev pub start : Bool → Bool → Run → Run
start converted made run =
    if converted then if made then finish run else ([], End.exited 255) else ([], End.exited 255)
