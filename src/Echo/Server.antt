-- ===== src/Echo/Server.antt =====
-- What the echo servers have in common: what arrives, and what they do about it.
pub mod Plain
pub mod Select
pub mod Alarm
pub mod Action
pub mod Timeout
pub mod Answers
use ece.Prelude.{ℕ, List, [], ◌∷◌, Bytes, Bool, if◌then◌else◌}

abbrev pub maxline : ℕ
maxline = 4096

-- What a server meets that waits in `recvfrom`: a datagram from an address; five seconds in which none
-- comes; an error of the call. `recvfrom` cuts a datagram that is longer than MAXLINE.
pub data Arrival : Type 0 where
  datagram : (msg : Bytes) → (cliaddr : ℕ) → Arrival
  silence : Arrival
  failed : Arrival

-- What it does: `sendto`, or a line on stderr.
pub data Note : Type 0 where
  echo : (msg : Bytes) → (cliaddr : ℕ) → Note
  timeout : Note
  error : Note

-- How it is left: it waits in `recvfrom`; it has written to `msg[-1]`, which is undefined; it has
-- exited.
pub data End : Type 0 where
  waiting : End
  undefined : End
  exited : ℕ → End

abbrev pub Run : Type 0
Run = List Note × End

abbrev pub note : Note → Run → Run
note n (notes, end) = (n ∷ notes, end)

-- What arrives at `sockfd`, whose `socket` is not checked: on -1 each call fails.
abbrev pub at_socket : Bool → List Arrival → List Arrival
at_socket made arrivals = if made then arrivals else Arrival.failed ∷ []
