-- ===== src/TcpServer.antt =====
-- The TCP servers of the lectures: Lecture6/multipleclient/server.c, Lecture7/concurrent_server/server.c
-- and Lecture8/concurrent_server_thread/server.c. Here stands what the three share. stdout is a terminal,
-- so that no text waits in a buffer at `fork`; a `write` to a client that has gone away returns -1.
pub mod Buffer
pub mod Sequential
pub mod Forked
pub mod Threaded
pub mod Client
mod Tests
use ece.Prelude.{
  ℕ, zero, suc, ◌+◌, Bool, not, Option, none, some, List, [], ◌∷◌, ◌++◌, Bytes, codes, length, drop,
  ltb, if◌then◌else◌,
}
use ece.CString.{c_string}
use ece.Sys.{
  Kernel, Event, Stop, M, pure, halt, emit, require, when, ◌>>=◌, ◌>>◌, sys_read, sys_write,
  sys_server_socket,
}

-- `perror` and `exit(EXIT_FAILURE)`.
abbrev pub fails : {A : Type 0} → Bytes → M A
fails prefix = emit (Event.perror prefix) >>= λ _. halt (Stop.exited 1)

abbrev pub port : ℕ
port = 8080

abbrev pub response : Bytes
response = codes "Response from server"

-- `n` bytes of 0.
abbrev pub zeros : ℕ → Bytes
zeros zero = []
zeros (suc n) = 0 ∷ zeros n

-- `buffer` behind a `read` into it.
abbrev pub fill : Bytes → Option Bytes → Bytes
fill buffer none = buffer
fill buffer (some message) = message ++ drop (length message) buffer

-- `printf("%s\n", buffer)`: without a NUL in the array, it reads past its end.
unfoldable pub show : Bytes → M (Unit {0})
unfolding c_string
show buffer =
    if ltb (length (c_string buffer)) (length buffer)
    then emit (Event.print (c_string buffer ++ codes "\n"))
    else halt Stop.undefined

module _ (k : Kernel) where
  -- `socket`, `bind` and `listen`.
  unfoldable pub open_server : M ℕ
  open_server = do
    opened ← sys_server_socket k
    server_fd ← require opened (fails (codes "socket failed"))
    λ t. when (not (k.bind t server_fd port)) (fails (codes "bind failed")) t
    emit (Event.bound server_fd port)
    λ t. when (not (k.listen t server_fd)) (fails (codes "listen")) t
    pure server_fd

  -- A client's message is read and printed, and answered; gives what `buffer` then holds.
  unfoldable pub answer : Bytes → ℕ → M Bytes
  answer buffer fd = do
    message ← sys_read k fd 1024
    show (fill buffer message)
    ok ← sys_write k fd response
    pure (fill buffer message)
