-- ===== src/TcpServer/Client.antt =====
-- The clients of the TCP servers: Lecture6/multipleclient/client.c, Lecture7/concurrent_server/client.c, and
-- client.c and client_thread.c of Lecture8/concurrent_server_thread. All open two sockets, and greet the server
-- on each. `inet_pton` takes "127.0.0.1" for the address `loopback`; it does not fail.
pub mod Ends
use ece.Prelude.{
  ℕ, Bool, not, Option, none, some, [], ◌∷◌, ◌++◌, Bytes, codes, length, ltb, if◌then◌else◌,
}
use ece.CString.{c_string}
use ece.CString.Decimal.{show_ℕ}
use ece.Sys.{
  Kernel, Event, ForkReply, Stop, Trace, M, pure, halt, emit, require, when, ◌>>=◌, ◌>>◌, sys_read,
  sys_write, sys_connect, sys_server_socket, value,
}
use ece.TcpServer.{zeros, fill}

abbrev pub hello1 : Bytes
hello1 = codes "Hello from client 1"

abbrev pub hello2 : Bytes
hello2 = codes "Hello from client 2"

abbrev pub loopback : ℕ
loopback = 0x0100007f

abbrev pub say : Bytes → M (Unit {0})
say text = emit (Event.print text)

-- A text is printed, and `main` returns -1.
abbrev pub gives_up : {A : Type 0} → Bytes → M A
gives_up text = say text >>= λ _. halt (Stop.exited 255)

-- `printf` of a text, the string in an array, and the end of the line.
unfoldable pub show_behind : Bytes → Bytes → M (Unit {0})
unfolding c_string
show_behind text buffer =
    if ltb (length (c_string buffer)) (length buffer)
    then say (text ++ c_string buffer ++ codes "\n")
    else halt Stop.undefined

abbrev pub sent1 : Bytes
sent1 = codes "Hello message sent from client 1\n"

abbrev pub sent2 : Bytes
sent2 = codes "Hello message sent from client 2\n"

abbrev pub no_socket : {A : Type 0} → M A
no_socket = gives_up (codes "\n Socket creation error \n")

abbrev pub no_server : M (Unit {0})
no_server = gives_up (codes "\nConnection Failed \n")

-- `perror`, and `main` returns -1.
abbrev pub perror_returns : {A : Type 0} → Bytes → M A
perror_returns prefix = emit (Event.perror prefix) >>= λ _. halt (Stop.exited 255)

module _ (k : Kernel) where
  -- Both calls of `socket`; what is done where one fails.
  unfoldable pub open_sockets : M ℕ → M (ℕ × ℕ)
  open_sockets failed = do
    opened1 ← sys_server_socket k
    sock1 ← require opened1 failed
    opened2 ← sys_server_socket k
    sock2 ← require opened2 failed
    pure (sock1, sock2)

  -- `connect`, and what is done where it fails.
  unfoldable pub join_server : ℕ → M (Unit {0}) → M (Unit {0})
  join_server sock failed = do ok ← sys_connect k sock loopback; when (not ok) failed

  -- The greeting, and the line about it.
  unfoldable pub greet : ℕ → Bytes → Bytes → M (Unit {0})
  greet sock hello line = do ok ← sys_write k sock hello; say line

  -- The server's message, into an array of zeros.
  unfoldable pub hear : ℕ → Bytes → M (Unit {0})
  hear sock text = do message ← sys_read k sock 1024; show_behind text (fill (zeros 1024) message)

  -- Lecture6: one connection after the other.
  unfoldable pub main_in_turn : M (Unit {0})
  main_in_turn = do
    socks ← open_sockets no_socket
    join_server socks.0 no_server
    greet socks.0 hello1 sent1
    hear socks.0 []
    join_server socks.1 no_server
    greet socks.1 hello2 sent2
    hear socks.1 []

  -- Lecture8, client.c: both connections at once.
  unfoldable pub main_together : M (Unit {0})
  main_together = do
    socks ← open_sockets no_socket
    join_server socks.0 no_server
    join_server socks.1 no_server
    greet socks.0 hello1 sent1
    greet socks.1 hello2 sent2
    hear socks.0 (codes "Client 1 received: ")
    hear socks.1 (codes "Client 2 received: ")

  -- Lecture7: the first connection in the parent, also where `fork` fails, the second in the child.
  unfoldable pub after_fork : ℕ × ℕ → ForkReply → M (Unit {0})
  after_fork socks ForkReply.in_child = do
    join_server socks.1 (gives_up (codes "\nConnection from client 2 failed \n"))
    greet socks.1 hello2 sent2
    hear socks.1 (codes "Client 2 received: ")
  after_fork socks reply = do
    join_server socks.0 (gives_up (codes "\nConnection from client 1 failed \n"))
    greet socks.0 hello1 sent1
    hear socks.0 (codes "Client 1 received: ")

  unfoldable pub main_forked : M (Unit {0})
  main_forked = do socks ← open_sockets no_socket; λ t. after_fork socks (k.fork t) t

  -- Lecture8, client_thread.c: a thread, with its `pthread_self` and its parameters.
  unfoldable pub thread_handle : ℕ → ℕ → Bytes → M (Unit {0})
  thread_handle self fd msg = do
    say (codes "entering thread " ++ show_ℕ self ++ codes "\n")
    greet fd msg (codes "Sent from socket " ++ show_ℕ fd ++ codes ": " ++ msg ++ codes "\n")
    hear fd (codes "Received from sock " ++ show_ℕ fd ++ codes ": ")

  -- `main` up to the calls of `pthread_join`; gives the parameters of the two threads. `create` is whether
  -- `pthread_create` succeeds: it fails with a positive number, which the test for a negative one does
  -- not find, and `pthread_join` is called with a `tid` that is not set.
  unfoldable pub main_threads : (Trace → Bool) → M ((ℕ × Bytes) × (ℕ × Bytes))
  main_threads create = do
    socks ← open_sockets (perror_returns (codes "socket"))
    join_server socks.0 (perror_returns (codes "connect"))
    made1 ← λ t. (value (create t), t)
    emit Event.spawned
    join_server socks.1 (perror_returns (codes "connect"))
    made2 ← λ t. (value (create t), t)
    emit Event.spawned
    say (codes "Main thread wants for handle threads ...\n")
    when (not made1) (halt Stop.undefined)
    when (not made2) (halt Stop.undefined)
    pure ((socks.0, hello1), (socks.1, hello2))
