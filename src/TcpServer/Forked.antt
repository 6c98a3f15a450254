-- ===== src/TcpServer/Forked.antt =====
-- `main` of Lecture7/concurrent_server/server.c: a process for each client. `sleep` is left out.
pub mod Safe
use ece.Prelude.{ℕ, zero, suc, Bytes, codes}
use ece.Sys.{
  Kernel, Event, ForkReply, Stop, M, pure, halt, emit, require, ◌>>=◌, ◌>>◌, sys_accept, sys_close,
}
use ece.TcpServer.{fails, zeros, open_server, answer}

module _ (k : Kernel) where
  -- The branch of the child process.
  unfoldable pub serve_child : ℕ → Bytes → ℕ → M (Unit {0})
  serve_child server_fd buffer client_fd = do
    sys_close server_fd
    buffer' ← answer k buffer client_fd
    emit (Event.print (codes "Response msg sent\n"))
    halt (Stop.exited 0)

  -- What stands behind the `if`; a `fork` that has failed gets there too.
  unfoldable pub close_client : ℕ → M (Unit {0})
  close_client client_fd = do sys_close client_fd; emit (Event.print (codes "after close socket\n"))

  unfoldable pub after_fork : ℕ → Bytes → ℕ → ForkReply → M (Unit {0})
  after_fork server_fd buffer client_fd ForkReply.in_child = serve_child server_fd buffer client_fd
  after_fork server_fd buffer client_fd ForkReply.no_fork = close_client client_fd
  after_fork server_fd buffer client_fd ForkReply.in_parent = do
    emit Event.spawned
    close_client client_fd

  -- A round of the loop. The parent never writes to `buffer`.
  unfoldable pub accept_client : ℕ → Bytes → M (Unit {0})
  accept_client server_fd buffer = do
    accepted ← sys_accept k
    client ← require accepted (fails (codes "accept"))
    λ t. after_fork server_fd buffer client.0 (k.fork t) t

  -- `while(1)`, cut off after a number of rounds.
  unfoldable pub accept_rounds : ℕ → Bytes → ℕ → M (Unit {0})
  accept_rounds server_fd buffer zero = pure tt
  accept_rounds server_fd buffer (suc rounds) = do
    accept_client server_fd buffer
    accept_rounds server_fd buffer rounds

  unfoldable pub main : ℕ → M (Unit {0})
  main rounds = do server_fd ← open_server k; accept_rounds server_fd (zeros 1024) rounds
