-- ===== src/TcpServer/Sequential.antt =====
-- `main` of Lecture6/multipleclient/server.c: one client after the other, all with the same array.
pub mod Safe
use ece.Prelude.{ℕ, zero, suc, Bytes, codes}
use ece.Sys.{Kernel, Event, M, pure, emit, require, ◌>>=◌, ◌>>◌, sys_accept, sys_close}
use ece.TcpServer.{fails, zeros, open_server, answer}

module _ (k : Kernel) where
  -- A round of the loop.
  unfoldable pub serve_client : ℕ → Bytes → M Bytes
  serve_client server_fd buffer = do
    accepted ← sys_accept k
    client ← require accepted (fails (codes "accept"))
    buffer' ← answer k buffer client.0
    emit (Event.print (codes "Response msg sent\n"))
    sys_close client.0
    pure buffer'

  -- `while(1)`, cut off after a number of rounds.
  unfoldable pub serve : ℕ → Bytes → ℕ → M Bytes
  serve server_fd buffer zero = pure buffer
  serve server_fd buffer (suc rounds) = do
    buffer' ← serve_client server_fd buffer
    serve server_fd buffer' rounds

  unfoldable pub main : ℕ → M Bytes
  main rounds = do server_fd ← open_server k; serve server_fd (zeros 1024) rounds
