-- ===== src/TcpServer/Threaded.antt =====
-- Lecture8/concurrent_server_thread/server.c: a thread for each client. Each gets the descriptor in a cell
-- of its own from `malloc`, which it frees. `sleep` is left out.
pub mod Safe
use ece.Prelude.{not, ℕ, zero, suc, Bool, Option, ◌++◌, ◌∷◌, Bytes, codes}
use ece.CString.Decimal.{show_ℕ}
use ece.Sys.{
  value, Kernel, Event, Stop, Trace, M, pure, halt, emit, require, when, ◌>>=◌, ◌>>◌, sys_accept,
  sys_close,
}
use ece.TcpServer.{fails, zeros, open_server, answer}

-- A text, a number, and the end of the line.
abbrev print_line : Bytes → ℕ → M (Unit {0})
print_line text n = emit (Event.print (text ++ show_ℕ n ++ codes "\n"))

module _ (k : Kernel) where
  -- A thread, with its `pthread_self`.
  unfoldable pub thread_handle : ℕ → ℕ → M (Unit {0})
  thread_handle self connfd = do
    print_line (codes "Entering the thread: ") self
    buffer ← answer k (zeros 1024) connfd
    print_line (codes "Response msg sent from the thread: ") self
    sys_close connfd

  -- The replies of `malloc` and of `pthread_create`, which gives the number of the thread.
  module _ (malloc : Trace → Bool) (create : Trace → Option ℕ) where
    -- A round of the loop; gives the number and the descriptor of the thread that it starts. A failing
    -- `malloc` makes a write to the null pointer, a failing `pthread_create` a use of a `tid` that is
    -- not set, or no longer of a thread of this program's.
    unfoldable pub start_thread : M (ℕ × ℕ)
    start_thread = do
      emit (Event.print (codes "Waiting for a client to connect" ++ 226 ∷ 128 ∷ 166 ∷ codes "\n"))
      cell ← λ t. (value (malloc t), t)
      accepted ← sys_accept k
      when (not cell) (halt Stop.undefined)
      client ← require accepted (fails (codes "accept"))
      tid ← λ t. require (create t) (halt Stop.undefined) t
      emit Event.spawned
      print_line (codes "from main(): tid = ") tid
      pure (tid, client.0)

    -- `while(1)`, cut off after a number of rounds.
    unfoldable pub start_threads : ℕ → M (Unit {0})
    start_threads zero = pure tt
    start_threads (suc rounds) = do thread ← start_thread; start_threads rounds

    unfoldable pub main : ℕ → M (Unit {0})
    main rounds = do server_fd ← open_server k; start_threads rounds
