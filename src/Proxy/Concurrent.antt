-- ===== src/Proxy/Concurrent.antt =====
-- `main` of Assignment3: the options, the listening socket, and the loop that hands each client to a
-- thread or to a process.
pub mod Balance
pub mod Options
mod Tests
use ece.Prelude.{ℕ, zero, suc, Bool, true, false, List, [], ◌∷◌, Bytes, if◌then◌else◌}
use ece.CString.{atoi}
use ece.Sys.{
  Kernel, Event, ForkReply, Stop, M, pure, halt, emit, require, ◌>>=◌, ◌>>◌, sys_accept, sys_close,
}
use ece.Proxy.Upstream.{give_up}
use ece.Proxy.Child.{child}
use ece.Proxy.Sequential.{open_proxy}

-- What `getopt_long` returns for each option.
pub data Opt : Type 0 where
  process : Opt
  thread : Opt
  unknown : Opt
  other : Opt

-- `print_usage(stderr, 1)`; what it prints is left out.
abbrev pub usage : {A : Type 0} → M A
usage = halt (Stop.exited 1)

-- The loop over the options, with `thread_flag`.
unfoldable pub parse_options : List Opt → Bool → M Bool
parse_options [] thread_flag = pure thread_flag
parse_options (Opt.process ∷ opts) thread_flag = parse_options opts thread_flag
parse_options (Opt.thread ∷ opts) thread_flag = parse_options opts true
parse_options (Opt.unknown ∷ opts) thread_flag = usage
parse_options (Opt.other ∷ opts) thread_flag = halt Stop.aborted

module _ (k : Kernel) where
  -- `while(waitpid(-1, NULL, WNOHANG) > 0);`
  unfoldable pub reap : ℕ → M (Unit {0})
  reap zero t = halt Stop.running t
  reap (suc fuel) t = if k.waitpid t then reap fuel (Event.reaped ∷ t) else pure tt t

  -- What `fork` returned: an error, the child's branch, the parent's.
  unfoldable pub after_fork : ℕ → ℕ → ℕ → ℕ → ForkReply → M (Unit {0})
  after_fork fuel proxy_fd client_fd s_addr ForkReply.no_fork = halt (Stop.exited 1)
  after_fork fuel proxy_fd client_fd s_addr ForkReply.in_child =
      child k fuel proxy_fd client_fd s_addr
  after_fork fuel proxy_fd client_fd s_addr ForkReply.in_parent = do
    emit Event.spawned
    sys_close client_fd

  -- The two branches of `if (thread_flag)`. The thread itself is `Thread.thread_handle`.
  unfoldable pub hand_over : ℕ → Bool → ℕ → ℕ → ℕ → M (Unit {0})
  hand_over fuel true proxy_fd client_fd s_addr t = emit Event.spawned t
  hand_over fuel false proxy_fd client_fd s_addr t =
      after_fork fuel proxy_fd client_fd s_addr (k.fork t) t

  -- A round of the loop.
  unfoldable pub accept_client : ℕ → Bool → ℕ → M (Unit {0})
  accept_client fuel thread_flag proxy_fd = do
    accepted ← sys_accept k
    client ← require accepted (give_up (proxy_fd ∷ []) (Stop.exited 1))
    reap fuel
    hand_over fuel thread_flag proxy_fd client.0 client.1

  -- `while (1)`, cut off after a number of rounds.
  unfoldable pub accept_rounds : ℕ → Bool → ℕ → ℕ → M (Unit {0})
  accept_rounds fuel thread_flag proxy_fd zero = pure tt
  accept_rounds fuel thread_flag proxy_fd (suc rounds) = do
    accept_client fuel thread_flag proxy_fd
    accept_rounds fuel thread_flag proxy_fd rounds

  -- `main` behind the options, with `argv` from `optind` on.
  unfoldable pub listen_and_serve : ℕ → ℕ → Bool → List Bytes → M (Unit {0})
  listen_and_serve fuel rounds thread_flag [] = usage
  listen_and_serve fuel rounds thread_flag (port ∷ operands) = do
    proxy_fd ← open_proxy k (atoi port)
    accept_rounds fuel thread_flag proxy_fd rounds

  unfoldable pub main : ℕ → ℕ → List Opt → List Bytes → M (Unit {0})
  main fuel rounds opts operands = do
    thread_flag ← parse_options opts false
    listen_and_serve fuel rounds thread_flag operands
