-- ===== src/Proxy/Upstream.antt =====
-- Giving a client up, and the connection to the web server.
pub mod Balance
use ece.Prelude.{ℕ, List, [], ◌∷◌, ◌++◌, Bytes, not}
use ece.Sys.{
  closed, stop, Kernel, Stop, M, pure, halt, emit, require, when, Event, ◌>>=◌, ◌>>◌,
  sys_getaddrinfo, sys_socket, sys_connect,
}

-- The descriptors that the caller closes when it gives up, and how it ends then: a thread returns,
-- a process exits with status 1.
pub record Caller : Type 0 where
  pub fds : List ℕ
  pub verdict : Stop

abbrev pub give_up : {A : Type 0} → List ℕ → Stop → M A
give_up fds verdict t = (stop verdict, closed fds t)

module _ (k : Kernel) where
  -- `getaddrinfo`, `socket`, `connect` and `freeaddrinfo`, each with its error exit.
  unfoldable pub connect_server : Caller → Bytes → Bytes → M ℕ
  connect_server who host service = do
    found ← sys_getaddrinfo k host service
    servinfo ← require found (give_up who.fds who.verdict)
    made ← sys_socket k servinfo
    server_fd ← require made (give_up who.fds who.verdict)
    connected ← sys_connect k server_fd servinfo
    when (not connected) (give_up (who.fds ++ server_fd ∷ []) who.verdict)
    emit (Event.free servinfo)
    pure server_fd
