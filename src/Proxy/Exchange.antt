-- ===== src/Proxy/Exchange.antt =====
-- What the three proxies do alike between the request and the log: Assignment3's thread and child,
-- and the loop of Assignment2. They differ in the descriptors that they close on an error, and in
-- whether they return or exit then.
pub mod Balance
use ece.Prelude.{ℕ, [], ◌∷◌, Bytes, codes, not, ◌++◌}
use ece.Sys.{Kernel, Stop, M, pure, halt, require, when, ◌>>=◌, ◌>>◌, sys_write}
use ece.Proxy.Url.{Target, parse_url, parse_authority}
use ece.Proxy.Request.{RequestLine, rewrite_request}
use ece.Proxy.Upstream.{Caller, give_up, connect_server}
use ece.Proxy.Relay.{relay}
use ece.Proxy.Tunnel.{Totals, tunnel}

-- The socket to the web server, and what was counted.
pub record Served (A : Type 0) : Type 0 where
  pub server_fd : ℕ
  pub total : A

module _ (k : Kernel) (who : Caller) (fuel client_fd : ℕ) where
  unfoldable pub send : ℕ → Bytes → M (Unit {0})
  send server_fd request = do
    sent ← sys_write k server_fd request
    when (not sent) (give_up (who.fds ++ server_fd ∷ []) who.verdict)

  -- The rewritten request is sent, and the response passed on.
  unfoldable pub forward : Bytes → RequestLine → Target → ℕ → M ℕ
  forward buffer line target server_fd = do
    resource ← require target.resource (halt Stop.undefined)
    version ← require line.version (halt Stop.undefined)
    request ← require (rewrite_request buffer resource version) (halt Stop.undefined)
    send server_fd request
    relay k fuel client_fd server_fd

  unfoldable pub fetch_from : Bytes → RequestLine → Target → M (Served ℕ)
  fetch_from buffer line target = do
    host ← require target.host (halt Stop.undefined)
    server_fd ← connect_server k who host (codes "http")
    total ← forward buffer line target server_fd
    pure (record { server_fd = server_fd; total = total })

  -- The GET branch up to the log.
  unfoldable pub fetch : Bytes → RequestLine → Bytes → M (Served ℕ)
  fetch buffer line url = do
    target ← require (parse_url url) (give_up who.fds who.verdict)
    fetch_from buffer line target

  -- The answer to the client, and the loop.
  unfoldable pub bridge : ℕ → M Totals
  bridge server_fd = do
    sent ← sys_write k client_fd (codes "HTTP/1.1 200 Connection Established\r\n\r\n")
    tunnel k who client_fd server_fd fuel (record { from_client = 0; from_server = 0 })

  unfoldable pub join_to : Target → M (Served Totals)
  join_to target = do
    host ← require target.host (halt Stop.undefined)
    server_fd ← connect_server k who host (codes "https")
    totals ← bridge server_fd
    pure (record { server_fd = server_fd; total = totals })

  -- The CONNECT branch up to the log.
  unfoldable pub join : Bytes → M (Served Totals)
  join url = do target ← require (parse_authority url) (give_up who.fds who.verdict); join_to target
