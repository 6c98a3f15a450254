-- ===== src/Proxy/Sequential.antt =====
-- The proxy of Assignment2: one client at a time, in one process.
pub mod Balance
use ece.Prelude.{
  if◌then◌else◌, ℕ, zero, suc, Option, none, some, true, false, not, [], ◌∷◌, Bytes, codes, List,
  ◌%◌, ◌^◌, ◌-◌, ℤ, pos, negsuc,
}
use ece.CString.{c_string, strncasecmp_eq, atoi}
use ece.Sys.{
  Kernel, Event, Stop, M, pure, halt, emit, require, when, ◌>>=◌, ◌>>◌, sys_read, sys_write,
  sys_open, sys_close, sys_accept, sys_server_socket,
}
use ece.Proxy.Request.{RequestLine, scan_request, fits, overflows}
use ece.Proxy.Upstream.{Caller, give_up}
use ece.Proxy.Exchange.{fetch}
use ece.Proxy.Log.{format_log_entry, logstring_size}

module _ (k : Kernel) (fuel proxy_fd client_fd s_addr : ℕ) where
  abbrev pub caller : Caller
  caller = record { fds = client_fd ∷ proxy_fd ∷ []; verdict = Stop.exited 1 }

  -- `fprintf` fills the buffer of the stream, and `fclose` writes it.
  unfoldable pub log_entry : Bytes → M (Unit {0})
  log_entry logstring = do
    opened ← sys_open k (codes "logfile.txt")
    log_fp ← require opened (give_up caller.fds caller.verdict)
    entry ← require (fits logstring_size logstring) (halt Stop.undefined)
    written ← sys_write k log_fp entry
    sys_close log_fp

  unfoldable pub handle_get : Bytes → RequestLine → M (Unit {0})
  handle_get buffer line = do
    url ← require line.url (halt Stop.undefined)
    served ← fetch k caller fuel client_fd buffer line url
    λ t. log_entry (format_log_entry (k.time_str t) s_addr url served.total) t

  unfoldable pub by_method : Bytes → RequestLine → Bytes → M (Unit {0})
  by_method buffer line method =
      if strncasecmp_eq method (codes "GET") 3
      then handle_get buffer line
      else give_up caller.fds caller.verdict

  -- A request that was read, by its method.
  unfoldable pub dispatch : Bytes → M (Unit {0})
  dispatch buffer = do
    let line = scan_request buffer
    when (overflows line) (halt Stop.undefined)
    method ← require line.method (halt Stop.undefined)
    by_method buffer line method

  -- What the first `read` returned.
  unfoldable pub serve : Option Bytes → M (Unit {0})
  serve none = give_up caller.fds caller.verdict
  serve (some []) = give_up caller.fds caller.verdict
  serve (some (b ∷ bs)) = dispatch (c_string (b ∷ bs))

  -- A round of the loop, behind `accept`.
  unfoldable pub serve_client : M (Unit {0})
  serve_client = do r ← sys_read k client_fd 9999; serve r; sys_close client_fd

-- `htons(port)`: the low 16 bits of an `int`.
abbrev pub port_bits : ℤ → ℕ
port_bits (pos n) = n % 2 ^ 16
port_bits (negsuc n) = (2 ^ 16 - 1) - n % 2 ^ 16

module _ (k : Kernel) where
  -- `socket`, `bind` and `listen`.
  unfoldable pub open_proxy : ℤ → M ℕ
  open_proxy port = do
    made ← sys_server_socket k
    proxy_fd ← require made (halt (Stop.exited 1))
    λ t. when (not (k.bind t proxy_fd (port_bits port))) (give_up (proxy_fd ∷ []) (Stop.exited 1)) t
    emit (Event.bound proxy_fd (port_bits port))
    λ t. when (not (k.listen t proxy_fd)) (give_up (proxy_fd ∷ []) (Stop.exited 1)) t
    pure proxy_fd

  -- `while (1)`, cut off after a number of rounds.
  unfoldable pub serve_rounds : ℕ → ℕ → ℕ → M (Unit {0})
  serve_rounds fuel proxy_fd zero = pure tt
  serve_rounds fuel proxy_fd (suc rounds) = do
    accepted ← sys_accept k
    client ← require accepted (give_up (proxy_fd ∷ []) (Stop.exited 1))
    serve_client k fuel proxy_fd client.0 client.1
    serve_rounds fuel proxy_fd rounds

  -- `main`, with the arguments behind the program's name.
  unfoldable pub main : ℕ → ℕ → List Bytes → M (Unit {0})
  main fuel rounds (port ∷ []) = do
    proxy_fd ← open_proxy (atoi port)
    serve_rounds fuel proxy_fd rounds
  main fuel rounds _ = halt (Stop.exited 0)
