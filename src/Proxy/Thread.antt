-- ===== src/Proxy/Thread.antt =====
-- `thread_handle` of Assignment3: one client, served by a thread of its own.
pub mod Balance
use ece.Prelude.{if◌then◌else◌, Option, ℕ, none, some, true, false, [], ◌∷◌, Bytes, codes, not}
use ece.CString.{c_string, strncasecmp_eq}
use ece.Sys.{
  Kernel, Event, Stop, M, halt, emit, require, when, ◌>>=◌, ◌>>◌, sys_read, sys_write, sys_open,
  sys_close,
}
use ece.Proxy.Url.{parse_url, parse_authority}
use ece.Proxy.Request.{RequestLine, scan_request, rewrite_request, fits, overflows}
use ece.Proxy.Upstream.{Caller, give_up, connect_server}
use ece.Proxy.Relay.{relay}
use ece.Proxy.Tunnel.{tunnel}
use ece.Proxy.Exchange.{Served, fetch, join}
use ece.Proxy.Log.{format_log_entry, format_connect_entry, logstring_size}

module _ (k : Kernel) (fuel client_fd s_addr : ℕ) where
  abbrev pub caller : Caller
  caller = record { fds = client_fd ∷ []; verdict = Stop.returned }

  -- Appending one entry to proxy.log under the mutex. `fprintf` leaves the entry in the buffer of
  -- the stream, which is longer than an entry: `fclose` writes it, after the mutex is free.
  unfoldable pub log_entry : Bytes → M (Unit {0})
  log_entry logstring = do
    opened ← sys_open k (codes "proxy.log")
    log_fp ← require opened (give_up (client_fd ∷ []) Stop.returned)
    emit Event.lock_mutex
    entry ← require (fits logstring_size logstring) (halt Stop.undefined)
    emit Event.unlock_mutex
    written ← sys_write k log_fp entry
    sys_close log_fp

  -- The GET branch.
  unfoldable pub handle_get : Bytes → RequestLine → M (Unit {0})
  handle_get buffer line = do
    url ← require line.url (halt Stop.undefined)
    served ← fetch k caller fuel client_fd buffer line url
    λ t. log_entry (format_log_entry (k.time_str t) s_addr url served.total) t
    sys_close served.server_fd
    sys_close client_fd

  -- The CONNECT branch.
  unfoldable pub handle_connect : RequestLine → M (Unit {0})
  handle_connect line = do
    url ← require line.url (halt Stop.undefined)
    served ← join k caller fuel client_fd url
    let total = served.total
    λ t.
        log_entry
          (format_connect_entry (k.time_str t) s_addr url total.from_client total.from_server) t
    sys_close served.server_fd
    sys_close client_fd

  unfoldable pub by_method : Bytes → RequestLine → Bytes → M (Unit {0})
  by_method buffer line method =
      if strncasecmp_eq method (codes "GET") 3
      then handle_get buffer line
      else if strncasecmp_eq method (codes "CONNECT") 7
      then handle_connect line
      else sys_close client_fd

  -- A request that was read, by its method.
  unfoldable pub dispatch : Bytes → M (Unit {0})
  dispatch buffer = do
    let line = scan_request buffer
    when (overflows line) (halt Stop.undefined)
    method ← require line.method (halt Stop.undefined)
    by_method buffer line method

  -- What the first `read` returned.
  unfoldable pub serve : Option Bytes → M (Unit {0})
  serve none = give_up (client_fd ∷ []) Stop.returned
  serve (some []) = give_up (client_fd ∷ []) Stop.returned
  serve (some (b ∷ bs)) = dispatch (c_string (b ∷ bs))

  unfoldable pub thread_handle : M (Unit {0})
  thread_handle = do r ← sys_read k client_fd 9999; serve r
