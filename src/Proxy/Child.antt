-- ===== src/Proxy/Child.antt =====
-- The process that Assignment3 forks for one client.
pub mod Balance
use ece.Prelude.{if◌then◌else◌, ℕ, Option, none, some, true, false, [], ◌∷◌, Bytes, codes}
use ece.CString.{c_string, strncasecmp_eq}
use ece.Sys.{
  Kernel, Event, Stop, M, halt, emit, require, when, ◌>>=◌, ◌>>◌, sys_read, sys_write, sys_open,
  sys_close,
}
use ece.Proxy.Request.{RequestLine, scan_request, fits, overflows}
use ece.Proxy.Upstream.{Caller, give_up}
use ece.Proxy.Exchange.{fetch, join}
use ece.Proxy.Log.{format_log_entry, format_connect_entry, logstring_size}

module _ (k : Kernel) (fuel proxy_fd client_fd s_addr : ℕ) where
  -- An error closes both sockets and exits with EXIT_FAILURE.
  abbrev pub caller : Caller
  caller = record { fds = client_fd ∷ proxy_fd ∷ []; verdict = Stop.exited 1 }

  -- One entry at the end of proxy.log, under a lock on the file. The file is opened by `O_WRONLY`
  -- alone, so it must be there.
  unfoldable pub log_entry : Bytes → M (Unit {0})
  log_entry logstring = do
    opened ← sys_open k (codes "proxy.log")
    log_fd ← require opened (give_up caller.fds caller.verdict)
    emit (Event.lock_file log_fd)
    entry ← require (fits logstring_size logstring) (halt Stop.undefined)
    emit (Event.seek_end log_fd)
    written ← sys_write k log_fd entry
    emit (Event.unlock_file log_fd)
    sys_close log_fd

  -- The GET branch. It neither closes the server's socket nor exits.
  unfoldable pub handle_get : Bytes → RequestLine → M (Unit {0})
  handle_get buffer line = do
    url ← require line.url (halt Stop.undefined)
    served ← fetch k caller fuel client_fd buffer line url
    λ t. log_entry (format_log_entry (k.time_str t) s_addr url served.total) t

  -- The CONNECT branch, which ends the process.
  unfoldable pub handle_connect : RequestLine → M (Unit {0})
  handle_connect line = do
    url ← require line.url (halt Stop.undefined)
    served ← join k caller fuel client_fd url
    let total = served.total
    λ t.
        log_entry
          (format_connect_entry (k.time_str t) s_addr url total.from_client total.from_server) t
    give_up (served.server_fd ∷ client_fd ∷ proxy_fd ∷ []) (Stop.exited 0)

  unfoldable pub by_method : Bytes → RequestLine → Bytes → M (Unit {0})
  by_method buffer line method =
      if strncasecmp_eq method (codes "GET") 3
      then handle_get buffer line
      else if strncasecmp_eq method (codes "CONNECT") 7
      then handle_connect line
      else give_up caller.fds caller.verdict

  -- A request that was read, by its method.
  unfoldable pub dispatch : Bytes → M (Unit {0})
  dispatch buffer = do
    let line = scan_request buffer
    when (overflows line) (halt Stop.undefined)
    method ← require line.method (halt Stop.undefined)
    by_method buffer line method

  -- What the first `read` returned.
  unfoldable pub serve : Option Bytes → M (Unit {0})
  serve none = give_up caller.fds caller.verdict
  serve (some []) = give_up caller.fds caller.verdict
  serve (some (b ∷ bs)) = dispatch (c_string (b ∷ bs))

  -- The branch of the child. Where it has not exited, it goes on behind the `if`: it closes the
  -- client's socket and accepts the next client, as its parent does.
  unfoldable pub child : M (Unit {0})
  child = do r ← sys_read k client_fd 9999; serve r; sys_close client_fd
