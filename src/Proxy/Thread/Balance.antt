-- ===== src/Proxy/Thread/Balance.antt =====
-- The descriptors of a thread that serves one client.
use ece.Prelude.{
  ◌⊎◌, Bool-cases, Option, ℕ, ◌≡◌, ◌≢◌, [], ◌∷◌, Bytes, arith, none, codes, inl, inr, some,
}
use ece.CString.{strncasecmp_eq, c_string}
use ece.Sys.{closed, continue, sys_close, ◌>>◌, Kernel, Stop, Trace, M, Event, Trace}
use ece.Sys.After.{After-when, After-require, After, After-map, After-bind}
use ece.Sys.Balance.{Holding, Balance, Orderly}
use ece.Proxy.Request.{RequestLine, scan_request, overflows}
use ece.Proxy.Exchange.{fetch, join}
use ece.Proxy.Exchange.Balance.{Unlogged, Abandons, fetch-Balance, join-Balance}
use ece.Proxy.Thread.{
  serve, caller, log_entry, handle_get, handle_connect, dispatch, by_method, thread_handle,
}

-- The log file can always be opened.
abbrev pub LogOpens : Kernel → Type 0
LogOpens k = (t : Trace) → k.open_file t (codes "proxy.log") ≢ none

module _ (k : Kernel) (fuel client_fd s_addr : ℕ) (w : ℕ → ℕ) where
  -- An orderly end pays for the client's descriptor, unless the log file could not be opened.
  abbrev Settled : Trace → Stop → Trace → Type 0
  Settled t s t' =
      Orderly s
        (Balance w t t' (w client_fd) 0 ⊎ Unlogged k (codes "proxy.log") (client_fd ∷ []) w t t')

  abbrev Settles : M (Unit {0}) → Trace → Type 0
  Settles m t = After (m t) (λ _ t'. Balance w t t' (w client_fd) 0) (Settled t)

  log_entry-Balance :
      (logstring : Bytes) (t : Trace)
      → After
          (log_entry k fuel client_fd s_addr logstring t)
          (λ _ t'. Balance w t t' 0 0)
          (λ s t'.
            (s ≡ Stop.undefined)
            ⊎ ((s ≡ Stop.returned)
                × (k.open_file t (codes "proxy.log") ≡ none)
                × (t' ≡ closed (client_fd ∷ []) t)))
  unfolding log_entry
  log_entry-Balance logstring t = ground arith

  Settled-early :
      (t : Trace) (s : Stop) (t' : Trace)
      → Abandons w (caller k fuel client_fd s_addr) 0 t s t'
      → Settled t s t'
  Settled-early t s t' (inl e) = rw e tt
  Settled-early t s t' (inr (inl e)) = rw e tt
  Settled-early t s t' (inr (inr (e, h))) = rw e (inl (omega arith))

  -- Where the entry of the log ends the run, behind a connection.
  late_end :
      (t u : Trace) (fd : ℕ)
      → Holding w t u fd
      → (s : Stop) (v : Trace)
      → (s ≡ Stop.undefined)
        ⊎ ((s ≡ Stop.returned)
            × (k.open_file u (codes "proxy.log") ≡ none)
            × (v ≡ closed (client_fd ∷ []) u))
      → Settled t s v
  late_end t u fd h s v (inl e) = rw e tt
  late_end t u fd h s v (inr (e, f, g)) = rw e (inr (u, fd, f, g, h))

  -- What both branches do after the exchange.
  finish-Balance :
      (entry : Bytes) (server_fd : ℕ) (t u : Trace)
      → Holding w t u server_fd
      → After
          (continue
            (log_entry k fuel client_fd s_addr entry u)
            (λ _. sys_close server_fd >> sys_close client_fd))
          (λ _ t'. Balance w t t' (w client_fd) 0)
          (Settled t)
  finish-Balance entry server_fd t u h =
      After-bind (log_entry k fuel client_fd s_addr entry u) _ _ _ _ (Settled t)
        (log_entry-Balance entry u) (late_end t u server_fd h) (λ a v g. omega (arith, h, g))

  handle_get-Balance :
      (buffer : Bytes) (line : RequestLine) (t : Trace)
      → Settles (handle_get k fuel client_fd s_addr buffer line) t
  unfolding handle_get
  handle_get-Balance buffer line t =
      After-require line.url _ _ t _ (Settled t) (λ e. tt)
        λ url e.
          After-bind (fetch k _ fuel client_fd buffer line url t) _ _ _ _ (Settled t)
            (fetch-Balance k _ fuel client_fd w buffer line url t) (Settled-early t)
            λ r u h. finish-Balance _ r.server_fd t u h

  handle_connect-Balance :
      (line : RequestLine) (t : Trace) → Settles (handle_connect k fuel client_fd s_addr line) t
  unfolding handle_connect
  handle_connect-Balance line t =
      After-require line.url _ _ t _ (Settled t) (λ e. tt)
        λ url e.
          After-bind (join k _ fuel client_fd url t) _ _ _ _ (Settled t)
            (join-Balance k _ fuel client_fd w url t) (Settled-early t)
            λ r u h. finish-Balance _ r.server_fd t u h

  by_method-Balance :
      (buffer : Bytes) (line : RequestLine) (method : Bytes) (t : Trace)
      → After
          (by_method k fuel client_fd s_addr buffer line method t)
          (λ _ t'. Balance w t t' (w client_fd) 0)
          (Settled t)
  unfolding by_method
  by_method-Balance buffer line method t =
      elim (Bool-cases (strncasecmp_eq method (codes "GET") 3)) [
        | inl e ↦ rw (e, by_method) (handle_get-Balance buffer line t)
        | inr e ↦ elim (Bool-cases (strncasecmp_eq method (codes "CONNECT") 7)) [
          | inl c ↦ rw (e, by_method) (rw (c, by_method) (handle_connect-Balance line t))
          | inr c ↦ rw (e, by_method) (rw (c, by_method) (ground arith))
        ]
      ]

  dispatch-Balance :
      (buffer : Bytes) (t : Trace)
      → After
          (dispatch k fuel client_fd s_addr buffer t)
          (λ _ t'. Balance w t t' (w client_fd) 0)
          (Settled t)
  unfolding dispatch
  dispatch-Balance buffer t =
      After-when (overflows (scan_request buffer)) _ _ t _ (Settled t) (λ e. tt)
        λ e.
          After-require (scan_request buffer).method _ _ t _ (Settled t) (λ f. tt)
            λ method f. by_method-Balance buffer (scan_request buffer) method t

  serve-Balance : (r : Option Bytes) (t : Trace) → Settles (serve k fuel client_fd s_addr r) t
  unfolding serve
  serve-Balance none t = inl (omega arith)
  serve-Balance (some []) t = inl (omega arith)
  serve-Balance (some (b ∷ bs)) t = dispatch-Balance (c_string (b ∷ bs)) t

  thread_handle-Settles : (t : Trace) → Settles (thread_handle k fuel client_fd s_addr) t
  unfolding thread_handle
  thread_handle-Settles t =
      After-map (serve k fuel client_fd s_addr (k.read t client_fd 9999) _) _ _ _ (Settled t)
        (λ a u h. h) (λ s u h. h)
        (serve-Balance (k.read t client_fd 9999)
          (Event.read client_fd (k.read t client_fd 9999) ∷ t))

-- However a thread ends its work, short of undefined behaviour and of loops that go on, it has closed
-- all that it was handed, and the client's descriptor besides: with the weight 1 for one descriptor and
-- 0 for the rest, the number of its calls of `close` is that of the calls that handed it out, plus one
-- for the client's. The exception is a thread whose last act is to find that the log file cannot be
-- opened: it closes the client's, and that of the latest connection made is open.
pub thread_handle-Balance :
    (k : Kernel) (fuel client_fd s_addr : ℕ) (w : ℕ → ℕ) (t : Trace)
    → After
        (thread_handle k fuel client_fd s_addr t)
        (λ _ t'. Balance w t t' (w client_fd) 0)
        (λ s t'.
          Orderly s (
            Balance w t t' (w client_fd) 0
            ⊎ Unlogged k (codes "proxy.log") (client_fd ∷ []) w t t'))
thread_handle-Balance k fuel client_fd s_addr w t =
    thread_handle-Settles k fuel client_fd s_addr w t
