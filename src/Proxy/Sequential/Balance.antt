-- ===== src/Proxy/Sequential/Balance.antt =====
-- The descriptors of a round of the sequential proxy.
use ece.Prelude.{
  ◌⊎◌, ◌∙◌, Option-cases, zero, suc, ◌+◌, Bool-cases, ℕ, ◌+◌, ◌≡◌, none, some, Option, [], ◌∷◌, inl,
  inr, Bytes, codes, arith,
}
use ece.CString.{strncasecmp_eq, c_string}
use ece.Sys.{closed, connected, Kernel, Stop, Trace, Event}
use ece.Sys.After.{After, After-map, After-bind, After-require, After-when}
use ece.Sys.Balance.{Quiet, Holding, Balance, Orderly}
use ece.Proxy.Request.{RequestLine, scan_request, overflows}
use ece.Proxy.Upstream.{Caller}
use ece.Proxy.Exchange.{fetch}
use ece.Proxy.Exchange.Balance.{Unlogged, Abandons, fetch-Balance}
use ece.Proxy.Sequential.{
  caller, log_entry, handle_get, serve_rounds, dispatch, by_method, serve, serve_client,
}

module _ (k : Kernel) (fuel proxy_fd client_fd s_addr : ℕ) (w : ℕ → ℕ) where
  abbrev who : Caller
  who = caller k fuel proxy_fd client_fd s_addr

  -- An orderly exit has closed the sockets of the client and of the proxy, and all it opened, unless the
  -- log file could not be opened.
  abbrev pub Leaves : Trace → Stop → Trace → Type 0
  Leaves t s t' = Orderly s (
      Balance w t t' (w client_fd + w proxy_fd) 0
      ⊎ Unlogged k (codes "logfile.txt") (client_fd ∷ proxy_fd ∷ []) w t t')

  -- An error exit in the middle closes the caller's descriptors.
  Leaves-early : (t : Trace) (s : Stop) (t' : Trace) → Abandons w who 0 t s t' → Leaves t s t'
  Leaves-early t s t' (inl e) = rw e tt
  Leaves-early t s t' (inr (inl e)) = rw e tt
  Leaves-early t s t' (inr (inr (e, h))) = rw e (inl (omega arith))

  log_entry-Balance :
      (logstring : Bytes) (t : Trace)
      → After
          (log_entry k fuel proxy_fd client_fd s_addr logstring t)
          (λ _ t'. Quiet w t t')
          (λ s t'.
            (s ≡ Stop.undefined)
            ⊎ ((s ≡ Stop.exited 1)
                × (k.open_file t (codes "logfile.txt") ≡ none)
                × (t' ≡ closed (client_fd ∷ proxy_fd ∷ []) t)))
  unfolding log_entry
  log_entry-Balance logstring t = ground arith

  -- Where the entry of the log ends the run, behind a connection.
  late_exit :
      (t u : Trace) (fd : ℕ)
      → Holding w t u fd
      → (s : Stop) (v : Trace)
      → (s ≡ Stop.undefined)
        ⊎ ((s ≡ Stop.exited 1)
            × (k.open_file u (codes "logfile.txt") ≡ none)
            × (v ≡ closed (client_fd ∷ proxy_fd ∷ []) u))
      → Leaves t s v
  late_exit t u fd h s v (inl e) = rw e tt
  late_exit t u fd h s v (inr (e, f, g)) = rw e (inr (u, fd, f, g, h))

  -- One socket, to the web server, stays open.
  abbrev LeaksOne : Trace → Unit {0} → Trace → Type 0
  LeaksOne t a t' = (fd : ℕ) × Holding w t t' fd

  handle_get-Balance :
      (buffer : Bytes) (line : RequestLine) (t : Trace)
      → After (handle_get k fuel proxy_fd client_fd s_addr buffer line t) (LeaksOne t) (Leaves t)
  unfolding handle_get
  handle_get-Balance buffer line t =
      After-require line.url _ _ t _ (Leaves t) (λ e. tt)
        λ url e.
          After-bind (fetch k who fuel client_fd buffer line url t) _ _ _ _ (Leaves t)
            (fetch-Balance k who fuel client_fd w buffer line url t) (Leaves-early t)
            λ r u h.
              After-map (log_entry k fuel proxy_fd client_fd s_addr _ u) _ _ _ (Leaves t)
                (λ a v g. (r.server_fd, (omega (arith, h, g), g.1 ∙ h.1)))
                (late_exit t u r.server_fd h) (log_entry-Balance _ u)

  by_method-Balance :
      (buffer : Bytes) (line : RequestLine) (method : Bytes) (t : Trace)
      → After
          (by_method k fuel proxy_fd client_fd s_addr buffer line method t)
          (LeaksOne t)
          (Leaves t)
  unfolding by_method
  by_method-Balance buffer line method t =
      elim (Bool-cases (strncasecmp_eq method (codes "GET") 3)) [
        | inl e ↦ rw (e, by_method) (handle_get-Balance buffer line t)
        | inr e ↦ rw (e, by_method) (inl (omega arith))
      ]

  dispatch-Balance :
      (buffer : Bytes) (t : Trace)
      → After (dispatch k fuel proxy_fd client_fd s_addr buffer t) (LeaksOne t) (Leaves t)
  unfolding dispatch
  dispatch-Balance buffer t =
      After-when (overflows (scan_request buffer)) _ _ t _ (Leaves t) (λ e. tt)
        λ e.
          After-require (scan_request buffer).method _ _ t _ (Leaves t) (λ f. tt)
            λ method f. by_method-Balance buffer (scan_request buffer) method t

  serve-Balance :
      (r : Option Bytes) (t : Trace)
      → After (serve k fuel proxy_fd client_fd s_addr r t) (LeaksOne t) (Leaves t)
  unfolding serve
  serve-Balance none t = inl (omega arith)
  serve-Balance (some []) t = inl (omega arith)
  serve-Balance (some (b ∷ bs)) t = dispatch-Balance (c_string (b ∷ bs)) t

  serve_client-Leaves :
      (t : Trace)
      → After
          (serve_client k fuel proxy_fd client_fd s_addr t)
          (λ _ t'. (fd : ℕ) × (connected t' ≡ some fd) × Balance w t t' (w client_fd) (w fd))
          (Leaves t)
  unfolding serve_client
  serve_client-Leaves t =
      let r = k.read t client_fd 9999 in
      After-bind (serve k fuel proxy_fd client_fd s_addr r (Event.read client_fd r ∷ t)) _ _ _ _
        (Leaves t) (serve-Balance r (Event.read client_fd r ∷ t)) (λ s u h. h)
        (λ a u (fd, (b, c)). (fd, c, omega (arith, b)))

-- A round that exits in order has closed the sockets of the client and of the proxy and all that it was
-- handed, unless its last act was to find that the log file cannot be opened: then it has closed those
-- two sockets, and that of the latest connection made is open. A round that ends as it should has
-- closed the client and leaves one descriptor open, that of the latest connection made.
pub serve_client-Balance :
    (k : Kernel) (fuel proxy_fd client_fd s_addr : ℕ) (w : ℕ → ℕ) (t : Trace)
    → After
        (serve_client k fuel proxy_fd client_fd s_addr t)
        (λ _ t'. (fd : ℕ) × (connected t' ≡ some fd) × Balance w t t' (w client_fd) (w fd))
        (λ s t'. Orderly s (
          Balance w t t' (w client_fd + w proxy_fd) 0
          ⊎ Unlogged k (codes "logfile.txt") (client_fd ∷ proxy_fd ∷ []) w t t'))
serve_client-Balance k fuel proxy_fd client_fd s_addr w t =
    serve_client-Leaves k fuel proxy_fd client_fd s_addr w t

-- A loop that has served a number of clients in order
-- has that many descriptors more open than before.
pub serve_rounds-leak :
    (k : Kernel) (fuel proxy_fd rounds : ℕ) (t : Trace)
    → After
        (serve_rounds k fuel proxy_fd rounds t)
        (λ _ t'. Balance (λ _. 1) t t' 0 rounds)
        (λ s t'. Unit {0})
unfolding serve_rounds
serve_rounds-leak k fuel proxy_fd zero t = omega arith
serve_rounds-leak k fuel proxy_fd (suc rounds) t = elim (Option-cases (k.accept t)) [
  | inl e ↦ rw e tt
  | inr ((fd, s_addr), e) ↦ rw e (
      After-bind (serve_client k fuel proxy_fd fd s_addr (Event.opened fd ∷ t)) _ _ _ _ _
        (serve_client-Balance k fuel proxy_fd fd s_addr (λ _. 1) (Event.opened fd ∷ t))
        (λ s u h. tt)
        λ a u h.
          After-map (serve_rounds k fuel proxy_fd rounds u) _ _ _ _ (λ b v g. omega arith)
            (λ s v g. tt) (serve_rounds-leak k fuel proxy_fd rounds u))
]
