-- ===== src/Proxy/Exchange/Balance.antt =====
-- The descriptors of an exchange with the web server.
use ece.Prelude.{List, none, ◌∙◌, ℕ, ◌+◌, ◌≡◌, ◌⊎◌, Bytes, arith, refl, inl, inr}
use ece.Sys.{closed, Kernel, Stop, Trace}
use ece.Sys.After.{After, After-map, After-bind, After-require}
use ece.Sys.Balance.{Quiet, Holding, Balance, tally}
use ece.Proxy.Url.{Target, parse_url, parse_authority}
use ece.Proxy.Request.{RequestLine, rewrite_request}
use ece.Proxy.Upstream.{Caller, connect_server}
use ece.Proxy.Upstream.Balance.{closing, connect_server-Balance}
use ece.Proxy.Relay.{relay}
use ece.Proxy.Relay.Balance.{relay-Balance}
use ece.Proxy.Tunnel.{tunnel}
use ece.Proxy.Tunnel.Balance.{tunnel-Balance}
use ece.Proxy.Exchange.{send, forward, fetch_from, fetch, bridge, join_to, join}

-- A stop in the middle: undefined behaviour, a loop that goes on, or an error exit that has closed
-- the caller's descriptors and `more` besides.
abbrev pub Abandons : (ℕ → ℕ) → Caller → ℕ → Trace → Stop → Trace → Type 0
Abandons w who more t s t' =
    (s ≡ Stop.undefined)
    ⊎ ((s ≡ Stop.running) ⊎ ((s ≡ who.verdict) × Balance w t t' (tally w who.fds + more) 0))

-- The log file could not be opened, behind a connection with the web server: the run has closed just the
-- descriptors `fds` then, and that of the connection is open.
abbrev pub Unlogged : Kernel → Bytes → List ℕ → (ℕ → ℕ) → Trace → Trace → Type 0
Unlogged k path fds w t t' =
    (u : Trace) × (fd : ℕ) × (k.open_file u path ≡ none) × (t' ≡ closed fds u) × Holding w t u fd

-- A run that stands behind an opened server socket.
Abandons-later :
    (w : ℕ → ℕ) (who : Caller) (fd : ℕ) (t u : Trace) (s : Stop) (v : Trace)
    → Balance w t u 0 (w fd)
    → Abandons w who (w fd) u s v
    → Abandons w who 0 t s v
Abandons-later w who fd t u s v b (inl e) = inl e
Abandons-later w who fd t u s v b (inr (inl e)) = inr (inl e)
Abandons-later w who fd t u s v b (inr (inr (e, h))) = inr (inr (e, omega arith))

module _ (k : Kernel) (who : Caller) (fuel client_fd : ℕ) (w : ℕ → ℕ) where
  send-Balance :
      (server_fd : ℕ) (request : Bytes) (t : Trace)
      → After
          (send k who fuel client_fd server_fd request t)
          (λ _ t'. Quiet w t t')
          (λ s t'. (s ≡ who.verdict) × Balance w t t' (tally w who.fds + w server_fd) 0)
  unfolding send
  send-Balance server_fd request t = grind (arith, closing)

  forward-Balance :
      (buffer : Bytes) (line : RequestLine) (target : Target) (server_fd : ℕ) (t : Trace)
      → After
          (forward k who fuel client_fd buffer line target server_fd t)
          (λ _ t'. Quiet w t t')
          (Abandons w who (w server_fd) t)
  unfolding forward
  forward-Balance buffer line target server_fd t =
      After-require target.resource _ _ t _ _ (λ e. inl refl)
        λ resource e.
          After-require line.version _ _ t _ _ (λ e. inl refl)
            λ version e.
              After-require (rewrite_request buffer resource version) _ _ t _ _ (λ e. inl refl)
                λ request e.
                  After-bind (send k who fuel client_fd server_fd request t) _ _ _ _ _
                    (send-Balance server_fd request t) (λ s u h. inr (inr h))
                    λ a u h.
                      After-map (relay k fuel client_fd server_fd u) _ _ _ _
                        (λ a v g. (omega (arith, h, g), g.1 ∙ h.1))
                        (λ s v g. elim g [ inl e ↦ inl e | inr e ↦ inr (inl e) ])
                        (relay-Balance k client_fd server_fd w fuel u)

  fetch_from-Balance :
      (buffer : Bytes) (line : RequestLine) (target : Target) (t : Trace)
      → After
          (fetch_from k who fuel client_fd buffer line target t)
          (λ r t'. Holding w t t' r.server_fd)
          (Abandons w who 0 t)
  unfolding fetch_from
  fetch_from-Balance buffer line target t =
      After-require target.host _ _ t _ _ (λ e. inl refl)
        λ host e.
          After-bind (connect_server k who host _ t) _ _ _ _ _
            (connect_server-Balance k who host _ w t) (λ s u h. inr (inr (h.0, omega arith)))
            λ fd u h.
              After-bind (forward k who fuel client_fd buffer line target fd u) _ _ _ _ _
                (forward-Balance buffer line target fd u)
                (λ s v g. Abandons-later w who fd t u s v h.0 g)
                (λ total v g. (omega (arith, h, g), g.1 ∙ h.1))

  pub fetch-Balance :
      (buffer : Bytes) (line : RequestLine) (url : Bytes) (t : Trace)
      → After
          (fetch k who fuel client_fd buffer line url t)
          (λ r t'. Holding w t t' r.server_fd)
          (Abandons w who 0 t)
  unfolding fetch
  fetch-Balance buffer line url t =
      After-require (parse_url url) _ _ t _ _ (λ e. inr (inr (refl, omega (arith, closing))))
        λ target e. fetch_from-Balance buffer line target t

  bridge-Balance :
      (server_fd : ℕ) (t : Trace)
      → After
          (bridge k who fuel client_fd server_fd t)
          (λ _ t'. Quiet w t t')
          (Abandons w who (w server_fd) t)
  unfolding bridge
  bridge-Balance server_fd t =
      After-map (tunnel k who client_fd server_fd fuel _ _) _ _ _ _ (λ a u h. h) (λ s u h. inr h)
        (tunnel-Balance k who client_fd server_fd w fuel _ _)

  join_to-Balance :
      (target : Target) (t : Trace)
      → After
          (join_to k who fuel client_fd target t)
          (λ r t'. Holding w t t' r.server_fd)
          (Abandons w who 0 t)
  unfolding join_to
  join_to-Balance target t =
      After-require target.host _ _ t _ _ (λ e. inl refl)
        λ host e.
          After-bind (connect_server k who host _ t) _ _ _ _ _
            (connect_server-Balance k who host _ w t) (λ s u h. inr (inr (h.0, omega arith)))
            λ fd u h.
              After-bind (bridge k who fuel client_fd fd u) _ _ _ _ _ (bridge-Balance fd u)
                (λ s v g. Abandons-later w who fd t u s v h.0 g)
                (λ total v g. (omega (arith, h, g), g.1 ∙ h.1))

  pub join-Balance :
      (url : Bytes) (t : Trace)
      → After
          (join k who fuel client_fd url t)
          (λ r t'. Holding w t t' r.server_fd)
          (Abandons w who 0 t)
  unfolding join
  join-Balance url t =
      After-require (parse_authority url) _ _ t _ _ (λ e. inr (inr (refl, omega (arith, closing))))
        λ target e. join_to-Balance target t
