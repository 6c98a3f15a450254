-- ===== src/Proxy/Tunnel/Balance.antt =====
-- The descriptors of the CONNECT loop.
use ece.Prelude.{
  ◌∙◌, Option, some, none, Bytes, [], ◌∷◌, ◌∷◌, ℕ, ◌+◌, ◌≡◌, arith, refl, inl, inr, ◌⊎◌, zero, suc,
}
use ece.Sys.{Out, PollReply, Event, Kernel, Stop, Trace}
use ece.Sys.After.{After, After-map, After-bind}
use ece.Sys.Balance.{Quiet, Balance, tally}
use ece.Proxy.Upstream.{Caller}
use ece.Proxy.Upstream.Balance.{closing, closes-closed, opens-closed}
use ece.Proxy.Tunnel.{
  pass_on, after_client, Round, on_round, on_reply, Totals, tunnel, take_from, visit, visit_both,
}

-- How the loop gives up: with the descriptors of its caller and the server's closed.
abbrev pub GaveUp : (ℕ → ℕ) → Caller → ℕ → Trace → Stop → Trace → Type 0
GaveUp w who server_fd t s t' = (s ≡ who.verdict) × Balance w t t' (tally w who.fds + w server_fd) 0

pass_on-Balance :
    (k : Kernel) (w : ℕ → ℕ) (to total : ℕ) (r : Option Bytes) (t : Trace)
    → After (pass_on k to total r t) (λ _ t'. Quiet w t t') (λ s t'. ⊥)
unfolding pass_on
pass_on-Balance k w to total none t = (refl, refl)
pass_on-Balance k w to total (some []) t = (refl, refl)
pass_on-Balance k w to total (some (b ∷ bs)) t = (refl, refl)

take_from-Balance :
    (k : Kernel) (w : ℕ → ℕ) (from to total : ℕ) (t : Trace)
    → After (take_from k from to total t) (λ _ t'. Quiet w t t') (λ s t'. ⊥)
unfolding take_from
take_from-Balance k w from to total t =
    pass_on-Balance k w to total (k.read t from 1024) (Event.read from (k.read t from 1024) ∷ t)

module _ (k : Kernel) (who : Caller) (client_fd server_fd : ℕ) (w : ℕ → ℕ) where
  visit-Balance :
      (from to events total : ℕ) (t : Trace)
      → After
          (visit k who client_fd server_fd from to events total t)
          (λ _ t'. Quiet w t t')
          (GaveUp w who server_fd t)
  unfolding visit
  visit-Balance from to events total t = ground (
    arith,
    take_from-Balance k w from to total t,
    closes-closed w who.fds (Event.close server_fd ∷ t),
    opens-closed w who.fds (Event.close server_fd ∷ t),
  )

  after_client-Balance :
      (events : ℕ) (totals : Totals) (r : Option ℕ) (t u : Trace)
      → Quiet w t u
      → After
          (after_client k who client_fd server_fd events totals r u)
          (λ _ t'. Quiet w t t')
          (GaveUp w who server_fd t)
  unfolding after_client
  after_client-Balance events totals none t u h = h
  after_client-Balance events totals (some sent) t u h =
      After-bind (visit k who client_fd server_fd server_fd client_fd events totals.from_server u) _
        _ _ _ _ (visit-Balance server_fd client_fd events totals.from_server u)
        (λ s v g. (g.0, omega arith)) (λ a v g. (omega arith, g.1 ∙ h.1))

  visit_both-Balance :
      (a b : ℕ) (totals : Totals) (t : Trace)
      → After
          (visit_both k who client_fd server_fd a b totals t)
          (λ _ t'. Quiet w t t')
          (GaveUp w who server_fd t)
  unfolding visit_both
  visit_both-Balance a b totals t =
      After-bind (visit k who client_fd server_fd client_fd server_fd a totals.from_client t) _ _ _
        _ _ (visit-Balance client_fd server_fd a totals.from_client t) (λ s v g. g)
        (λ r v g. after_client-Balance b totals r t v g)

  -- What a loop of this kind keeps.
  abbrev Keeps : (Totals → Trace → Out Totals × Trace) → Type 0
  Keeps run =
      (totals : Totals) (t : Trace)
      → After (run totals t) (λ _ t'. Quiet w t t')
          (λ s t'. (s ≡ Stop.running) ⊎ GaveUp w who server_fd t s t')

  on_round-Balance :
      (next : Totals → Trace → Out Totals × Trace)
      → Keeps next
      → (round : Round) (t u : Trace) → Quiet w t u
      → After
          (on_round k who client_fd server_fd next round u)
          (λ _ t'. Quiet w t t')
          (λ s t'. (s ≡ Stop.running) ⊎ GaveUp w who server_fd t s t')
  unfolding on_round
  on_round-Balance next keeps (Round.again totals) t u h =
      After-map (next totals u) _ _ _ _ (λ a t' g. (omega arith, g.1 ∙ h.1)) (λ s t' g. grind arith)
        (keeps totals u)
  on_round-Balance next keeps (Round.hung_up totals) t u h = h

  on_reply-Balance :
      (next : Totals → Trace → Out Totals × Trace)
      → Keeps next
      → (totals : Totals) (reply : PollReply) (t : Trace)
      → After
          (on_reply k who client_fd server_fd next totals reply (Event.poll ∷ t))
          (λ _ t'. Quiet w t t')
          (λ s t'. (s ≡ Stop.running) ⊎ GaveUp w who server_fd t s t')
  unfolding on_reply
  on_reply-Balance next keeps totals PollReply.failed t = inr (refl, omega (arith, closing))
  on_reply-Balance next keeps totals PollReply.timed_out t = (refl, refl)
  on_reply-Balance next keeps totals (PollReply.ready a b) t =
      After-bind (visit_both k who client_fd server_fd a b totals (Event.poll ∷ t)) _ _ _ _ _
        (visit_both-Balance a b totals (Event.poll ∷ t)) (λ s t' g. inr g)
        (λ round u g. on_round-Balance next keeps round t u g)

  pub tunnel-Balance : (fuel : ℕ) → Keeps (tunnel k who client_fd server_fd fuel)
  unfolding tunnel
  tunnel-Balance zero totals t = inl refl
  tunnel-Balance (suc fuel) totals t = on_reply-Balance _ (tunnel-Balance fuel) totals (k.poll t) t
