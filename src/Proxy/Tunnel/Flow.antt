-- ===== src/Proxy/Tunnel/Flow.antt =====
-- What the CONNECT loop passes on, and what it counts.
use ece.Prelude.{
  ◌%◌, length, Bytes, [], ◌∷◌, suc, zero, ◌++◌, sym, List, ℕ, ◌<◌, ◌^◌, ◌≡◌, ◌≢◌, refl, Option,
  some, none, ◌∷◌, arith,
}
use ece.Sys.{Event, Out, Kernel, Stop, Trace, closed}
use ece.Sys.After.{After-map, After-bind, After}
use ece.Proxy.Upstream.{Caller}
use ece.Proxy.Relay.Read.{Passed}
use ece.Proxy.Tunnel.{
  PollReply, tunnel, visit_both, on_reply, M, on_round, after_client, Totals, Round, close_round,
  visit,
}
use ece.Proxy.Tunnel.Carry.{
  down-Carried, up-Carried, Carried-quiet, Carried-trans, sent-closed, received-closed, total_after,
  Quiet, nothing-Visited, take_from-Visited, Carried, Small, Visited,
}

closed-Quiet : (c s : ℕ) (fds : List ℕ) (t : Trace) → Quiet c s t (closed fds t)
closed-Quiet c s fds t = (sent-closed c fds t, received-closed s fds t)

-- The totals of a round, up to its end.
abbrev round_totals : Round → Totals
round_totals (Round.again b) = b
round_totals (Round.hung_up b) = b

close_round-totals :
    (m n : ℕ) (o : Option ℕ)
    → round_totals (close_round m n o) ≡ record { from_client = m; from_server = total_after n o }
close_round-totals m n none = refl
close_round-totals m n (some total) = refl

module _ (k : Kernel) (who : Caller) (client_fd server_fd : ℕ) (apart : client_fd ≢ server_fd) where
  -- At the exits by an error the totals so far are not seen again.
  abbrev Carries : Totals → Trace → Totals → Trace → Type 0
  Carries a t b t' = Carried client_fd server_fd a t b t' × Small b

  abbrev Cut : Totals → Trace → Stop → Trace → Type 0
  Cut a t s t' = (b : Totals) × Carries a t b t'

  visit-Visited :
      (from to events total : ℕ) (t : Trace)
      → from ≢ to
      → total < 2 ^ 64
      → After
          (visit k who client_fd server_fd from to events total t)
          (Visited from to total t)
          (λ s t'. Quiet from to t t' × Quiet to from t t')
  unfolding visit
  visit-Visited from to events total t ne small = ground (
    arith,
    take_from-Visited k from to total t ne small,
    closed-Quiet from to (server_fd ∷ who.fds) t,
    closed-Quiet to from (server_fd ∷ who.fds) t,
    nothing-Visited from to total t none t small refl (refl, refl) (refl, refl),
    nothing-Visited from to total t (some total) t small refl (refl, refl) (refl, refl),
  )

  -- A run that starts at the totals `a`.
  abbrev CarriesFrom : Totals → Trace → Out Totals × Trace → Type 0
  CarriesFrom a t r = After r (Carries a t) (Cut a t)

  Carried-Carries :
      (a : Totals) (t : Trace) (b : Totals) (t' : Trace)
      → Carried client_fd server_fd a t b t'
      → Carries a t b t'
  Carried-Carries a t b t' h = (h, (omega (arith, h.up_counted), omega (arith, h.down_counted)))

  Quiet-Cut :
      (a : Totals) (t : Trace) (s : Stop) (t' : Trace)
      → Small a
      → Quiet client_fd server_fd t t' × Quiet server_fd client_fd t t'
      → Cut a t s t'
  Quiet-Cut a t s t' small (p, q) = (a, (Carried-quiet client_fd server_fd a t t' small p q, small))

  Carries-trans :
      (a : Totals) (t : Trace) (b : Totals) (u : Trace) (d : Totals) (v : Trace)
      → Carries a t b u
      → Carries b u d v
      → Carries a t d v
  Carries-trans a t b u d v (f, small) (g, small') =
      (Carried-trans client_fd server_fd a t b u d v f g, small')

  -- A part of the run that goes on from `b`.
  CarriesFrom-later :
      (a : Totals) (t : Trace) (b : Totals) (u : Trace) (r : Out Totals × Trace)
      → Carries a t b u
      → CarriesFrom b u r
      → CarriesFrom a t r
  CarriesFrom-later a t b u r f h =
      After-map r _ _ _ _ (λ d v g. Carries-trans a t b u d v f g)
        (λ s v (d, g). (d, Carries-trans a t b u d v f g)) h

  after_client-Carries :
      (events : ℕ) (a : Totals) (o : Option ℕ) (t u : Trace)
      → Small a
      → Visited client_fd server_fd a.from_client t o u
      → After
          (after_client k who client_fd server_fd events a o u)
          (λ round t'. Carries a t (round_totals round) t')
          (Cut a t)
  unfolding after_client
  after_client-Carries events a none t u small h =
      Carried-Carries a t _ u (up-Carried client_fd server_fd a t none u small h)
  after_client-Carries events a (some sent) t u small h =
      let b : Totals = record { from_client = sent; from_server = a.from_server } in
      let f : Carries a t b u =
        Carried-Carries a t b u (up-Carried client_fd server_fd a t (some sent) u small h) in
      After-bind (visit k who client_fd server_fd server_fd client_fd events a.from_server u) _ _ _
        _ _
        (visit-Visited server_fd client_fd events a.from_server u (λ e. apart (sym e)) (small.1))
        (λ s v g.
          let c = Quiet-Cut b u s v (f.1) (g.1, g.0) in
          (c.0, Carries-trans a t b u (c.0) v f (c.1)))
        (λ o v g. rw (close_round-totals sent a.from_server o) (
          Carries-trans a t b u _ v f
            (Carried-Carries b u _ v (down-Carried client_fd server_fd b u o v (f.1) g))))

  visit_both-Carries :
      (p q : ℕ) (a : Totals) (t : Trace)
      → Small a
      → After
          (visit_both k who client_fd server_fd p q a t)
          (λ round t'. Carries a t (round_totals round) t')
          (Cut a t)
  unfolding visit_both
  visit_both-Carries p q a t small =
      After-bind (visit k who client_fd server_fd client_fd server_fd p a.from_client t) _ _ _ _ _
        (visit-Visited client_fd server_fd p a.from_client t apart (small.0))
        (λ s v g. Quiet-Cut a t s v small g) (λ o v g. after_client-Carries q a o t v small g)

  -- What a loop of this kind keeps.
  abbrev Keeps : (Totals → M Totals) → Type 0
  Keeps next = (a : Totals) (t : Trace) → Small a → CarriesFrom a t (next a t)

  on_round-Carries :
      (next : Totals → M Totals)
      → Keeps next
      → (a : Totals) (t : Trace) (round : Round) (u : Trace) → Carries a t (round_totals round) u
      → CarriesFrom a t (on_round k who client_fd server_fd next round u)
  unfolding on_round
  on_round-Carries next keeps a t (Round.again b) u h =
      CarriesFrom-later a t b u (next b u) h (keeps b u (h.1))
  on_round-Carries next keeps a t (Round.hung_up b) u h = h

  on_reply-Carries :
      (next : Totals → M Totals)
      → Keeps next
      → (a : Totals) (reply : PollReply) (t : Trace) → Small a
      → CarriesFrom a t (on_reply k who client_fd server_fd next a reply t)
  unfolding on_reply
  on_reply-Carries next keeps a PollReply.failed t small =
      let fds = who.fds ++ server_fd ∷ [] in
      Quiet-Cut a t who.verdict _ small
        (closed-Quiet client_fd server_fd fds t, closed-Quiet server_fd client_fd fds t)
  on_reply-Carries next keeps a PollReply.timed_out t small =
      (Carried-quiet client_fd server_fd a t t small (refl, refl) (refl, refl), small)
  on_reply-Carries next keeps a (PollReply.ready p q) t small =
      After-bind (visit_both k who client_fd server_fd p q a t) _ _ _ _ _
        (visit_both-Carries p q a t small) (λ s v g. g)
        (λ round u g. on_round-Carries next keeps a t round u g)

  tunnel-Carries : (fuel : ℕ) → Keeps (tunnel k who client_fd server_fd fuel)
  unfolding tunnel
  tunnel-Carries zero a t small = Quiet-Cut a t Stop.running t small ((refl, refl), (refl, refl))
  tunnel-Carries (suc fuel) a t small =
      let u : Trace = Event.poll ∷ t in
      CarriesFrom-later a t a u
        (on_reply k who client_fd server_fd (tunnel k who client_fd server_fd fuel) a (k.poll t) u)
        (Carried-quiet client_fd server_fd a t u small (refl, refl) (refl, refl), small)
        (on_reply-Carries (tunnel k who client_fd server_fd fuel) (tunnel-Carries fuel) a (k.poll t)
          u small)

-- The loop starts with both totals at 0.
abbrev pub no_bytes : Totals
no_bytes = record { from_client = 0; from_server = 0 }

-- With two different descriptors, however the loop ends: all bytes that `read` has returned from the
-- client were given to `write` for the server, and all from the server to `write` for the client, in
-- their order, and nothing else was. If it ends by a time-out or a hang-up, the totals are the two
-- numbers of bytes, in 64 bits.
pub tunnel-Passed :
    (k : Kernel) (who : Caller) (client_fd server_fd fuel : ℕ) (t : Trace)
    → client_fd ≢ server_fd
    → After
        (tunnel k who client_fd server_fd fuel no_bytes t)
        (λ totals t'.
          (up : Bytes) × (down : Bytes) × Passed server_fd client_fd t t' up
          × Passed client_fd server_fd t t' down
          × (totals.from_client ≡ length up % 2 ^ 64)
          × (totals.from_server ≡ length down % 2 ^ 64))
        (λ s t'.
          (up : Bytes) × (down : Bytes) × Passed server_fd client_fd t t' up
          × Passed client_fd server_fd t t' down)
tunnel-Passed k who client_fd server_fd fuel t apart =
    After-map (tunnel k who client_fd server_fd fuel no_bytes t) _ _ _ _
      (λ totals t' (h, small). (
        h.up,
        h.down,
        h.up_passed,
        h.down_passed,
        omega (arith, h.up_counted),
        omega (arith, h.down_counted),
      ))
      (λ s t' (b, (h, small)). (h.up, h.down, h.up_passed, h.down_passed))
      (tunnel-Carries k who client_fd server_fd apart fuel no_bytes t (omega arith, omega arith))
