-- ===== src/Proxy/Tunnel/Endless.antt =====
-- The loop leaves by a time-out, by an error, or by the bits 2, 4 and 8 of the events.
use ece.Prelude.{
  Bytes, Bool-cases, ℕ, zero, suc, ◌≡◌, refl, false, Option, some, none, arith, [], ◌∷◌, inl, inr,
}
use ece.Sys.{Kernel, PollReply, Stop, Trace, Out, value, stop, Event}
use ece.Sys.After.{After, After-bind}
use ece.Proxy.Upstream.{Caller}
use ece.Proxy.Tunnel.{
  close_round, Totals, Round, again, has, poll_hup, pollerr, take_from, visit, pass_on,
  after_client, pollin, visit_both, on_round, on_reply, tunnel,
}

-- Neither `POLL_HUP` nor `POLLERR` shares a bit with the events.
abbrev pub Ignored : ℕ → Type 0
Ignored events = (has events poll_hup ≡ false) × (has events pollerr ≡ false)

abbrev GoesOn : Option ℕ → Trace → Type 0
GoesOn o t = (n : ℕ) × (o ≡ some n)

abbrev pub Never : {A : Type 0} → A → Trace → Type 0
Never a t = ⊥

pass_on-GoesOn :
    (k : Kernel) (to total : ℕ) (r : Option Bytes) (t : Trace)
    → After (pass_on k to total r t) GoesOn Never
unfolding pass_on
pass_on-GoesOn k to total none t = (total, refl)
pass_on-GoesOn k to total (some []) t = (total, refl)
pass_on-GoesOn k to total (some (b ∷ bs)) t = (_, refl)

module _ (k : Kernel) (who : Caller) (client_fd server_fd : ℕ) where
  visit-GoesOn :
      (from to events total : ℕ) (t : Trace)
      → Ignored events
      → After (visit k who client_fd server_fd from to events total t) GoesOn Never
  unfolding visit take_from
  visit-GoesOn from to events total t (hup, err) = elim (Bool-cases (has events pollin)) [
    | inl e ↦
        rw (hup, visit)
          (rw (err, visit)
            (rw (e, visit)
              (pass_on-GoesOn k to total (k.read t from 1024)
                (Event.read from (k.read t from 1024) ∷ t))))
    | inr e ↦ rw (hup, visit) (rw (err, visit) (rw (e, visit) (total, refl)))
  ]

  Again : Round → Trace → Type 0
  Again r u = (next : Totals) × (r ≡ again next)

  close_round-Again :
      (sent recv : ℕ) (o : Option ℕ) (v : Trace) → GoesOn o v → Again (close_round sent recv o) v
  unfolding Again
  close_round-Again sent recv none v g = absurd (ground arith)
  close_round-Again sent recv (some total) v g = (_, refl)

  after_client-GoesOn :
      (events : ℕ) (totals : Totals) (r : Option ℕ) (n : ℕ) (t : Trace)
      → r ≡ some n
      → Ignored events
      → After (after_client k who client_fd server_fd events totals r t) Again Never
  unfolding after_client Again
  after_client-GoesOn events totals none n t e q = absurd (ground arith)
  after_client-GoesOn events totals (some sent) n t e q =
      After-bind (visit k who client_fd server_fd server_fd client_fd events totals.from_server t) _
        _ _ _ _ (visit-GoesOn server_fd client_fd events totals.from_server t q) (λ s v g. g)
        (λ a v g. close_round-Again sent totals.from_server a v g)

  visit_both-GoesOn :
      (a b : ℕ) (totals : Totals) (t : Trace)
      → Ignored a
      → Ignored b
      → After (visit_both k who client_fd server_fd a b totals t) Again Never
  unfolding visit_both
  visit_both-GoesOn a b totals t p q =
      After-bind (visit k who client_fd server_fd client_fd server_fd a totals.from_client t) _ _ _
        _ _ (visit-GoesOn client_fd server_fd a totals.from_client t p) (λ s v g. g)
        (λ r v g. after_client-GoesOn b totals r g.0 v g.1 q)

-- Still running: what `tunnel-endless` says, in the form of a postcondition.
abbrev StillRunning : Stop → Trace → Type 0
StillRunning s t = s ≡ Stop.running

running_only :
    {A : Type 0} (r : Out A × Trace) → After r Never StillRunning → r.0 ≡ stop Stop.running
running_only (value a, t) h = absurd h
running_only (stop s, t) h = rw h

tunnel-runs :
    (k : Kernel) (who : Caller) (client_fd server_fd fuel : ℕ) (totals : Totals) (t : Trace)
    (events : Trace → ℕ × ℕ)
    → ((u : Trace) → k.poll u ≡ PollReply.ready (events u).0 (events u).1)
    → ((u : Trace) → Ignored (events u).0 × Ignored (events u).1)
    → After (tunnel k who client_fd server_fd fuel totals t) Never StillRunning
unfolding tunnel on_reply on_round Again
tunnel-runs k who client_fd server_fd zero totals t events polls quiet = refl
tunnel-runs k who client_fd server_fd (suc fuel) totals t events polls quiet =
    rw (polls t, tunnel)
      (After-bind
        (visit_both k who client_fd server_fd (events t).0 (events t).1 totals (Event.poll ∷ t)) _ _
        _ _ StillRunning
        (visit_both-GoesOn k who client_fd server_fd (events t).0 (events t).1 totals
          (Event.poll ∷ t) (quiet t).0 (quiet t).1)
        (λ s v g. absurd g)
        (λ r v g. rw (g.1) (tunnel-runs k who client_fd server_fd fuel g.0 v events polls quiet)))

-- As long as `poll` reports events without the bits of `POLL_HUP` and `POLLERR`, the loop goes on,
-- whatever is read: after the hang-up of a peer, which is `POLLHUP` and not `POLL_HUP`, and at the
-- end of its data, which is `POLLIN` with an empty `read`.
pub tunnel-endless :
    (k : Kernel) (who : Caller) (client_fd server_fd fuel : ℕ) (totals : Totals) (t : Trace)
    (events : Trace → ℕ × ℕ)
    → ((u : Trace) → k.poll u ≡ PollReply.ready (events u).0 (events u).1)
    → ((u : Trace) → Ignored (events u).0 × Ignored (events u).1)
    → (tunnel k who client_fd server_fd fuel totals t).0 ≡ stop Stop.running
tunnel-endless k who client_fd server_fd fuel totals t events polls quiet =
    running_only (tunnel k who client_fd server_fd fuel totals t)
      (tunnel-runs k who client_fd server_fd fuel totals t events polls quiet)
