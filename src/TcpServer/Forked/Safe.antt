-- ===== src/TcpServer/Forked/Safe.antt =====
-- The parent and the children of Lecture7/concurrent_server/server.c.
use ece.Prelude.{ℕ, zero, suc, ◌≡◌, ◌⊎◌, refl, arith, codes, Option-cases, inl, inr, ◌∷◌}
use ece.Sys.{Kernel, Event, ForkReply, Stop, Trace, stop}
use ece.Sys.After.{After, After-bind, After-map}
use ece.Sys.Balance.{Balance}
use ece.TcpServer.{zeros}
use ece.TcpServer.Buffer.{
  Ends-zeros, ShortReads, answered, answer-Ends, Ends-read, c_string-fill-zeros, text_of,
}
use ece.TcpServer.Forked.{serve_child, close_client, after_fork, accept_client, accept_rounds}

module _ (k : Kernel) where
  -- What a child has done that is forked behind `u`: it has closed the listening socket, read the client's
  -- message, printed just that, and answered.
  abbrev pub child_trace : ℕ → ℕ → Trace → Trace
  child_trace server_fd fd u =
      let before = Event.close server_fd ∷ u in
      Event.print (codes "Response msg sent\n")
      ∷ answered k (text_of (k.read before fd 1024)) fd before

  serve_child-eq :
      (server_fd fd : ℕ) (t : Trace)
      → ShortReads k
      → serve_child k server_fd (zeros 1024) fd t
        ≡ (stop (Stop.exited 0), child_trace server_fd fd t)
  unfolding serve_child
  serve_child-eq server_fd fd t short =
      let u = Event.close server_fd ∷ t in
      rw
        (
          answer-Ends k (zeros 1024) fd u (Ends-read k (zeros 1024) fd u short Ends-zeros),
          c_string-fill-zeros (k.read u fd 1024),
        )
        refl

  -- This run is that of a child, with the client that it was forked for; up to the `accept` before, the
  -- descriptors were as they had been at `t`.
  abbrev pub IsChildOf : (ℕ → ℕ) → ℕ → Trace → Trace → Type 0
  IsChildOf w server_fd t v =
      (u : Trace) × (fd : ℕ) × (v ≡ child_trace server_fd fd (Event.opened fd ∷ u))
      × Balance w t u 0 0

  abbrev pub Ending : (ℕ → ℕ) → ℕ → Trace → Stop → Trace → Type 0
  Ending w server_fd t s v =
      ((s ≡ Stop.exited 1) × Balance w t v 0 0) ⊎ ((s ≡ Stop.exited 0) × IsChildOf w server_fd t v)

  fork-cases :
      (w : ℕ → ℕ) (server_fd fd : ℕ) (reply : ForkReply) (t : Trace)
      → ShortReads k
      → After
          (after_fork k server_fd (zeros 1024) fd reply (Event.opened fd ∷ t))
          (λ _ v. Balance w t v 0 0)
          (Ending w server_fd t)
  unfolding after_fork close_client
  fork-cases w server_fd fd ForkReply.no_fork t short = omega arith
  fork-cases w server_fd fd ForkReply.in_parent t short = omega arith
  fork-cases w server_fd fd ForkReply.in_child t short =
      rw (serve_child-eq server_fd fd (Event.opened fd ∷ t) short)
        (inr (refl, (t, fd, refl, omega arith)))

  accept-cases :
      (w : ℕ → ℕ) (server_fd : ℕ) (t : Trace)
      → ShortReads k
      → After
          (accept_client k server_fd (zeros 1024) t)
          (λ _ v. Balance w t v 0 0)
          (Ending w server_fd t)
  unfolding accept_client
  accept-cases w server_fd t short = elim (Option-cases (k.accept t)) [
    | inl f ↦ rw f (inl (refl, omega arith))
    | inr ((fd, s_addr), f) ↦
        rw f (fork-cases w server_fd fd (k.fork (Event.opened fd ∷ t)) t short)
  ]

  Ending-from :
      (w : ℕ → ℕ) (server_fd : ℕ) (t u : Trace) (s : Stop) (v : Trace)
      → Balance w t u 0 0
      → Ending w server_fd u s v
      → Ending w server_fd t s v
  Ending-from w server_fd t u s v h (inl (e, b)) = inl (e, omega arith)
  Ending-from w server_fd t u s v h (inr (e, (x, fd, f, b))) = inr (e, (x, fd, f, omega arith))

-- As long as no message fills the array, a run of the loop is either still in the parent, or has ended in
-- it as `accept` failed, and has closed every client that it accepted, or it has gone on in a child:
-- that has closed the listening socket, printed just the message of its client up to the first NUL,
-- answered it, and exited with status 0.
pub accept_rounds-Ending :
    (k : Kernel) (w : ℕ → ℕ) (server_fd rounds : ℕ) (t : Trace)
    → ShortReads k
    → After
        (accept_rounds k server_fd (zeros 1024) rounds t)
        (λ _ v. Balance w t v 0 0)
        (Ending k w server_fd t)
unfolding accept_rounds
accept_rounds-Ending k w server_fd zero t short = omega arith
accept_rounds-Ending k w server_fd (suc rounds) t short =
    After-bind (accept_client k server_fd (zeros 1024) t) _ _ _ _ _
      (accept-cases k w server_fd t short) (λ s v h. h)
      (λ b u h.
        After-map (accept_rounds k server_fd (zeros 1024) rounds u) _ _ _ _ (λ c v q. omega arith)
          (λ s v q. Ending-from k w server_fd t u s v h q)
          (accept_rounds-Ending k w server_fd rounds u short))
