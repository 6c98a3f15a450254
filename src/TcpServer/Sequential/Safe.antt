-- ===== src/TcpServer/Sequential/Safe.antt =====
-- The array and the descriptors of Lecture6/multipleclient/server.c.
use ece.Prelude.{
  ℕ, zero, suc, ◌≡◌, refl, arith, Bytes, codes, Option-cases, inl, inr, some, ◌∷◌, ◌++◌, length,
  drop, ◌<◌,
}
use ece.CString.{c_string}
use ece.Sys.{Kernel, Event, Stop, Trace, value}
use ece.Sys.After.{After, After-bind, After-map}
use ece.Sys.Balance.{Balance}
use ece.TcpServer.Buffer.{
  Ends, Ends-fill, NoNul, ShortReads, answered, answer-Ends, Ends-read, c_string-fill,
}
use ece.TcpServer.Sequential.{serve_client, serve}

-- The message of a client, without a NUL and short of the array, is printed with what the array holds
-- behind it, that is, with the end of an earlier and longer one; the client is answered and closed.
pub serve_client-prints :
    (k : Kernel) (server_fd fd s_addr : ℕ) (buffer m : Bytes) (t : Trace)
    → Ends buffer
    → k.accept t ≡ some (fd, s_addr)
    → k.read (Event.opened fd ∷ t) fd 1024 ≡ some m
    → length m < 1024
    → NoNul m
    → serve_client k server_fd buffer t ≡ (
      value (m ++ drop (length m) buffer),
      Event.close fd
          ∷ Event.print (codes "Response msg sent\n")
          ∷ answered k (m ++ c_string (drop (length m) buffer)) fd (Event.opened fd ∷ t),
    )
unfolding serve_client
serve_client-prints k server_fd fd s_addr buffer m t e a r h n =
    rw
      (
        a,
        answer-Ends k buffer fd (Event.opened fd ∷ t) (rw r (Ends-fill m buffer h e)),
        r,
        c_string-fill m buffer n,
      )
      refl

module _ (k : Kernel) (w : ℕ → ℕ) where
  client-Safe :
      (server_fd : ℕ) (buffer : Bytes) (t : Trace)
      → ShortReads k
      → Ends buffer
      → After
          (serve_client k server_fd buffer t)
          (λ b v. Ends b × Balance w t v 0 0)
          (λ s v. (s ≡ Stop.exited 1) × Balance w t v 0 0)
  unfolding serve_client
  client-Safe server_fd buffer t short e = elim (Option-cases (k.accept t)) [
    | inl f ↦ rw f (refl, omega arith)
    | inr ((fd, s_addr), f) ↦
        let g = Ends-read k buffer fd (Event.opened fd ∷ t) short e in
        rw (f, answer-Ends k buffer fd (Event.opened fd ∷ t) g) (g, omega arith)
  ]

-- As long as no message fills the array, no round reads past its end, and each closes the client that
-- it accepted; the only other end is an exit with status 1.
pub serve-Safe :
    (k : Kernel) (w : ℕ → ℕ) (server_fd rounds : ℕ) (buffer : Bytes) (t : Trace)
    → ShortReads k
    → Ends buffer
    → After
        (serve k server_fd buffer rounds t)
        (λ b v. Ends b × Balance w t v 0 0)
        (λ s v. (s ≡ Stop.exited 1) × Balance w t v 0 0)
unfolding serve
serve-Safe k w server_fd zero buffer t short e = (e, omega arith)
serve-Safe k w server_fd (suc rounds) buffer t short e =
    After-bind (serve_client k server_fd buffer t) _ _ _ _ _
      (client-Safe k w server_fd buffer t short e) (λ s v h. h)
      (λ b u (g, h).
        After-map (serve k server_fd b rounds u) _ _ _ _ (λ c v (p, q). (p, omega arith))
          (λ s v (p, q). (p, omega arith)) (serve-Safe k w server_fd rounds b u short g))
