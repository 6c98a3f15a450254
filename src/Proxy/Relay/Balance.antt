-- ===== src/Proxy/Relay/Balance.antt =====
-- `relay` opens and closes nothing.
use ece.Prelude.{
  [], add32, length, Option, Bytes, ◌∷◌, some, none, refl, inr, ◌⊎◌, ◌≡◌, ℕ, Bytes, arith, zero,
  suc,
}
use ece.Sys.{M, Event, Kernel, Stop, Trace}
use ece.Sys.After.{After}
use ece.Sys.Balance.{Quiet}
use ece.Proxy.Relay.{after_read, follow, after_first, response_size, drain, relay, relay_rest}

module _ (k : Kernel) (client_fd server_fd : ℕ) (w : ℕ → ℕ) where
  abbrev Keeps : M ℕ → Trace → Type 0
  Keeps m t = After (m t) (λ _ t'. Quiet w t t') (λ s _. (s ≡ Stop.undefined) ⊎ (s ≡ Stop.running))

  after_read-Balance :
      (next : ℕ → M ℕ)
      → ((total : ℕ) (t : Trace) → Keeps (next total) t)
      → (total : ℕ) (r : Option Bytes) (t : Trace) → Keeps (after_read k next client_fd total r) t
  unfolding after_read
  after_read-Balance next keeps total none t = (refl, refl)
  after_read-Balance next keeps total (some []) t = (refl, refl)
  after_read-Balance next keeps total (some (b ∷ bs)) t =
      keeps (add32 total (length (b ∷ bs)))
        (Event.write client_fd (b ∷ bs) (k.write t client_fd (b ∷ bs)) ∷ t)

  drain-Balance : (fuel total : ℕ) (t : Trace) → Keeps (drain k fuel client_fd server_fd total) t
  unfolding drain
  drain-Balance zero total t = inr refl
  drain-Balance (suc fuel) total t =
      after_read-Balance (drain k fuel client_fd server_fd) (drain-Balance fuel) total
        (k.read t server_fd response_size)
        (Event.read server_fd (k.read t server_fd response_size) ∷ t)

  follow-Balance :
      (fuel total : ℕ) (plan : Option ℕ) (t : Trace)
      → Keeps (follow k fuel client_fd server_fd total plan) t
  unfolding follow
  follow-Balance fuel total none t = drain-Balance fuel total t
  follow-Balance fuel total (some n) t = ground arith

  after_first-Balance :
      (fuel : ℕ) (r : Option Bytes) (t : Trace) → Keeps (after_first k fuel client_fd server_fd r) t
  unfolding after_first relay_rest
  after_first-Balance fuel none t = (refl, refl)
  after_first-Balance fuel (some bytes) t = grind (arith, follow-Balance)

  pub relay-Balance : (fuel : ℕ) (t : Trace) → Keeps (relay k fuel client_fd server_fd) t
  unfolding relay
  relay-Balance fuel t = grind (arith, after_first-Balance)
