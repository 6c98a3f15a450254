-- ===== src/Proxy/Concurrent/Balance.antt =====
-- The descriptors of `main`.
use ece.Prelude.{
  ◌⊎◌, codes, [], true, Option-cases, false, Bool, refl, ℕ, zero, suc, Bool-cases, inl, inr, ◌∷◌,
  ◌≡◌, arith, ℤ, some,
}
use ece.Sys.{continue, Kernel, Stop, Trace, Event}
use ece.Sys.After.{After-map, After-bind, After}
use ece.Sys.Balance.{Orderly-map, Orderly, Balance}
use ece.Proxy.Sequential.{open_proxy}
use ece.Proxy.Thread.{thread_handle}
use ece.Proxy.Thread.Balance.{LogOpens, thread_handle-Balance}
use ece.Proxy.Exchange.Balance.{Unlogged}
use ece.Proxy.Concurrent.{accept_rounds, after_fork, accept_client, hand_over, ForkReply, reap}

-- A run that opens the listening socket returns it; one that fails exits with status 1 and has closed
-- what it opened.
pub open_proxy-Balance :
    (k : Kernel) (port : ℤ) (w : ℕ → ℕ) (t : Trace)
    → After
        (open_proxy k port t)
        (λ proxy_fd t'. Balance w t t' 0 (w proxy_fd))
        (λ s t'. (s ≡ Stop.exited 1) × Balance w t t' 0 0)
unfolding open_proxy
open_proxy-Balance k port w t = ground arith

-- Each `fork` makes a child, and this run is the parent's.
abbrev pub IsParent : Kernel → Type 0
IsParent k = (t : Trace) → k.fork t ≡ ForkReply.in_parent

module _ (k : Kernel) (w : ℕ → ℕ) where
  reap-Balance :
      (fuel : ℕ) (t : Trace)
      → After (reap k fuel t) (λ _ t'. Balance w t t' 0 0) (λ s t'. s ≡ Stop.running)
  unfolding reap
  reap-Balance zero t = refl
  reap-Balance (suc fuel) t = elim (Bool-cases (k.waitpid t)) [
    | inl e ↦ rw e (reap-Balance fuel (Event.reaped ∷ t))
    | inr e ↦ rw e (omega arith)
  ]

  -- The end of a round, behind the reaping.
  after_reap :
      (fuel proxy_fd fd s_addr : ℕ) (thread_flag : Bool) (t : Trace) (Q : Trace → Type 0)
      (Z : Stop → Trace → Type 0)
      → Z Stop.running ≡ (λ v. Unit)
      → ((u : Trace)
          → Balance w t u 0 0
          → After (hand_over k fuel thread_flag proxy_fd fd s_addr u) (λ _ v. Q v) Z)
      → After
          (continue (reap k fuel t) (λ _. hand_over k fuel thread_flag proxy_fd fd s_addr))
          (λ _ v. Q v)
          Z
  after_reap fuel proxy_fd fd s_addr thread_flag t Q Z free h =
      After-bind (reap k fuel t) (λ _. hand_over k fuel thread_flag proxy_fd fd s_addr) _ _ _ _
        (reap-Balance fuel t) (λ s v e. rw (e, free) tt) (λ a u g. h u g)

  parent-Round :
      (fuel proxy_fd : ℕ) (t : Trace)
      → IsParent k
      → After
          (accept_client k fuel false proxy_fd t)
          (λ _ v. Balance w t v 0 0)
          (λ s v. Orderly s (Balance w t v (w proxy_fd) 0))
  unfolding accept_client hand_over after_fork
  parent-Round fuel proxy_fd t parent = elim (Option-cases (k.accept t)) [
    | inl e ↦ rw e (omega arith)
    | inr ((fd, s_addr), e) ↦ rw e (
        after_reap fuel proxy_fd fd s_addr false (Event.opened fd ∷ t) (λ v. Balance w t v 0 0)
          (λ s v. Orderly s (Balance w t v (w proxy_fd) 0)) refl
          (λ u g. rw (parent u) (omega arith)))
  ]

  thread-Round :
      (fuel proxy_fd fd s_addr : ℕ) (t : Trace)
      → k.accept t ≡ some (fd, s_addr)
      → After
          (accept_client k fuel true proxy_fd t)
          (λ _ v. Balance w t v 0 (w fd))
          (λ s v. Orderly s (Balance w t v 0 0))
  unfolding accept_client hand_over
  thread-Round fuel proxy_fd fd s_addr t e = rw e (
      after_reap fuel proxy_fd fd s_addr true (Event.opened fd ∷ t) (λ v. Balance w t v 0 (w fd))
        (λ s v. Orderly s (Balance w t v 0 0)) refl (λ u g. omega arith))

-- In process mode, the parent keeps no descriptor of a client: after any number of rounds it has closed
-- all that it was handed, and when `accept` fails it has closed the listening socket besides.
pub parent-Balance :
    (k : Kernel) (fuel proxy_fd rounds : ℕ) (w : ℕ → ℕ) (t : Trace)
    → IsParent k
    → After
        (accept_rounds k fuel false proxy_fd rounds t)
        (λ _ v. Balance w t v 0 0)
        (λ s v. Orderly s (Balance w t v (w proxy_fd) 0))
unfolding accept_rounds
parent-Balance k fuel proxy_fd zero w t parent = omega arith
parent-Balance k fuel proxy_fd (suc rounds) w t parent =
    After-bind (accept_client k fuel false proxy_fd t) _ _ _ _ _
      (parent-Round k w fuel proxy_fd t parent) (λ s v e. e)
      (λ a u g.
        After-map (accept_rounds k fuel false proxy_fd rounds u) _ _ _ _ (λ b v e. omega arith)
          (λ s v e. Orderly-map s _ _ (λ f. omega arith) e)
          (parent-Balance k fuel proxy_fd rounds w u parent))

-- A thread that can open the log file has closed all.
logged_only :
    (k : Kernel) (fd : ℕ) (w : ℕ → ℕ) (t u v : Trace)
    → LogOpens k
    → Balance w t u 0 (w fd)
    → Balance w u v (w fd) 0 ⊎ Unlogged k (codes "proxy.log") (fd ∷ []) w u v
    → Balance w t v 0 0
logged_only k fd w t u v logs g (inl f) = omega arith
logged_only k fd w t u v logs g (inr (x, d, f, e, h)) = absurd (logs x f)

-- In thread mode, let the log file open whenever it is asked for; one client and its thread: when the thread has come to an orderly end, the descriptors
-- are as they were before `accept`.
pub accept-thread-Balance :
    (k : Kernel) (fuel proxy_fd : ℕ) (w : ℕ → ℕ) (t : Trace) (fd s_addr : ℕ)
    → LogOpens k
    → k.accept t ≡ some (fd, s_addr)
    → After
        (continue (accept_client k fuel true proxy_fd t) (λ _. thread_handle k fuel fd s_addr))
        (λ _ v. Balance w t v 0 0)
        (λ s v. Orderly s (Balance w t v 0 0))
accept-thread-Balance k fuel proxy_fd w t fd s_addr logs e =
    After-bind (accept_client k fuel true proxy_fd t) (λ _. thread_handle k fuel fd s_addr) _ _
      (λ s v. Orderly s (Balance w t v 0 0)) _ (thread-Round k w fuel proxy_fd fd s_addr t e)
      (λ s v h. h)
      (λ a u g.
        After-map (thread_handle k fuel fd s_addr u) _ _ _ _ (λ b v h. omega arith)
          (λ s v h. Orderly-map s _ _ (logged_only k fd w t u v logs g) h)
          (thread_handle-Balance k fuel fd s_addr w u))
