-- ===== src/Proxy/Upstream/Balance.antt =====
-- The descriptors of `connect_server` and of giving up.
use ece.Prelude.{ℕ, ◌+◌, ◌≡◌, [], ◌∷◌, ◌++◌, List, Bytes, arith, refl}
use ece.Sys.{Kernel, Trace, closed, closes, opens, Event}
use ece.Sys.After.{After}
use ece.Sys.Balance.{Holding, tally, Balance}
use ece.Proxy.Upstream.{Caller, connect_server}

pub tally-append : (xs ys : List ℕ) (w : ℕ → ℕ) → tally w (xs ++ ys) ≡ tally w xs + tally w ys
tally-append [] ys w = omega arith
tally-append (x ∷ xs) ys w = ground (arith, tally-append xs ys w)

pub closes-closed :
    (w : ℕ → ℕ) (fds : List ℕ) (t : Trace) → closes w (closed fds t) ≡ closes w t + tally w fds
closes-closed w [] t = omega arith
closes-closed w (fd ∷ fds) t = ground (arith, closes-closed w fds (Event.close fd ∷ t))

pub opens-closed : (w : ℕ → ℕ) (fds : List ℕ) (t : Trace) → opens w (closed fds t) ≡ opens w t
opens-closed w [] t = refl
opens-closed w (fd ∷ fds) t = opens-closed w fds (Event.close fd ∷ t)

pub ruleset closing = (tally-append, closes-closed, opens-closed)

-- A connection leaves one more descriptor open; a failure leaves none, and closes the caller's.
pub connect_server-Balance :
    (k : Kernel) (who : Caller) (host service : Bytes) (w : ℕ → ℕ) (t : Trace)
    → After
        (connect_server k who host service t)
        (λ fd t'. Holding w t t' fd)
        (λ s t'. (s ≡ who.verdict) × Balance w t t' (tally w who.fds) 0)
unfolding connect_server
connect_server-Balance k who host service w t = grind (arith, closing)
