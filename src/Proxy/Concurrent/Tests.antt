-- ===== src/Proxy/Concurrent/Tests.antt =====
-- The loop of `main` and the hand-over to a thread, at inputs that meet the theorems' hypotheses.
use ece.Prelude.{◌≡◌, ◌≢◌, refl, some, none, false, [], ◌∷◌, length, get_elem?, arith}
use ece.Sys.{Kernel, ForkReply}
use ece.Sys.After.{After}
use ece.Sys.Balance.{Balance, Orderly, bit}
use ece.Proxy.Tests.{quiet, client}
use ece.Proxy.Concurrent.{accept_rounds}
use ece.Proxy.Concurrent.Balance.{parent-Balance}
use ece.Proxy.Handoff.{State, Action, run, step}
use ece.Proxy.Handoff.Race.{run-lost}

-- `fork` returns the child's number.
abbrev parental : Kernel
parental = record quiet { fork = λ t. ForkReply.in_parent }

parent-Balance_example :
    After
      (accept_rounds parental 9 false 3 2 [])
      (λ _ v. Balance (bit client) [] v 0 0)
      (λ s v. Orderly s (Balance (bit client) [] v (bit client 3) 0))
parent-Balance_example = parent-Balance parental 9 3 2 (bit client) [] (λ t. refl)

abbrev fresh : State
fresh = record { client = 0; threads = [] }

abbrev overwritten : State
overwritten = record { client = 5; threads = some 5 ∷ some 5 ∷ [] }

abbrev copied : State
copied = record { client = 5; threads = some 4 ∷ none ∷ [] }

-- Two clients are accepted before the first thread runs: both threads get the second.
both_get_second :
    run (Action.accept 4 ∷ Action.accept 5 ∷ Action.copy 0 ∷ Action.copy 1 ∷ []) fresh
    ≡ some overwritten
unfolding run step ece.Proxy.Handoff.copy_client
both_get_second = refl

run-lost_example : get_elem? overwritten.threads (length fresh.threads) ≢ some (some 4)
run-lost_example =
    run-lost 4 5 (Action.copy 0 ∷ Action.copy 1 ∷ []) fresh overwritten (omega arith) (tt, (tt, tt))
      both_get_second

in_time : run (Action.accept 4 ∷ Action.copy 0 ∷ Action.accept 5 ∷ []) fresh ≡ some copied
unfolding run step ece.Proxy.Handoff.copy_client
in_time = refl
