-- ===== src/ThreadSums/Tests.antt =====
-- Two threads that take turns, and the theorem at them.
use ece.Prelude.{◌≡◌, ◌≢◌, ◌⊎◌, ◌+◌, ◌*◌, ◌<◌, ◌^◌, ℕ, some, none, [], ◌∷◌, List, codes, refl}
use ece.CString.{atoi}
use ece.PartialSums.{accepted}
use ece.ThreadSums.{State, setup, run, start, step, printed, bounds, advance}
use ece.ThreadSums.Total.{joined-squares}

abbrev schedule : List ℕ
schedule = 0 ∷ 1 ∷ 0 ∷ []

abbrev reached : State
reached = record { total_sum = 41; threads = (3, 5) ∷ (7, 10) ∷ [] }

reaches : run schedule (start 10 2) ≡ some reached
unfolding run step bounds advance
reaches = refl

ten_by_two : setup (codes "10") (codes "2") ≡ some (10, 2)
unfolding atoi accepted
ten_by_two = refl

joined-squares_example :
    ((total : ℕ) × (printed reached ≡ some total)
      × (6 * total ≡ 10 * (10 + 1) * (2 * 10 + 1))
      × (total < 2 ^ 31))
    ⊎ ((printed reached ≡ none) × (k : ℕ) × (step k reached ≢ none))
joined-squares_example =
    joined-squares (codes "10") (codes "2") 10 2 schedule reached ten_by_two reaches
