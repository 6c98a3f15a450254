-- ===== src/Counter/Tests.antt =====
-- Runs of the counting threads, and the theorems at them.
use ece.Prelude.{◌≡◌, ◌⊎◌, ◌↔◌, ◌≤◌, ◌*◌, ℕ, refl, some, true, [], ◌∷◌, List}
use ece.Counter.Locked
use ece.Counter.Locked.Counted.{up_to}
use ece.Counter.Locked.Ends.{run-up_to, CanStep}
use ece.Counter.Unlocked
use ece.Counter.Unlocked.Reach.{joined-range}

-- The first thread holds the mutex and has printed 1.
abbrev schedule : List Locked.Who
schedule = Locked.Who.a ∷ Locked.Who.a ∷ Locked.Who.a ∷ []

abbrev reached : Locked.State
reached = record Locked.start { held = true; stdout = 1 ∷ []; thread_a = Locked.Thread.printed 0 0 }

reaches : Locked.run schedule Locked.start ≡ some reached
unfolding Locked.run Locked.step Locked.turn
reaches = refl

run-up_to_example :
    CanStep reached
    ⊎ ((reached.counter ≡ 2 * Locked.nloop) × (reached.stdout ≡ up_to (2 * Locked.nloop)))
run-up_to_example = run-up_to schedule reached reaches

joined-range_example :
    ((race : List Unlocked.Who) × (out : List ℕ) × (Unlocked.run race Unlocked.start
        ≡ some (Unlocked.joined 2 out)))
    ↔ ((2 ≤ 2) × (2 ≤ 2 * Unlocked.nloop))
joined-range_example = joined-range 2
