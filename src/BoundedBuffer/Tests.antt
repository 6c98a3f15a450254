-- ===== src/BoundedBuffer/Tests.antt =====
-- A run of a producer and two consumers, and the theorems at it.
use ece.PartialSums.{accepted}
use ece.Prelude.{codes, ◌^◌, ◌<◌, ◌+◌, ◌*◌, refl, ◌≤◌, ◌∷◌, ◌⊎◌, length, ◌≡◌, ℕ}
use ece.BoundedBuffer.{
  none, [], some, set_slot, List, accepted, State, Action, Producer, run, start, printed, setup,
  step,
}
use ece.BoundedBuffer.Progress.{CanStep, run-length}
use ece.BoundedBuffer.Queue.{accepts, accepts_all}
use ece.BoundedBuffer.Refine.{calls, contents, run-accepts}
use ece.BoundedBuffer.Result.{printed-squares}
use ece.CString.{atoi}

-- The producer puts one number and starts a second round; both consumers want the number, one gets it.
abbrev schedule : List Action
schedule =
    Action.wait_space ∷ Action.put ∷ Action.post_items ∷ Action.wait_items ∷ Action.wait_space
    ∷ Action.take ∷ Action.put ∷ []

abbrev reached : State
reached = record (start 2) {
  buffer = set_slot (set_slot (λ _. 0) 0 1) 1 2;
  head = 1;
  tail = 2;
  remaining_space = 6;
  total_sum = 1;
  processed = 1;
  producer = Producer.filled 2;
  idle = 1;
  leaving = 1;
}

reaches : run 10 schedule (start 2) ≡ some reached
unfolding run step set_slot
reaches = refl

ten_by_two : setup (codes "10") (codes "2") ≡ some (10, 2)
unfolding atoi accepted
ten_by_two = refl

run-length_example : length schedule ≤ 6 * 10
run-length_example = run-length 10 2 schedule reached reaches

printed-squares_example :
    ((total : ℕ) × (printed 10 reached ≡ some total)
      × (6 * total ≡ 10 * (10 + 1) * (2 * 10 + 1))
      × (total < 2 ^ 31))
    ⊎ ((printed 10 reached ≡ none) × CanStep 10 reached)
printed-squares_example =
    printed-squares (codes "10") (codes "2") 10 2 schedule reached ten_by_two reaches

run-accepts_example : accepts_all (calls 10 schedule (start 2)) [] ≡ some (contents reached)
run-accepts_example = run-accepts 10 2 schedule reached reaches

-- The calls of the schedule, and the queue at its end.
queue_test : accepts_all (calls 10 schedule (start 2)) [] ≡ some (2 ∷ [])
unfolding calls step accepts_all accepts set_slot
queue_test = refl
