-- ===== src/SharedMemory/Tests.antt =====
-- Runs of the two children and their parent, and the theorem at them.
use ece.Prelude.{[], ◌∷◌, List}
use ece.SharedMemory.{Child, Reply, Action, State, start}

-- The second child is in the section, and `sem_wait` has failed in the first.
abbrev schedule : List Action
schedule =
    Action.second_turn Reply.done
    ∷ Action.first_turn Reply.error
    ∷ Action.second_turn Reply.done
    ∷ []

abbrev reached : State
reached = record start { sem = 0; first = Child.gave_up; second = Child.at_end 0 }
