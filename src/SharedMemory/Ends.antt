-- ===== src/SharedMemory/Ends.antt =====
-- What the parent prints, and that it does.
use ece.Prelude.{◌≡◌, ◌≢◌, none}
use ece.SharedMemory.{printed, Child, Reply, View, State, Action, step}

-- A step in which no call fails.
abbrev IsDone : Action → Type 0
IsDone (Action.first_turn reply) = reply ≡ Reply.done
IsDone (Action.second_turn reply) = reply ≡ Reply.done

abbrev pub CanStep : State → Type 0
CanStep s = (a : Action) × IsDone a × (step a s ≢ none)

-- A child whose turn it can be.
abbrev Ready : Child → View → Type 0
Ready Child.wants v = v.sem ≡ 1
Ready Child.left v = ⊥
Ready Child.gave_up v = ⊥
Ready _ v = Unit

-- The parent has printed nothing, and a child can make its next step, with no call failing.
abbrev pub GoesOn : State → Type 0
GoesOn s = (printed s ≡ none) × CanStep s
