-- ===== src/Pipe/Tests.antt =====
-- Runs of the two processes, and the theorem at one of them.
use ece.Prelude.{ℕ, ◌≡◌, ◌⊎◌, refl, true, false, some, List, [], ◌∷◌, Option}
use mathlib.Core.Option
use ece.CString.{c_string}
use ece.CString.Decimal.{show_ℕ}
use ece.Pipe.{
  hello, Child, Parent, State, Who, run, start, step, turn_child, turn_parent, take_response,
  print_response, read_chunk, count, reply,
}
use ece.Pipe.Reads.{InRange}
use ece.Pipe.Counted.{all_lines}
use ece.Pipe.Ends.{run-HasCounted, CanStep, HasCounted}

abbrev child_writes : List Who
child_writes = Who.child ∷ []

-- The parent's turns behind the end of the messages, and the child's response.
abbrev respond : List Who
respond = Who.child ∷ Who.parent ∷ Who.parent ∷ Who.child ∷ Who.parent ∷ []

-- The child writes all five messages before the parent reads.
abbrev all_at_once : List Who
all_at_once =
    Who.child ∷ Who.child ∷ Who.child ∷ Who.child ∷ Who.child ∷ Who.parent ∷ Who.parent ∷ respond

-- The parent reads each message by itself.
abbrev in_turn : List Who
in_turn =
    Who.parent ∷ Who.child ∷ Who.parent ∷ Who.child ∷ Who.parent ∷ Who.child ∷ Who.parent
    ∷ Who.child ∷ Who.parent ∷ Who.child ∷ Who.parent ∷ respond

abbrev lines : Option State → Option (List (List ℕ))
lines o = Option.map (λ s. s.stdout) o

counts_one : lines (run all_at_once (start [] true)) ≡ some (all_lines 1)
unfolding run step turn_child turn_parent take_response print_response read_chunk count reply
    c_string show_ℕ
counts_one = refl

counts_five : lines (run in_turn (start [] true)) ≡ some (all_lines 5)
unfolding run step turn_child turn_parent take_response print_response read_chunk count reply
    c_string show_ℕ
counts_five = refl

-- `fork` has failed: the parent is killed.
alone :
    Option.map (λ s. s.parent) (run (Who.parent ∷ Who.parent ∷ Who.parent ∷ []) (start [] false))
    ≡ some Parent.killed
unfolding run step turn_parent read_chunk reply
alone = refl

-- The child has written one message.
abbrev reached : State
reached = record (start [] true) { child = Child.writing 4; pipe = hello }

reaches : run child_writes (start [] true) ≡ some reached
unfolding run step turn_child
reaches = refl

run-HasCounted_example : CanStep reached ⊎ ((num : ℕ) × InRange num × HasCounted reached num)
run-HasCounted_example = run-HasCounted child_writes [] reached reaches
