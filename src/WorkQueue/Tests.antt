-- ===== src/WorkQueue/Tests.antt =====
-- Two messages, of which the consumer has one in its hand, and a stop; the theorems at them.
use ece.Prelude.{◌⊎◌, ◌≡◌, some, [], ◌∷◌, ◌++◌, List, false, refl}
use ece.WorkQueue.{
  State, Consumer, Action, run, start, step, signal, consume, link_last, test_queue,
}
use ece.WorkQueue.Program.{
  Phase, Program, Move, moves, move, create_producer, put_by, extract, begin,
}
use ece.WorkQueue.Ends.{moves-AllProcessed, GoesOn, AllProcessed}
use ece.WorkQueue.Order.{processed-enqueued, enqueued, in_hand}

abbrev actions : List Action
actions =
    Action.process_msg
    ∷ Action.enqueue_msg 2
    ∷ Action.enqueue_msg 5
    ∷ Action.process_msg
    ∷ Action.stop
    ∷ []

abbrev reached : State
reached = record {
  workq = 5 ∷ [];
  running = false;
  stopping = 1;
  consumer = Consumer.working 2;
  processed = [];
}

reaches : run actions start ≡ some reached
unfolding run step signal consume link_last test_queue
reaches = refl

processed-enqueued_example :
    reached.processed ++ (in_hand reached.consumer ++ reached.workq) ≡ enqueued actions
processed-enqueued_example = processed-enqueued actions reached reaches

abbrev asleep : State
asleep = record start { consumer = Consumer.waiting }

falls_asleep : run (Action.process_msg ∷ []) start ≡ some asleep
unfolding run step consume test_queue
falls_asleep = refl

-- `main` has created two producers, and one of them has put its message.
abbrev first_moves : List Move
first_moves = Move.create ∷ Move.process_msg ∷ Move.create ∷ Move.put 1 ∷ []

abbrev program : Program
program = record {
  queue = record start { workq = 0 ∷ [] };
  producers = 2 ∷ [];
  phase = Phase.creating (1 ∷ 8 ∷ []);
}

moved : moves first_moves begin ≡ some program
unfolding moves move create_producer put_by extract step consume test_queue signal link_last
moved = refl

moves-AllProcessed_example : GoesOn program ⊎ AllProcessed program
moves-AllProcessed_example = moves-AllProcessed first_moves program moved
