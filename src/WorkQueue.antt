-- ===== src/WorkQueue.antt =====
-- Lecture9/cond_variable/main.c: a linked queue of messages with a condition variable.
mod Tests
pub mod Ends
pub mod Order
pub mod Moves
pub mod Program
pub mod Stages
use ece.Prelude.{
  ◌+◌, ◌-◌, ltb, if◌then◌else◌, ℕ, Bool, true, false, Option, some, none, List, [], ◌∷◌, ◌++◌,
}

-- Where the consumer stands: behind `pthread_mutex_lock` or a wake-up, in front of the tests; in
-- `pthread_cond_wait`; behind the second unlock, with its message; at its end.
pub data Consumer : Type 0 where
  testing : Consumer
  waiting : Consumer
  working : (mp : ℕ) → Consumer
  exited : Consumer

-- The linked messages are the list of their data, first message first. `processed` is what was printed
-- as done, and `stopping` counts the threads in `stop` between the unlock and the signal.
pub record State : Type 0 where
  pub workq : List ℕ
  pub running : Bool
  pub stopping : ℕ
  pub consumer : Consumer
  pub processed : List ℕ

-- Each action but the last two is what a thread does while it holds the mutex once. `signal_stop` is
-- the signal of `stop`, which follows the unlock; `wake` is a return of
-- `pthread_cond_wait` without a signal.
pub data Action : Type 0 where
  enqueue_msg : ℕ → Action
  stop : Action
  process_msg : Action
  signal_stop : Action
  wake : Action

-- `while (last->next != NULL) last = last->next; last->next = new_msg;`
unfoldable pub link_last : List ℕ → ℕ → List ℕ
link_last [] new_msg = new_msg ∷ []
link_last (m ∷ last) new_msg = m ∷ link_last last new_msg

-- `pthread_cond_signal(&qready)`.
unfoldable pub signal : Consumer → Consumer
signal Consumer.testing = Consumer.testing
signal Consumer.waiting = Consumer.testing
signal (Consumer.working m) = Consumer.working m
signal Consumer.exited = Consumer.exited

-- The tests of `process_msg` under the mutex, on `workq` and `running`.
unfoldable pub test_queue : State → List ℕ → Bool → State
test_queue s [] true = record s { consumer = Consumer.waiting }
test_queue s [] false = record s { consumer = Consumer.exited }
test_queue s (mp ∷ next) running = record s { workq = next; consumer = Consumer.working mp }

unfoldable pub consume : State → Consumer → Option State
consume s Consumer.testing = some (test_queue s s.workq s.running)
consume s Consumer.waiting = none
consume s (Consumer.working m) =
    some (record s { consumer = Consumer.testing; processed = s.processed ++ m ∷ [] })
consume s Consumer.exited = none

unfoldable pub wake_up : State → Consumer → Option State
wake_up s Consumer.waiting = some (record s { consumer = Consumer.testing })
wake_up s _ = none

-- `none`: the thread cannot make this step now.
unfoldable pub step : Action → State → Option State
step (Action.enqueue_msg d) s =
    some (record s { workq = link_last s.workq d; consumer = signal s.consumer })
step Action.stop s = some (record s { running = false; stopping = s.stopping + 1 })
step Action.process_msg s = consume s s.consumer
step Action.signal_stop s =
    if ltb 0 s.stopping
    then some (record s { stopping = s.stopping - 1; consumer = signal s.consumer })
    else none
step Action.wake s = wake_up s s.consumer

unfoldable pub run : List Action → State → Option State
run [] s = some s
run (a ∷ actions) s = elim (step a s) [ none ↦ none | some s' ↦ run actions s' ]

abbrev pub start : State
start = record {
  workq = [];
  running = true;
  stopping = 0;
  consumer = Consumer.testing;
  processed = [];
}
