-- ===== src/WorkQueue/Program.antt =====
-- `main` of Lecture9/cond_variable/main.c: a consumer, four producers, and a thread that stops the
-- consumer.
use mathlib.Core.Option
use ece.Prelude.{ℕ, zero, suc, Option, some, none, List, [], ◌∷◌, ◌++◌}
use ece.WorkQueue
use ece.WorkQueue.{State, Action, Consumer}

-- Where `main` stands: it creates the producers, with the data of those still to come, and joins them;
-- the thread `stop` has been created, has unlocked, and has ended; the consumer has been joined. The
-- calls of `sleep` only delay.
pub data Phase : Type 0 where
  creating : (todo : List ℕ) → Phase
  stopping : Phase
  signalling : Phase
  joining : Phase
  returned : Phase

-- The queue with its consumer, the data of the producers that have been created and have not put their
-- message yet, and `main`.
pub record Program : Type 0 where
  pub queue : State
  pub producers : List ℕ
  pub phase : Phase

-- A step of `main` or of one of its threads.
pub data Move : Type 0 where
  create : Move
  put : ℕ → Move
  join_producers : Move
  stop : Move
  signal_stop : Move
  process_msg : Move
  wake : Move
  join_consumer : Move

abbrev pub keep : ℕ → ℕ × List ℕ → ℕ × List ℕ
keep d (e, ds) = (e, d ∷ ds)

-- The producer of that number, and the others.
unfoldable pub extract : ℕ → List ℕ → Option (ℕ × List ℕ)
extract k [] = none
extract zero (d ∷ ds) = some (d, ds)
extract (suc k) (d ∷ ds) = Option.map (keep d) (extract k ds)

-- A step of the queue, and where `main` is after it.
abbrev pub act : Action → Phase → Program → Option Program
act a phase p =
    Option.map (λ queue. record p { queue = queue; phase = phase }) (WorkQueue.step a p.queue)

unfoldable pub create_producer : Phase → Program → Option Program
create_producer (Phase.creating (d ∷ todo)) p =
    some (record p { producers = p.producers ++ d ∷ []; phase = Phase.creating todo })
create_producer _ p = none

-- `enqueue_msg` in one of the producers.
unfoldable pub put_by : Option (ℕ × List ℕ) → Program → Option Program
put_by none p = none
put_by (some (d, rest)) p =
    Option.map (λ queue. record p { queue = queue; producers = rest })
      (WorkQueue.step (Action.enqueue_msg d) p.queue)

unfoldable pub join_all : Phase → List ℕ → Program → Option Program
join_all (Phase.creating []) [] p = some (record p { phase = Phase.stopping })
join_all _ _ p = none

unfoldable pub run_stop : Phase → Program → Option Program
run_stop Phase.stopping p = act Action.stop Phase.signalling p
run_stop _ p = none

unfoldable pub send_signal : Phase → Program → Option Program
send_signal Phase.signalling p = act Action.signal_stop Phase.joining p
send_signal _ p = none

unfoldable pub join_last : Phase → Consumer → Program → Option Program
join_last Phase.joining Consumer.exited p = some (record p { phase = Phase.returned })
join_last _ _ p = none

-- `none`: that step cannot be made now.
unfoldable pub move : Move → Program → Option Program
move Move.create p = create_producer p.phase p
move (Move.put k) p = put_by (extract k p.producers) p
move Move.join_producers p = join_all p.phase p.producers p
move Move.stop p = run_stop p.phase p
move Move.signal_stop p = send_signal p.phase p
move Move.process_msg p = act Action.process_msg p.phase p
move Move.wake p = act Action.wake p.phase p
move Move.join_consumer p = join_last p.phase p.queue.consumer p

unfoldable pub moves : List Move → Program → Option Program
moves [] p = some p
moves (m ∷ ms) p = elim (move m p) [ none ↦ none | some p' ↦ moves ms p' ]

abbrev pub data_put : List ℕ
data_put = 2 ∷ 0 ∷ 1 ∷ 8 ∷ []

abbrev pub begin : Program
begin = record { queue = WorkQueue.start; producers = []; phase = Phase.creating data_put }
