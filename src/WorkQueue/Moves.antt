-- ===== src/WorkQueue/Moves.antt =====
-- Each move keeps what holds of the stages.
use ece.Prelude.{
  Holds-bind, ap, ◌≢◌, Option, ◌≡◌, some, none, Holds, Holds-map, ℕ, ◌+◌, ◌-◌, ◌≡◌, refl, arith,
  false, Option, List, [], ◌∷◌,
}
use ece.WorkQueue
use ece.WorkQueue.{State, Action, Consumer, consume, wake_up, test_queue, signal}
use ece.WorkQueue.Order.{enqueued}
use ece.WorkQueue.Program.{
  extract, begin, put_by, Move, move, moves, Phase, Program, act, create_producer, join_all,
  run_stop, send_signal, join_last,
}
use ece.WorkQueue.Stages.{
  extract-count, put-Inv, count, signal-Emptied, count-append, Inv, ProgramInv, consume-Same,
  wake_up-Same, exited_stays, exited_sleeps, quiet-Inv, consumer-Inv,
}

none_left : (d : ℕ) (rest ds : List ℕ) → ds ≡ [] → count d ds ≢ count d (d ∷ []) + count d rest
unfolding count
none_left d rest ds e f = ground (arith, ap (count d) e)

-- The moves, each with `main` at the place `ph`.
module _ (p : Program) where
  -- What a move keeps.
  abbrev Keeps : Option Program → Type 0
  Keeps o = Holds o ProgramInv

  create-Inv : (ph : Phase) → Inv ph p.queue p.producers → Keeps (create_producer ph p)
  unfolding create_producer
  create-Inv (Phase.creating (d ∷ todo)) h = record {
    counts = λ x.
        omega
          (arith, h.counts x, count-append x p.producers (d ∷ []), count-append x (d ∷ []) todo);
    awake = h.awake;
    stage = h.stage;
    emptied = h.emptied;
  }
  create-Inv (Phase.creating []) h = tt
  create-Inv Phase.stopping h = tt
  create-Inv Phase.signalling h = tt
  create-Inv Phase.joining h = tt
  create-Inv Phase.returned h = tt

  join_all-Inv :
      (ph : Phase) (ds : List ℕ)
      → p.producers ≡ ds
      → Inv ph p.queue p.producers
      → Keeps (join_all ph ds p)
  unfolding join_all
  join_all-Inv (Phase.creating []) [] e h = record {
    counts = h.counts;
    awake = h.awake;
    stage = (h.stage.0, h.stage.1, e);
    emptied = h.emptied;
  }
  join_all-Inv (Phase.creating []) (d ∷ ds) e h = tt
  join_all-Inv (Phase.creating (d ∷ todo)) ds e h = tt
  join_all-Inv Phase.stopping ds e h = tt
  join_all-Inv Phase.signalling ds e h = tt
  join_all-Inv Phase.joining ds e h = tt
  join_all-Inv Phase.returned ds e h = tt

  join_last-Inv :
      (ph : Phase) (c : Consumer)
      → p.queue.consumer ≡ c
      → Inv ph p.queue p.producers
      → Keeps (join_last ph c p)
  unfolding join_last
  join_last-Inv Phase.joining Consumer.exited e h = record {
    counts = h.counts;
    awake = h.awake;
    stage = (e, h.stage.2);
    emptied = h.emptied;
  }
  join_last-Inv Phase.joining Consumer.testing e h = tt
  join_last-Inv Phase.joining Consumer.waiting e h = tt
  join_last-Inv Phase.joining (Consumer.working m) e h = tt
  join_last-Inv Phase.stopping c e h = tt
  join_last-Inv Phase.signalling c e h = tt
  join_last-Inv (Phase.creating todo) c e h = tt
  join_last-Inv Phase.returned c e h = tt

  act-Inv :
      (a : Action) (ph : Phase)
      → Holds (WorkQueue.step a p.queue) (λ q'. Inv ph q' p.producers)
      → Keeps (act a ph p)
  act-Inv a ph h =
      Holds-map (WorkQueue.step a p.queue) (λ queue. record p { queue = queue; phase = ph })
        (λ q'. Inv ph q' p.producers) ProgramInv h (λ q' g. g)

  stop-Inv :
      Inv Phase.stopping p.queue p.producers
      → Holds (WorkQueue.step Action.stop p.queue) (λ q'. Inv Phase.signalling q' p.producers)
  unfolding WorkQueue.step enqueued
  stop-Inv h =
      quiet-Inv Action.stop p.queue p.producers refl Phase.stopping Phase.signalling
        (λ q'. q' ≡ record p.queue { running = false; stopping = p.queue.stopping + 1 }) refl h refl
        (λ q' e. rw e ((refl, omega (arith, h.stage.1), h.stage.2), h.emptied))

  run_stop-Inv : (ph : Phase) → Inv ph p.queue p.producers → Keeps (run_stop ph p)
  unfolding run_stop
  run_stop-Inv Phase.stopping h = act-Inv Action.stop Phase.signalling (stop-Inv h)
  run_stop-Inv Phase.signalling h = tt
  run_stop-Inv (Phase.creating todo) h = tt
  run_stop-Inv Phase.joining h = tt
  run_stop-Inv Phase.returned h = tt

  signalled : State
  signalled = record p.queue { stopping = p.queue.stopping - 1; consumer = signal p.queue.consumer }

  signal-Inv :
      Inv Phase.signalling p.queue p.producers
      → Holds (WorkQueue.step Action.signal_stop p.queue) (λ q'. Inv Phase.joining q' p.producers)
  unfolding WorkQueue.step enqueued signalled
  signal-Inv h =
      quiet-Inv Action.signal_stop p.queue p.producers refl Phase.signalling Phase.joining
        (λ q'. q' ≡ signalled) refl h (ground arith)
        (λ q' e. rw e (
          (h.stage.0, omega (arith, h.stage.1), h.stage.2),
          signal-Emptied p.queue.consumer p.queue.workq p.queue.workq (λ g. refl) h.emptied,
        ))

  send_signal-Inv : (ph : Phase) → Inv ph p.queue p.producers → Keeps (send_signal ph p)
  unfolding send_signal
  send_signal-Inv Phase.signalling h = act-Inv Action.signal_stop Phase.joining (signal-Inv h)
  send_signal-Inv Phase.stopping h = tt
  send_signal-Inv (Phase.creating todo) h = tt
  send_signal-Inv Phase.joining h = tt
  send_signal-Inv Phase.returned h = tt

  process_msg-Inv : ProgramInv p → Keeps (act Action.process_msg p.phase p)
  unfolding WorkQueue.step enqueued
  process_msg-Inv h = act-Inv Action.process_msg p.phase (
      consumer-Inv Action.process_msg p.queue p.producers refl p.phase h
        (consume-Same p.queue p.queue.consumer) (exited_stays p.queue))

  wake-Inv : ProgramInv p → Keeps (act Action.wake p.phase p)
  unfolding WorkQueue.step enqueued
  wake-Inv h = act-Inv Action.wake p.phase (
      consumer-Inv Action.wake p.queue p.producers refl p.phase h
        (wake_up-Same p.queue p.queue.consumer) (exited_sleeps p.queue))

  -- One of the producers, of which there is none when they have all been joined.
  put_step-Inv :
      (d : ℕ) (rest : List ℕ) (ph : Phase)
      → ((x : ℕ) → count x p.producers ≡ count x (d ∷ []) + count x rest)
      → Inv ph p.queue p.producers
      → Holds (WorkQueue.step (Action.enqueue_msg d) p.queue) (λ q'. Inv ph q' rest)
  put_step-Inv d rest (Phase.creating todo) r h = put-Inv d rest todo p.queue p.producers r h
  put_step-Inv d rest Phase.stopping r h = absurd (none_left d rest p.producers h.stage.2 (r d))
  put_step-Inv d rest Phase.signalling r h = absurd (none_left d rest p.producers h.stage.2 (r d))
  put_step-Inv d rest Phase.joining r h = absurd (none_left d rest p.producers h.stage.2 (r d))
  put_step-Inv d rest Phase.returned r h = absurd (none_left d rest p.producers h.stage.1 (r d))

  put_by-Inv :
      (o : Option (ℕ × List ℕ))
      → Holds o (λ r. (x : ℕ) → count x p.producers ≡ count x (r.0 ∷ []) + count x r.1)
      → ProgramInv p
      → Keeps (put_by o p)
  unfolding put_by
  put_by-Inv none r h = tt
  put_by-Inv (some (d, rest)) r h =
      Holds-map (WorkQueue.step (Action.enqueue_msg d) p.queue)
        (λ queue. record p { queue = queue; producers = rest }) (λ q'. Inv p.phase q' rest)
        ProgramInv (put_step-Inv d rest p.phase r h) (λ q' g. g)

pub move-Inv : (m : Move) (p : Program) → ProgramInv p → Holds (move m p) ProgramInv
unfolding move
move-Inv Move.create p h = create-Inv p p.phase h
move-Inv (Move.put k) p h = put_by-Inv p (extract k p.producers) (extract-count k p.producers) h
move-Inv Move.join_producers p h = join_all-Inv p p.phase p.producers refl h
move-Inv Move.stop p h = run_stop-Inv p p.phase h
move-Inv Move.signal_stop p h = send_signal-Inv p p.phase h
move-Inv Move.process_msg p h = process_msg-Inv p h
move-Inv Move.wake p h = wake-Inv p h
move-Inv Move.join_consumer p h = join_last-Inv p p.phase p.queue.consumer refl h

pub count_none : (x : ℕ) → count x [] ≡ 0
unfolding count
count_none x = refl

begin-Inv : ProgramInv begin
begin-Inv = record {
  counts = λ x. omega (arith, count_none x);
  awake = tt;
  stage = (refl, refl);
  emptied = tt;
}

moves-Keeps : (ms : List Move) (p : Program) → ProgramInv p → Holds (moves ms p) ProgramInv
unfolding moves
moves-Keeps [] p h = h
moves-Keeps (m ∷ ms) p h = Holds-bind (move m p) (moves ms) _ _ (move-Inv m p h) (moves-Keeps ms)

pub moves-Inv : (ms : List Move) (p : Program) → moves ms begin ≡ some p → ProgramInv p
moves-Inv ms p e = rw e at (moves-Keeps ms begin begin-Inv)
