-- ===== src/WorkQueue/Ends.antt =====
-- `main` comes to its end with all messages processed.
use ece.WorkQueue.Stages.{count, Inv}
use ece.WorkQueue.Moves.{moves-Inv, count_none}
use ece.WorkQueue.Order.{line_of}
use ece.Prelude.{
  inr, inl, refl, ap, append-nil, ◌⊎◌, some, ℕ, ◌≡◌, ◌≢◌, arith, false, none, List, [], ◌∷◌,
}
use ece.WorkQueue
use ece.WorkQueue.{State, Action, Consumer, consume}
use ece.WorkQueue.Order.{Awake}
use ece.WorkQueue.Program.{
  data_put, begin, moves, Phase, Program, Move, extract, create_producer, put_by, join_all,
  run_stop, send_signal, join_last, move,
}

-- Some step can be made that is not a wake-up without a signal.
abbrev pub CanMove : Program → Type 0
CanMove p = (m : Move) × (m ≢ Move.wake) × (move m p ≢ none)

module _ (p : Program) where
  create_possible : (d : ℕ) (todo : List ℕ) → p.phase ≡ Phase.creating (d ∷ todo) → CanMove p
  unfolding move create_producer
  create_possible d todo e = (Move.create, (λ w. ground arith), λ f. ground arith)

  producer_possible : (ds : List ℕ) → p.producers ≡ ds → p.phase ≡ Phase.creating [] → CanMove p
  unfolding move put_by extract join_all WorkQueue.step
  producer_possible [] e f = (Move.join_producers, (λ w. ground arith), λ g. ground arith)
  producer_possible (d ∷ ds) e f = (Move.put 0, (λ w. ground arith), λ g. ground arith)

  stop_possible : p.phase ≡ Phase.stopping → CanMove p
  unfolding move run_stop WorkQueue.step
  stop_possible e = (Move.stop, (λ w. ground arith), λ f. ground arith)

  signal_possible : p.phase ≡ Phase.signalling → p.queue.stopping ≡ 1 → CanMove p
  unfolding move send_signal WorkQueue.step
  signal_possible e h = (Move.signal_stop, (λ w. ground arith), λ f. ground arith)

  consumer_possible :
      (c : Consumer)
      → p.queue.consumer ≡ c
      → p.phase ≡ Phase.joining
      → Awake p.queue c
      → p.queue.running ≡ false
      → p.queue.stopping ≡ 0
      → CanMove p
  unfolding move join_last consume WorkQueue.step
  consumer_possible Consumer.exited e f h r s =
      (Move.join_consumer, (λ w. ground arith), λ g. ground arith)
  consumer_possible Consumer.testing e f h r s =
      (Move.process_msg, (λ w. ground arith), λ g. ground arith)
  consumer_possible (Consumer.working m) e f h r s =
      (Move.process_msg, (λ w. ground arith), λ g. ground arith)
  consumer_possible Consumer.waiting e f h r s = absurd (ground arith)

  -- All data that `main` gives to its producers have been processed, each as often as it was given.
  abbrev pub AllProcessed : Type 0
  AllProcessed =
      (p.phase ≡ Phase.returned) × ((x : ℕ) → count x p.queue.processed ≡ count x data_put)

  joined_all :
      (q : State) (ds : List ℕ)
      → q.consumer ≡ Consumer.exited
      → Inv Phase.returned q ds
      → (x : ℕ) → count x q.processed ≡ count x data_put
  joined_all q ds e h x =
      let nothing : line_of q ≡ q.processed =
        let w : q.workq ≡ [] = rw e at h.emptied in rw (e, w) (append-nil q.processed) in
      omega (arith, h.counts x, ap (count x) nothing, ap (count x) h.stage.1, count_none x)

  -- `main` has not returned, and some step can be made.
  abbrev pub GoesOn : Type 0
  GoesOn = (p.phase ≢ Phase.returned) × CanMove p

  Inv-goes_on : (ph : Phase) → p.phase ≡ ph → Inv ph p.queue p.producers → GoesOn ⊎ AllProcessed
  Inv-goes_on (Phase.creating (d ∷ todo)) e h = inl ((λ f. ground arith), create_possible d todo e)
  Inv-goes_on (Phase.creating []) e h =
      inl ((λ f. ground arith), producer_possible p.producers refl e)
  Inv-goes_on Phase.stopping e h = inl ((λ f. ground arith), stop_possible e)
  Inv-goes_on Phase.signalling e h = inl ((λ f. ground arith), signal_possible e h.stage.1)
  Inv-goes_on Phase.joining e h =
      inl
        ((λ f. ground arith), consumer_possible p.queue.consumer refl e h.awake h.stage.0 h.stage.1)
  Inv-goes_on Phase.returned e h = inr (e, joined_all p.queue p.producers h.stage.0 h)

-- In whatever order the threads run, and with wake-ups of the consumer at any time: at every point
-- either `main` has not returned, and a step, other than such a wake-up, can be made by it or by one
-- of its threads, or `main` has returned, and then the data processed are those given to the
-- producers, each as often as it was given.
pub moves-AllProcessed :
    (ms : List Move) (p : Program) → moves ms begin ≡ some p → GoesOn p ⊎ AllProcessed p
moves-AllProcessed ms p e = Inv-goes_on p p.phase refl (moves-Inv ms p e)
