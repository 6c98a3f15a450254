-- ===== src/WorkQueue/Stages.antt =====
-- What holds while `main` goes through its stages.
use ece.Prelude.{
  ap, append-nil, Holds, Holds-map, Holds-weaken, Holds_both, ℕ, zero, suc, ◌+◌, ◌≡◌, ◌≢◌, refl,
  sym, ◌∙◌, arith, Bool, true, false, List, [], ◌∷◌, ◌++◌, ◌==◌, if◌then◌else◌,
}
use ece.WorkQueue
use ece.WorkQueue.{State, Action, Consumer, consume, wake_up, test_queue, signal, link_last}
use ece.WorkQueue.Order.{line_of, enqueued, step-line, step-IsAwake, IsAwake, Awake}
use ece.WorkQueue.Program.{Phase, Program, keep, extract, data_put}

-- How often a message of that data is in a list.
unfoldable pub count : ℕ → List ℕ → ℕ
count x [] = 0
count x (d ∷ ds) = if d == x then count x ds + 1 else count x ds

pub count-append : (x : ℕ) (ds es : List ℕ) → count x (ds ++ es) ≡ count x ds + count x es
unfolding count
count-append x [] es = omega arith
count-append x (d ∷ ds) es = ground (arith, count-append x ds es)

pub extract-count :
    (k : ℕ) (ds : List ℕ)
    → Holds (extract k ds) (λ r. (x : ℕ) → count x ds ≡ count x (r.0 ∷ []) + count x r.1)
unfolding extract count
extract-count k [] = tt
extract-count zero (d ∷ ds) = λ x. ground arith
extract-count (suc k) (d ∷ ds) =
    Holds-map (extract k ds) (keep d) _ _ (extract-count k ds)
      (λ r h x. let e = h x in ground arith)

abbrev pub to_come : Phase → List ℕ
to_come (Phase.creating todo) = todo
to_come _ = []

-- What holds while `main` is at that place.
abbrev pub Stage : Phase → State → List ℕ → Type 0
Stage (Phase.creating todo) q ds = (q.running ≡ true) × (q.stopping ≡ 0)
Stage Phase.stopping q ds = (q.running ≡ true) × (q.stopping ≡ 0) × (ds ≡ [])
Stage Phase.signalling q ds = (q.running ≡ false) × (q.stopping ≡ 1) × (ds ≡ [])
Stage Phase.joining q ds = (q.running ≡ false) × (q.stopping ≡ 0) × (ds ≡ [])
Stage Phase.returned q ds = (q.consumer ≡ Consumer.exited) × (ds ≡ [])

-- A consumer at its end has left nothing in the queue.
abbrev pub Emptied : Consumer → List ℕ → Type 0
Emptied Consumer.exited q = q ≡ []
Emptied _ q = Unit

pub record Inv (ph : Phase) (q : State) (ds : List ℕ) : Type 0 where
  pub counts : (x : ℕ) → count x (line_of q) + count x ds + count x (to_come ph) ≡ count x data_put
  pub awake : IsAwake q
  pub stage : Stage ph q ds
  pub emptied : Emptied q.consumer q.workq

abbrev pub ProgramInv : Program → Type 0
ProgramInv p = Inv p.phase p.queue p.producers

-- What a step of the consumer keeps.
abbrev pub Same : State → State → Type 0
Same q q' = (q'.running ≡ q.running) × (q'.stopping ≡ q.stopping) × Emptied q'.consumer q'.workq

test_queue-Same : (q : State) (l : List ℕ) (r : Bool) → q.workq ≡ l → Same q (test_queue q l r)
unfolding test_queue
test_queue-Same q [] true e = (refl, refl, tt)
test_queue-Same q [] false e = (refl, refl, e)
test_queue-Same q (m ∷ l) r e = (refl, refl, tt)

pub consume-Same : (q : State) (c : Consumer) → Holds (consume q c) (Same q)
unfolding consume
consume-Same q Consumer.testing = test_queue-Same q q.workq q.running refl
consume-Same q Consumer.waiting = tt
consume-Same q (Consumer.working m) = (refl, refl, tt)
consume-Same q Consumer.exited = tt

pub wake_up-Same : (q : State) (c : Consumer) → Holds (wake_up q c) (Same q)
unfolding wake_up
wake_up-Same q Consumer.testing = tt
wake_up-Same q Consumer.waiting = (refl, refl, tt)
wake_up-Same q (Consumer.working m) = tt
wake_up-Same q Consumer.exited = tt

pub exited_stays :
    (q : State) → q.consumer ≡ Consumer.exited → Holds (consume q q.consumer) (λ q'. ⊥)
unfolding consume
exited_stays q e = rw e tt

pub exited_sleeps :
    (q : State) → q.consumer ≡ Consumer.exited → Holds (wake_up q q.consumer) (λ q'. ⊥)
unfolding wake_up
exited_sleeps q e = rw e tt

-- A step that puts nothing and starts no stop.
module _ (a : Action) (q : State) (ds : List ℕ) (puts : enqueued (a ∷ []) ≡ []) where
  line_kept : (q' : State) → line_of q' ≡ line_of q ++ enqueued (a ∷ []) → line_of q' ≡ line_of q
  line_kept q' e = rw puts at e ∙ append-nil (line_of q)

  pub quiet-Inv :
      (ph ph' : Phase) (R : State → Type 0)
      → to_come ph ≡ to_come ph'
      → Inv ph q ds
      → Holds (WorkQueue.step a q) R
      → ((q' : State) → R q' → Stage ph' q' ds × Emptied q'.consumer q'.workq)
      → Holds (WorkQueue.step a q) (λ q'. Inv ph' q' ds)
  quiet-Inv ph ph' R same h r f =
      Holds-weaken (WorkQueue.step a q) _ _
        (Holds_both (WorkQueue.step a q) _ _ (step-line a q)
          (Holds_both (WorkQueue.step a q) _ _ (step-IsAwake a q h.awake) r))
        (λ q' (l, (w, g)). record {
          counts = λ x. rw (line_kept q' l, sym same) (h.counts x);
          awake = w;
          stage = (f q' g).0;
          emptied = (f q' g).1;
        })

  -- A step of the consumer.
  pub consumer-Inv :
      (ph : Phase)
      → Inv ph q ds
      → Holds (WorkQueue.step a q) (Same q)
      → (q.consumer ≡ Consumer.exited → Holds (WorkQueue.step a q) (λ q'. ⊥))
      → Holds (WorkQueue.step a q) (λ q'. Inv ph q' ds)
  consumer-Inv (Phase.creating todo) h r stays =
      quiet-Inv _ _ (Same q) refl h r (λ q' (e, f, m). ((e ∙ h.stage.0, f ∙ h.stage.1), m))
  consumer-Inv Phase.stopping h r stays =
      quiet-Inv _ _ (Same q) refl h r
        (λ q' (e, f, m). ((e ∙ h.stage.0, f ∙ h.stage.1, h.stage.2), m))
  consumer-Inv Phase.signalling h r stays =
      quiet-Inv _ _ (Same q) refl h r
        (λ q' (e, f, m). ((e ∙ h.stage.0, f ∙ h.stage.1, h.stage.2), m))
  consumer-Inv Phase.joining h r stays =
      quiet-Inv _ _ (Same q) refl h r
        (λ q' (e, f, m). ((e ∙ h.stage.0, f ∙ h.stage.1, h.stage.2), m))
  consumer-Inv Phase.returned h r stays =
      Holds-weaken (WorkQueue.step a q) _ _ (stays h.stage.0) (λ q' g. absurd g)

running_going : (q : State) (c : Consumer) → Awake q c → q.running ≡ true → c ≢ Consumer.exited
running_going q Consumer.exited h e f = ground arith
running_going q Consumer.testing h e f = ground arith
running_going q Consumer.waiting h e f = ground arith
running_going q (Consumer.working m) h e f = ground arith

pub signal-Emptied :
    (c : Consumer) (l l' : List ℕ)
    → (c ≡ Consumer.exited → l ≡ l')
    → Emptied c l
    → Emptied (signal c) l'
unfolding signal
signal-Emptied Consumer.exited l l' f h = sym (f refl) ∙ h
signal-Emptied Consumer.testing l l' f h = tt
signal-Emptied Consumer.waiting l l' f h = tt
signal-Emptied (Consumer.working m) l l' f h = tt

line_put :
    (d : ℕ) (q : State)
    → Holds (WorkQueue.step (Action.enqueue_msg d) q) (λ q'. line_of q' ≡ line_of q ++ d ∷ [])
unfolding WorkQueue.step enqueued
line_put d q = step-line (Action.enqueue_msg d) q

-- A producer puts its message while `main` still waits for it.
pub put-Inv :
    (d : ℕ) (rest : List ℕ) (todo : List ℕ) (q : State) (ds : List ℕ)
    → ((x : ℕ) → count x ds ≡ count x (d ∷ []) + count x rest)
    → Inv (Phase.creating todo) q ds
    → Holds (WorkQueue.step (Action.enqueue_msg d) q) (λ q'. Inv (Phase.creating todo) q' rest)
unfolding WorkQueue.step
put-Inv d rest todo q ds r h = record {
  counts = λ x.
      omega
        (arith, ap (count x) (line_put d q) ∙ count-append x (line_of q) (d ∷ []), r x, h.counts x);
  awake = step-IsAwake (Action.enqueue_msg d) q h.awake;
  stage = h.stage;
  emptied =
      signal-Emptied q.consumer q.workq _
        (λ e. absurd (running_going q q.consumer h.awake h.stage.0 e)) h.emptied;
}
