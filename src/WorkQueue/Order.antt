-- ===== src/WorkQueue/Order.antt =====
-- Messages are processed in the order in which they were put, and none is slept over.
use ece.Prelude.{
  Bool-cases, ltb, ◌<◌, ◌+◌, ◌-◌, ◌∙◌, some, Holds-bind, arith, inl, inr, ◌⊎◌, ◌≢◌, Holds-weaken,
  append-nil, refl, append_assoc, sym, ap, ◌≡◌, ℕ, Bool, true, false, List, [], ◌∷◌, ◌++◌, Holds,
}
use ece.WorkQueue.{
  start, run, State, Consumer, Action, link_last, signal, test_queue, consume, wake_up, step,
}

-- The data put by a list of actions.
unfoldable pub enqueued : List Action → List ℕ
enqueued [] = []
enqueued (Action.enqueue_msg d ∷ actions) = d ∷ enqueued actions
enqueued (Action.stop ∷ actions) = enqueued actions
enqueued (Action.process_msg ∷ actions) = enqueued actions
enqueued (Action.signal_stop ∷ actions) = enqueued actions
enqueued (Action.wake ∷ actions) = enqueued actions

abbrev pub in_hand : Consumer → List ℕ
in_hand (Consumer.working m) = m ∷ []
in_hand _ = []

-- All data in the order of the queue: processed, in the consumer's hand, still in the queue.
abbrev pub line_of : State → List ℕ
line_of s = s.processed ++ (in_hand s.consumer ++ s.workq)

-- A consumer that waits has nothing to do, or is about to be told to stop; one at its end was told.
abbrev pub Awake : State → Consumer → Type 0
Awake s Consumer.testing = Unit
Awake s Consumer.waiting = (s.workq ≡ []) × ((s.running ≡ true) ⊎ (0 < s.stopping))
Awake s (Consumer.working m) = Unit
Awake s Consumer.exited = s.running ≡ false

link_last_lem : (q : List ℕ) (d : ℕ) → link_last q d ≡ q ++ d ∷ []
unfolding link_last
link_last_lem [] d = refl
link_last_lem (m ∷ q) d = ap (λ l. m ∷ l) (link_last_lem q d)

in_hand-signal : (c : Consumer) → in_hand (signal c) ≡ in_hand c
unfolding signal
in_hand-signal Consumer.testing = refl
in_hand-signal Consumer.waiting = refl
in_hand-signal (Consumer.working m) = refl
in_hand-signal Consumer.exited = refl

line_of-enqueue :
    (d : ℕ) (s : State)
    → s.processed ++ (in_hand (signal s.consumer) ++ link_last s.workq d) ≡ line_of s ++ d ∷ []
line_of-enqueue d s =
    rw (in_hand-signal s.consumer, link_last_lem s.workq d)
      (rw (append_assoc s.processed (in_hand s.consumer ++ s.workq) (d ∷ []))
        (rw (append_assoc (in_hand s.consumer) s.workq (d ∷ [])) refl))

test_queue-line :
    (s : State) (q : List ℕ) (r : Bool)
    → line_of (test_queue (record s { workq = q }) q r) ≡ s.processed ++ q
unfolding test_queue
test_queue-line s [] true = refl
test_queue-line s [] false = refl
test_queue-line s (m ∷ q) r = refl

consume-line :
    (s : State) (c : Consumer)
    → Holds (consume s c) (λ s'. line_of s' ≡ s.processed ++ (in_hand c ++ s.workq))
unfolding consume
consume-line s Consumer.testing = test_queue-line s s.workq s.running
consume-line s Consumer.waiting = tt
consume-line s (Consumer.working m) = append_assoc s.processed (m ∷ []) s.workq
consume-line s Consumer.exited = tt

wake_up-line :
    (s : State) (c : Consumer)
    → Holds (wake_up s c) (λ s'. line_of s' ≡ s.processed ++ (in_hand c ++ s.workq))
unfolding wake_up
wake_up-line s Consumer.testing = tt
wake_up-line s Consumer.waiting = refl
wake_up-line s (Consumer.working m) = tt
wake_up-line s Consumer.exited = tt

pub step-line :
    (a : Action) (s : State) → Holds (step a s) (λ s'. line_of s' ≡ line_of s ++ enqueued (a ∷ []))
unfolding step enqueued
step-line (Action.enqueue_msg d) s = line_of-enqueue d s
step-line Action.stop s = sym (append-nil (line_of s))
step-line Action.process_msg s = rw (append-nil (line_of s)) (consume-line s s.consumer)
step-line Action.signal_stop s = elim (Bool-cases (ltb 0 s.stopping)) [
  | inl e ↦ rw e (rw (in_hand-signal s.consumer) (sym (append-nil (line_of s))))
  | inr e ↦ rw e tt
]
step-line Action.wake s = rw (append-nil (line_of s)) (wake_up-line s s.consumer)

enqueued-cons :
    (a : Action) (actions : List Action)
    → enqueued (a ∷ actions) ≡ enqueued (a ∷ []) ++ enqueued actions
unfolding enqueued
enqueued-cons (Action.enqueue_msg d) actions = refl
enqueued-cons Action.stop actions = refl
enqueued-cons Action.process_msg actions = refl
enqueued-cons Action.signal_stop actions = refl
enqueued-cons Action.wake actions = refl

enqueued_none : enqueued [] ≡ []
unfolding enqueued
enqueued_none = refl

run-line :
    (actions : List Action) (s : State)
    → Holds (run actions s) (λ s'. line_of s' ≡ line_of s ++ enqueued actions)
unfolding run
run-line [] s = rw enqueued_none (sym (append-nil (line_of s)))
run-line (a ∷ actions) s = Holds-bind (step a s) (run actions) _ _ (step-line a s) (λ s' e.
    Holds-weaken (run actions s') _ _ (run-line actions s')
      (λ u f. f ∙ rw (e, enqueued-cons a actions) (append_assoc (line_of s) _ (enqueued actions))))

-- Whatever the order in which the threads get the mutex: what was processed, what the consumer has in
-- its hand and what is in the queue are, one behind the other, the messages put, in their order.
pub processed-enqueued :
    (actions : List Action) (s : State)
    → run actions start ≡ some s
    → s.processed ++ (in_hand s.consumer ++ s.workq) ≡ enqueued actions
processed-enqueued actions s e = rw e at (run-line actions start)

signal-Awake :
    (s : State) (c : Consumer) → (s.running ≡ false) ⊎ (c ≢ Consumer.exited) → Awake s (signal c)
unfolding signal
signal-Awake s Consumer.testing h = tt
signal-Awake s Consumer.waiting h = tt
signal-Awake s (Consumer.working m) h = tt
signal-Awake s Consumer.exited (inl h) = h
signal-Awake s Consumer.exited (inr h) = absurd (h refl)

exited-cases : (s : State) (c : Consumer) → Awake s c → (s.running ≡ false) ⊎ (c ≢ Consumer.exited)
exited-cases s Consumer.testing h = inr (λ e. ground arith)
exited-cases s Consumer.waiting h = inr (λ e. ground arith)
exited-cases s (Consumer.working m) h = inr (λ e. ground arith)
exited-cases s Consumer.exited h = inl h

abbrev pub IsAwake : State → Type 0
IsAwake s = Awake s s.consumer

test_queue-IsAwake :
    (s : State) (q : List ℕ) (r : Bool) → s.workq ≡ q → s.running ≡ r → IsAwake (test_queue s q r)
unfolding test_queue
test_queue-IsAwake s [] true e f = (e, inl f)
test_queue-IsAwake s [] false e f = f
test_queue-IsAwake s (m ∷ q) r e f = tt

consume-IsAwake : (s : State) (c : Consumer) → Holds (consume s c) IsAwake
unfolding consume
consume-IsAwake s Consumer.testing = test_queue-IsAwake s s.workq s.running refl refl
consume-IsAwake s Consumer.waiting = tt
consume-IsAwake s (Consumer.working m) = tt
consume-IsAwake s Consumer.exited = tt

wake_up-IsAwake : (s : State) (c : Consumer) → Holds (wake_up s c) IsAwake
unfolding wake_up
wake_up-IsAwake s Consumer.testing = tt
wake_up-IsAwake s Consumer.waiting = tt
wake_up-IsAwake s (Consumer.working m) = tt
wake_up-IsAwake s Consumer.exited = tt

stop-Awake :
    (s : State) (c : Consumer)
    → Awake s c
    → Awake (record s { running = false; stopping = s.stopping + 1 }) c
stop-Awake s Consumer.testing h = tt
stop-Awake s Consumer.waiting h = (h.0, inr (omega arith))
stop-Awake s (Consumer.working m) h = tt
stop-Awake s Consumer.exited h = refl

pub step-IsAwake : (a : Action) (s : State) → IsAwake s → Holds (step a s) IsAwake
unfolding step
step-IsAwake (Action.enqueue_msg d) s h =
    signal-Awake (record s { workq = link_last s.workq d; consumer = signal s.consumer }) s.consumer
      (exited-cases s s.consumer h)
step-IsAwake Action.stop s h = stop-Awake s s.consumer h
step-IsAwake Action.process_msg s h = consume-IsAwake s s.consumer
step-IsAwake Action.signal_stop s h = elim (Bool-cases (ltb 0 s.stopping)) [
  | inl e ↦ rw e (
      signal-Awake (record s { stopping = s.stopping - 1; consumer = signal s.consumer }) s.consumer
        (exited-cases s s.consumer h))
  | inr e ↦ rw e tt
]
step-IsAwake Action.wake s h = wake_up-IsAwake s s.consumer

run-Holds : (actions : List Action) (s : State) → IsAwake s → Holds (run actions s) IsAwake
unfolding run
run-Holds [] s h = h
run-Holds (a ∷ actions) s h =
    Holds-bind (step a s) (run actions) _ _ (step-IsAwake a s h) (run-Holds actions)

-- No wake-up is lost: whenever the consumer waits, the queue is empty, and no stop was asked for or a
-- signal of `stop` is still to come; and it comes to its end only after a stop.
pub run-IsAwake :
    (actions : List Action) (s : State) → run actions start ≡ some s → Awake s s.consumer
run-IsAwake actions s e = rw e at (run-Holds actions start tt)
