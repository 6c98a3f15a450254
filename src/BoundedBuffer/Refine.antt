-- ===== src/BoundedBuffer/Refine.antt =====
-- The circular buffer of Homework2/level3.c is such a queue.
use ece.Prelude.{
  ◌∙◌, Holds-weaken, Holds, ℕ, zero, suc, List, [], ◌∷◌, ◌++◌, some, none, length, arith, refl, ◌≡◌,
  ap, ◌+◌, ◌-◌, ◌%◌, ◌<◌, ◌≤◌,
}
use ece.BoundedBuffer.{
  start, Option, taken, run, produce_put, produce_wait, produce_post, State, Producer, Action, step,
}
use ece.BoundedBuffer.Invariant.{start-Inv, step-Inv, Inv, InvAt, Slots, items}
use ece.BoundedBuffer.Queue.{accepts_all, Call, accepts}

-- The `k` numbers in the slots from `h` on, going round at the end of the buffer.
abbrev pub window : (ℕ → ℕ) → ℕ → ℕ → List ℕ
window buffer h zero = []
window buffer h (suc k) = buffer h ∷ window buffer ((h + 1) % 8) k

-- The queue that a state stands for: what has been put and not yet been taken.
abbrev pub contents : State → List ℕ
contents s = window s.buffer s.head (items s.producer - s.processed)

abbrev pub put_call : Producer → Call
put_call (Producer.holds i) = Call.puts i
put_call _ = Call.silent

-- What a step does to the queue: `buffer[tail] = i`, and `val = buffer[head]`.
abbrev pub call_of : Action → State → Call
call_of Action.put s = put_call s.producer
call_of Action.take s = Call.takes (s.buffer s.head)
call_of _ s = Call.silent

unfoldable pub calls : ℕ → List Action → State → List Call
calls n [] s = []
calls n (a ∷ actions) s =
    call_of a s ∷ elim (step n a s) [ none ↦ [] | some s' ↦ calls n actions s' ]

-- c + 1, ..., c + k
abbrev numbers : ℕ → ℕ → List ℕ
numbers c zero = []
numbers c (suc k) = (c + 1) ∷ numbers (c + 1) k

length-numbers : (c k : ℕ) → length (numbers c k) ≡ k
length-numbers c zero = refl
length-numbers c (suc k) = ap suc (length-numbers (c + 1) k)

numbers-last : (c k : ℕ) → numbers c k ++ (c + k + 1) ∷ [] ≡ numbers c (suc k)
numbers-last c zero = ap (λ v. v ∷ []) (omega arith)
numbers-last c (suc k) =
    let e : c + suc k + 1 ≡ c + 1 + k + 1 = omega arith in
    rw e (ap (λ q. (c + 1) ∷ q) (numbers-last (c + 1) k))

window-numbers :
    (buffer : ℕ → ℕ) (c p k : ℕ)
    → Slots buffer c p
    → c + k ≤ p
    → window buffer (c % 8) k ≡ numbers c k
window-numbers buffer c p zero h room = refl
window-numbers buffer c p (suc k) h room =
    let e : (c % 8 + 1) % 8 ≡ (c + 1) % 8 = omega arith in
    rw (e, h c (omega arith) (omega arith))
      (ap (λ q. (c + 1) ∷ q)
        (window-numbers buffer (c + 1) p k (λ j low high. h j (omega arith) high) (omega arith)))

accepts-puts :
    (c k v : ℕ)
    → v ≡ c + k + 1
    → k < 8
    → accepts (Call.puts v) (numbers c k) ≡ some (numbers c (suc k))
unfolding accepts
accepts-puts c k v e room = rw (length-numbers c k, e) (rw (numbers-last c k) (ground arith))

accepts-takes :
    (c k : ℕ) → 0 < k → accepts (Call.takes (c + 1)) (numbers c k) ≡ some (numbers (c + 1) (k - 1))
unfolding accepts
accepts-takes c zero h = absurd (omega arith)
accepts-takes c (suc k) h = let e : suc k - 1 ≡ k = omega arith in rw e (ground arith)

accepts-first :
    (c : Call) (cs : List Call) (q q' : List ℕ)
    → accepts c q ≡ some q'
    → accepts_all (c ∷ cs) q ≡ accepts_all cs q'
unfolding accepts_all
accepts-first c cs q q' e = rw (e, accepts_all) refl

module _ (n num_threads : ℕ) where
  contents-numbers :
      (s : State)
      → Inv n num_threads s
      → contents s ≡ numbers s.processed (items s.producer - s.processed)
  contents-numbers s h =
      rw h.at_head (window-numbers s.buffer s.processed (items s.producer) _ h.slots (omega arith))

  -- The queue after the step, by the numbers.
  abbrev Follows : Call → State → State → Type 0
  Follows c s s' =
      accepts c (numbers s.processed (items s.producer - s.processed))
      ≡ some (numbers s'.processed (items s'.producer - s'.processed))

  put-Follows :
      (s : State) (p : Producer)
      → s.producer ≡ p
      → InvAt n num_threads s p
      → Holds (produce_put s p) (Follows (put_call p) s)
  put-Follows s (Producer.wants i) e h = tt
  put-Follows s (Producer.holds i) e h =
      let k : i - s.processed ≡ suc (i - 1 - s.processed) = omega arith in
      rw (e, k) (accepts-puts s.processed (i - 1 - s.processed) i (omega arith) (omega arith))
  put-Follows s (Producer.filled i) e h = tt

  wait-Follows :
      (s : State) (p : Producer)
      → s.producer ≡ p
      → Holds (produce_wait n s p) (Follows Call.silent s)
  unfolding accepts
  wait-Follows s (Producer.wants i) e = ground (arith, e)
  wait-Follows s (Producer.holds i) e = tt
  wait-Follows s (Producer.filled i) e = tt

  post-Follows :
      (s : State) (p : Producer) → s.producer ≡ p → Holds (produce_post s p) (Follows Call.silent s)
  unfolding accepts
  post-Follows s (Producer.wants i) e = tt
  post-Follows s (Producer.holds i) e = tt
  post-Follows s (Producer.filled i) e = let k : i + 1 - 1 ≡ i = omega arith in rw (e, k) refl

  -- A consumer takes the oldest number.
  next_value : (s : State) → 0 < s.ready → Inv n num_threads s → s.buffer s.head ≡ s.processed + 1
  next_value s some_ready h = rw h.at_head (h.slots s.processed (omega arith) (omega arith))

  take-Follows :
      (s : State)
      → 0 < s.ready
      → Inv n num_threads s
      → Follows (Call.takes (s.buffer s.head)) s (taken s (s.buffer s.head))
  take-Follows s some_ready h =
      let k : items s.producer - (s.processed + 1) ≡ items s.producer - s.processed - 1 =
        omega arith in
      rw (next_value s some_ready h, k)
        (accepts-takes s.processed (items s.producer - s.processed) (omega arith))

  step-Follows :
      (a : Action) (s : State) → Inv n num_threads s → Holds (step n a s) (Follows (call_of a s) s)
  unfolding step accepts
  step-Follows Action.wait_space s h = wait-Follows s s.producer refl
  step-Follows Action.put s h = put-Follows s s.producer refl h
  step-Follows Action.post_items s h = post-Follows s s.producer refl
  step-Follows Action.wait_items s h = ground arith
  step-Follows Action.take s h = ground (arith, take-Follows s)
  step-Follows Action.post_space s h = ground arith

  -- A schedule from `s` on, against the queue that `s` stands for.
  abbrev Refines : List Action → State → Type 0
  Refines actions s =
      Holds (run n actions s)
        (λ s'. accepts_all (calls n actions s) (contents s) ≡ some (contents s'))

  -- The first step, and the rest of the schedule.
  then-Refines :
      (c : Call) (actions : List Action) (s : State) (o : Option State)
      → Inv n num_threads s
      → Holds o (Inv n num_threads)
      → Holds o (Follows c s)
      → ((s' : State) → Inv n num_threads s' → Refines actions s')
      → Holds
          (elim o [ none ↦ none | some s' ↦ run n actions s' ])
          (λ s'.
            accepts_all (c ∷ elim o [ none ↦ [] | some s' ↦ calls n actions s' ]) (contents s)
            ≡ some (contents s'))
  then-Refines c actions s none h g f next = tt
  then-Refines c actions s (some s') h g f next =
      Holds-weaken (run n actions s') _ _ (next s' g) (λ s'' e.
        accepts-first c (calls n actions s') (contents s) (contents s')
          (rw (contents-numbers s h, contents-numbers s' g) f)
        ∙ e)

  run-Refines : (actions : List Action) (s : State) → Inv n num_threads s → Refines actions s
  unfolding run calls accepts_all
  run-Refines [] s h = refl
  run-Refines (a ∷ actions) s h =
      then-Refines (call_of a s) actions s (step n a s) h (step-Inv n num_threads a s h)
        (step-Follows a s h) (run-Refines actions)

-- In whatever order the threads are scheduled, a bounded FIFO queue that starts empty allows what they
-- do to the circular buffer: no number is put when `buffer_size` are in it, each number taken is the
-- one that has been in it for longest, and the queue's content is that of the slots in use.
pub run-accepts :
    (n num_threads : ℕ) (actions : List Action) (s : State)
    → run n actions (start num_threads) ≡ some s
    → accepts_all (calls n actions (start num_threads)) [] ≡ some (contents s)
run-accepts n num_threads actions s e =
    rw e at (run-Refines n num_threads actions (start num_threads) (start-Inv n num_threads))
