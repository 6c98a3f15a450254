-- ===== src/BoundedBuffer/Invariant.antt =====
-- What holds in every state that the threads can reach.
use native.Mathlib.Decide.{dec_lt}
use ece.Prelude.{
  Holds, Holds-bind, [], refl, ◌*◌, ◌∙◌, ◌+◌, arith, ◌%◌, ◌-◌, ◌≤◌, ◌<◌, ℕ, zero, suc, Option, some,
  ◌≢◌, ◌≡◌,
}
use ece.BoundedBuffer.{
  ◌∷◌, List, taken, produce_post, produce_put, produce_wait, State, Producer, Action, step, run,
  start, set_slot,
}

-- The sum of the squares of 1 .. c.
unfoldable pub squares : ℕ → ℕ
squares zero = 0
squares (suc c) = squares c + suc c * suc c

-- How many numbers were put into the buffer, and how many of the semaphores' counts the producer has
-- taken and not yet given.
abbrev pub items : Producer → ℕ
items (Producer.wants i) = i - 1
items (Producer.holds i) = i - 1
items (Producer.filled i) = i

abbrev pub holding : Producer → ℕ
holding (Producer.holds i) = 1
holding _ = 0

abbrev pub posting : Producer → ℕ
posting (Producer.filled i) = 1
posting _ = 0

-- The producer's round is one of 1 .. n, or it has left the loop.
abbrev pub InLoop : ℕ → Producer → Type 0
InLoop n (Producer.wants i) = (1 ≤ i) × (i ≤ n + 1)
InLoop n (Producer.holds i) = (1 ≤ i) × (i ≤ n)
InLoop n (Producer.filled i) = (1 ≤ i) × (i ≤ n)

-- The slots between `head` and `tail` hold the numbers put and not yet taken, in order.
abbrev pub Slots : (ℕ → ℕ) → ℕ → ℕ → Type 0
Slots buffer c p = (j : ℕ) → c ≤ j → j < p → buffer (j % 8) ≡ j + 1

-- `p` is where the producer stands.
pub record InvAt (n num_threads : ℕ) (s : State) (p : Producer) : Type 0 where
  pub in_loop : InLoop n p
  pub at_tail : s.tail ≡ items p % 8
  pub at_head : s.head ≡ s.processed % 8
  pub slots : Slots s.buffer s.processed (items p)
  pub sum : s.total_sum ≡ squares s.processed
  pub posted : s.available_items + s.ready + posting p + s.processed ≡ items p
  pub room : s.remaining_space + holding p + s.leaving + items p ≡ 8 + s.processed
  pub threads : s.idle + s.ready + s.leaving ≡ num_threads

abbrev pub Inv : ℕ → ℕ → State → Type 0
Inv n num_threads s = InvAt n num_threads s s.producer

set_slot-same : (buffer : ℕ → ℕ) (k v : ℕ) → set_slot buffer k v k ≡ v
unfolding set_slot
set_slot-same buffer k v = ground arith

set_slot-other : (buffer : ℕ → ℕ) (k v j : ℕ) → j ≢ k → set_slot buffer k v j ≡ buffer j
unfolding set_slot
set_slot-other buffer k v j h = ground arith

-- Putting the next number keeps the others, as long as the buffer is not full.
Slots-put :
    (buffer : ℕ → ℕ) (c i : ℕ)
    → Slots buffer c (i - 1)
    → 1 ≤ i
    → i ≤ c + 8
    → Slots (set_slot buffer ((i - 1) % 8) i) c i
Slots-put buffer c i h positive room j low high = elim (dec_lt j (i - 1)) [
  | yes lt ↦ set_slot-other buffer ((i - 1) % 8) i (j % 8) (λ e. omega arith) ∙ h j low lt
  | no ge ↦
      let e : i ≡ j + 1 = omega arith in
      let k : (i - 1) % 8 ≡ j % 8 = omega arith in rw k (set_slot-same buffer (j % 8) i ∙ e)
]

Slots-take : (buffer : ℕ → ℕ) (c p : ℕ) → Slots buffer c p → Slots buffer (c + 1) p
Slots-take buffer c p h j low high = h j (omega arith) high

pub squares-next : (c : ℕ) → squares c + (c + 1) * (c + 1) ≡ squares (c + 1)
unfolding squares
squares-next c = let e : c + 1 ≡ suc c = omega arith in rw e

module _ (n num_threads : ℕ) where
  abbrev Keeps : Option State → Type 0
  Keeps o = Holds o (Inv n num_threads)

  produce_wait-Inv :
      (s : State) (p : Producer) → InvAt n num_threads s p → Keeps (produce_wait n s p)
  produce_wait-Inv s (Producer.wants i) h = ground arith
  produce_wait-Inv s (Producer.holds i) h = tt
  produce_wait-Inv s (Producer.filled i) h = tt

  produce_post-Inv : (s : State) (p : Producer) → InvAt n num_threads s p → Keeps (produce_post s p)
  produce_post-Inv s (Producer.wants i) h = tt
  produce_post-Inv s (Producer.holds i) h = tt
  produce_post-Inv s (Producer.filled i) h = ground arith

  produce_put-Inv : (s : State) (p : Producer) → InvAt n num_threads s p → Keeps (produce_put s p)
  produce_put-Inv s (Producer.wants i) h = tt
  produce_put-Inv s (Producer.holds i) h = record {
    in_loop = h.in_loop;
    at_tail = omega arith;
    at_head = h.at_head;
    slots = rw h.at_tail (Slots-put s.buffer s.processed i h.slots (omega arith) (omega arith));
    sum = h.sum;
    posted = omega arith;
    room = omega arith;
    threads = h.threads;
  }
  produce_put-Inv s (Producer.filled i) h = tt

  take-Inv :
      (s : State)
      → 0 < s.ready
      → Inv n num_threads s
      → Inv n num_threads (taken s (s.buffer s.head))
  take-Inv s some_ready h = record {
    in_loop = h.in_loop;
    at_tail = h.at_tail;
    at_head = omega arith;
    slots = Slots-take s.buffer s.processed (items s.producer) h.slots;
    sum = rw (next_value, h.sum) (squares-next s.processed);
    posted = omega arith;
    room = omega arith;
    threads = omega arith;
  }
    where
      next_value : s.buffer s.head ≡ s.processed + 1
      next_value = rw h.at_head (h.slots s.processed (omega arith) (omega arith))

  pub step-Inv : (a : Action) (s : State) → Inv n num_threads s → Keeps (step n a s)
  unfolding step
  step-Inv Action.wait_space s h = produce_wait-Inv s s.producer h
  step-Inv Action.put s h = produce_put-Inv s s.producer h
  step-Inv Action.post_items s h = produce_post-Inv s s.producer h
  step-Inv Action.wait_items s h = ground arith
  step-Inv Action.take s h = ground (arith, take-Inv s)
  step-Inv Action.post_space s h = ground arith

  run-Keeps : (actions : List Action) (s : State) → Inv n num_threads s → Keeps (run n actions s)
  unfolding run
  run-Keeps [] s h = h
  run-Keeps (a ∷ actions) s h =
      Holds-bind (step n a s) (run n actions) _ _ (step-Inv a s h) (run-Keeps actions)

  pub start-Inv : Inv n num_threads (start num_threads)
  unfolding squares
  start-Inv = record {
    in_loop = omega arith;
    at_tail = refl;
    at_head = refl;
    slots = λ j low high. omega arith;
    sum = refl;
    posted = refl;
    room = refl;
    threads = omega arith;
  }

-- In whatever order the threads are scheduled, the invariant holds.
pub run-Inv :
    (n num_threads : ℕ) (actions : List Action) (s : State)
    → run n actions (start num_threads) ≡ some s
    → Inv n num_threads s
run-Inv n num_threads actions s e =
    rw e at (run-Keeps n num_threads actions (start num_threads) (start-Inv n num_threads))
