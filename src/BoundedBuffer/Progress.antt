-- ===== src/BoundedBuffer/Progress.antt =====
-- The threads never block each other, and come to an end.
use native.Mathlib.Decide.{dec_lt}
use ece.Prelude.{
  Holds, Holds-bind, Holds_both, ◌≤◌, [], ◌∷◌, length, length, ◌≢◌, Option-cases, ◌-◌, ◌*◌, refl,
  ◌+◌, arith, ◌≡◌, ◌<◌, ℕ, ◌⊎◌, inl, inr, some, none,
}
use ece.BoundedBuffer.{
  ◌∷◌, produce_post, List, produce_wait, produce_put, Option, State, Producer, Action, step, run,
  start,
}
use ece.BoundedBuffer.Invariant.{start-Inv, step-Inv, Inv, InvAt, run-Inv}

-- Some thread can make a step.
abbrev pub CanStep : ℕ → State → Type 0
CanStep n s = (a : Action) × (s' : State) × (step n a s ≡ some s')

possible : (n : ℕ) (s : State) (a : Action) → step n a s ≢ none → CanStep n s
possible n s a h = elim (Option-cases (step n a s)) [
  | inl e ↦ absurd (h e)
  | inr (s', e) ↦ (a, s', e)
]

take_possible : (n : ℕ) (s : State) → 0 < s.ready → CanStep n s
unfolding step
take_possible n s h = possible n s Action.take (λ e. ground arith)

post_possible : (n : ℕ) (s : State) → 0 < s.leaving → CanStep n s
unfolding step
post_possible n s h = possible n s Action.post_space (λ e. ground arith)

wait_possible : (n : ℕ) (s : State) → 0 < s.available_items → 0 < s.idle → CanStep n s
unfolding step
wait_possible n s h g = possible n s Action.wait_items (λ e. ground arith)

-- With no consumer at work and nothing to be taken, the producer can go on, or all is done.
produce_possible :
    (n num_threads : ℕ) (s : State) (p : Producer)
    → InvAt n num_threads s p
    → s.producer ≡ p
    → s.ready ≡ 0
    → s.leaving ≡ 0
    → s.available_items ≡ 0
    → (s.processed ≡ n) ⊎ CanStep n s
unfolding step
produce_possible n num_threads s (Producer.wants i) h e r l a = elim (dec_lt n i) [
  | yes over ↦ inl (omega arith)
  | no more ↦
      let room : 0 < s.remaining_space = omega arith in
      inr (possible n s Action.wait_space (λ f. ground arith))
]
produce_possible n num_threads s (Producer.holds i) h e r l a =
    inr (possible n s Action.put (λ f. ground arith))
produce_possible n num_threads s (Producer.filled i) h e r l a =
    inr (possible n s Action.post_items (λ f. ground arith))

Inv-CanStep :
    (n num_threads : ℕ) (s : State)
    → 0 < num_threads
    → Inv n num_threads s
    → (s.processed ≡ n) ⊎ CanStep n s
Inv-CanStep n num_threads s some_thread h = elim (dec_lt 0 s.ready) [
  | yes r ↦ inr (take_possible n s r)
  | no r ↦ elim (dec_lt 0 s.leaving) [
    | yes l ↦ inr (post_possible n s l)
    | no l ↦ elim (dec_lt 0 s.available_items) [
      | yes a ↦ inr (wait_possible n s a (omega arith))
      | no a ↦
          produce_possible n num_threads s s.producer h refl (omega arith) (omega arith)
            (omega arith)
    ]
  ]
]

-- As long as not all numbers have been processed, some thread can make a step: whatever the schedule,
-- the semaphores never leave all threads blocked, if there is a consumer at all.
pub run-CanStep :
    (n num_threads : ℕ) (actions : List Action) (s : State)
    → 0 < num_threads
    → run n actions (start num_threads) ≡ some s
    → (s.processed ≡ n) ⊎ CanStep n s
run-CanStep n num_threads actions s some_thread e =
    Inv-CanStep n num_threads s some_thread (run-Inv n num_threads actions s e)

-- The steps that the producer has made.
abbrev made : Producer → ℕ
made (Producer.wants i) = 3 * (i - 1)
made (Producer.holds i) = 3 * (i - 1) + 1
made (Producer.filled i) = 3 * (i - 1) + 2

-- `k` steps have been made.
abbrev MadeAt : ℕ → State → Producer → Type 0
MadeAt k s p = k + s.leaving ≡ made p + 3 * s.processed + s.ready

module _ (n num_threads k : ℕ) where
  abbrev Counts : Option State → Type 0
  Counts o = Holds o (λ s. MadeAt (k + 1) s s.producer)

  produce_wait-Counts : (s : State) (p : Producer) → MadeAt k s p → Counts (produce_wait n s p)
  produce_wait-Counts s (Producer.wants i) h = ground arith
  produce_wait-Counts s (Producer.holds i) h = tt
  produce_wait-Counts s (Producer.filled i) h = tt

  produce_put-Counts : (s : State) (p : Producer) → MadeAt k s p → Counts (produce_put s p)
  produce_put-Counts s (Producer.wants i) h = tt
  produce_put-Counts s (Producer.holds i) h = ground arith
  produce_put-Counts s (Producer.filled i) h = tt

  produce_post-Counts :
      (s : State) (p : Producer)
      → InvAt n num_threads s p
      → MadeAt k s p
      → Counts (produce_post s p)
  produce_post-Counts s (Producer.wants i) g h = tt
  produce_post-Counts s (Producer.holds i) g h = tt
  produce_post-Counts s (Producer.filled i) g h = ground arith

  step-Counts :
      (a : Action) (s : State) → Inv n num_threads s → MadeAt k s s.producer → Counts (step n a s)
  unfolding step
  step-Counts Action.wait_space s g h = produce_wait-Counts s s.producer h
  step-Counts Action.put s g h = produce_put-Counts s s.producer h
  step-Counts Action.post_items s g h = produce_post-Counts s s.producer g h
  step-Counts Action.wait_items s g h = ground arith
  step-Counts Action.take s g h = ground arith
  step-Counts Action.post_space s g h = ground arith

-- After all steps of a run, the invariant holds and the steps are counted.
run-Counts :
    (n num_threads k total : ℕ) (actions : List Action) (s : State)
    → k + length actions ≡ total
    → Inv n num_threads s
    → MadeAt k s s.producer
    → Holds (run n actions s) (λ s'. Inv n num_threads s' × MadeAt total s' s'.producer)
unfolding run
run-Counts n num_threads k total [] s e h g = (h, omega arith)
run-Counts n num_threads k total (a ∷ actions) s e h g =
    Holds-bind (step n a s) (run n actions)
      (λ s'. Inv n num_threads s' × MadeAt (k + 1) s' s'.producer) _
      (Holds_both (step n a s) _ _ (step-Inv n num_threads a s h)
        (step-Counts n num_threads k a s h g))
      (λ s' p. run-Counts n num_threads (k + 1) total actions s' (omega arith) p.0 p.1)

made_bound :
    (n num_threads k : ℕ) (s : State) (p : Producer)
    → InvAt n num_threads s p
    → MadeAt k s p
    → k ≤ 6 * n
made_bound n num_threads k s (Producer.wants i) h g = omega arith
made_bound n num_threads k s (Producer.holds i) h g = omega arith
made_bound n num_threads k s (Producer.filled i) h g = omega arith

-- No schedule makes more than 6 n steps: three of the producer and three of a consumer for a number.
pub run-length :
    (n num_threads : ℕ) (actions : List Action) (s : State)
    → run n actions (start num_threads) ≡ some s
    → length actions ≤ 6 * n
run-length n num_threads actions s e =
    let h =
      run-Counts n num_threads 0 (length actions) actions (start num_threads) (omega arith)
        (start-Inv n num_threads) refl in
    let g : Inv n num_threads s × MadeAt (length actions) s s.producer = rw e at h in
    made_bound n num_threads (length actions) s s.producer g.0 g.1
