-- ===== src/Counter/Unlocked/Range.antt =====
-- The counter at the end is one of 2 .. 1000.
use ece.Prelude.{◌*◌, [], Holds-bind, inl, ◌≡◌, Holds-map, inr, Holds, ℕ, ◌+◌, ◌≤◌, ◌<◌, ◌⊎◌, arith}
use ece.Counter.Unlocked.{
  with_b, joined, with_a, some, view, ◌∷◌, Who, State, List, step, start, run, Thread, View, turn,
  nloop,
}

-- The rounds that a thread has made, and the value that it goes on from.
abbrev rounds : Thread → ℕ
rounds (Thread.at_test i) = i
rounds (Thread.loaded i val) = i
rounds (Thread.printed i val) = i

abbrev base : Thread → ℕ → ℕ
base (Thread.at_test i) counter = counter
base (Thread.loaded i val) counter = val
base (Thread.printed i val) counter = val

-- In a round, or with rounds left or none.
abbrev InLoop : Thread → Type 0
InLoop (Thread.at_test i) = i ≤ nloop
InLoop (Thread.loaded i val) = i < nloop
InLoop (Thread.printed i val) = i < nloop

-- The invariant, as the thread `t` sees it.
record Inv (t t' : Thread) (counter : ℕ) : Type 0 where
  in_loop : InLoop t
  in_loop' : InLoop t'
  most : counter ≤ rounds t + rounds t'
  base_most : base t counter ≤ rounds t + rounds t'
  base_most' : base t' counter ≤ rounds t + rounds t'
  least : 1 ≤ rounds t + rounds t' → 1 ≤ counter
  base_least : 1 ≤ rounds t → 1 ≤ base t counter
  base_least' : 1 ≤ rounds t' → 1 ≤ base t' counter
  -- 2 is reached, or a thread has written at most once
  two : (2 ≤ counter) ⊎ ((rounds t ≤ 1) ⊎ (rounds t' ≤ 1))

turn-Inv :
    (t t' : Thread) (v : View)
    → Inv t t' v.counter
    → Holds (turn t v) (λ u. Inv u.thread t' u.counter)
unfolding turn
turn-Inv (Thread.at_test i) t' v h = ground arith
turn-Inv (Thread.loaded i val) t' v h = ground arith
turn-Inv (Thread.printed i val) (Thread.at_test j) v h = ground arith
turn-Inv (Thread.printed i val) (Thread.loaded j w) v h = ground arith
turn-Inv (Thread.printed i val) (Thread.printed j w) v h = ground arith

-- The same, as the other thread sees it.
Inv-swap : (t t' : Thread) (counter : ℕ) → Inv t t' counter → Inv t' t counter
Inv-swap t t' counter h = record {
  in_loop = h.in_loop';
  in_loop' = h.in_loop;
  most = omega (arith, h.most);
  base_most = omega (arith, h.base_most');
  base_most' = omega (arith, h.base_most);
  least = λ e. h.least (omega arith);
  base_least = h.base_least';
  base_least' = h.base_least;
  two = elim h.two [ inl e ↦ inl e | inr (inl e) ↦ inr (inr e) | inr (inr e) ↦ inr (inl e) ];
}

abbrev StateInv : State → Type 0
StateInv s = Inv s.thread_a s.thread_b s.counter

step-Inv : (w : Who) (s : State) → StateInv s → Holds (step w s) StateInv
unfolding step
step-Inv Who.a s h =
    Holds-map (turn s.thread_a (view s s.thread_a)) (with_a s) _ _
      (turn-Inv s.thread_a s.thread_b (view s s.thread_a) h) (λ v g. g)
step-Inv Who.b s h =
    Holds-map (turn s.thread_b (view s s.thread_b)) (with_b s) _ _
      (turn-Inv s.thread_b s.thread_a (view s s.thread_b)
        (Inv-swap s.thread_a s.thread_b s.counter h))
      (λ v g. Inv-swap v.thread s.thread_a v.counter g)

run-Keeps : (schedule : List Who) (s : State) → StateInv s → Holds (run schedule s) StateInv
unfolding run
run-Keeps [] s h = h
run-Keeps (w ∷ schedule) s h =
    Holds-bind (step w s) (run schedule) _ _ (step-Inv w s h) (run-Keeps schedule)

start-Inv : StateInv start
start-Inv = record {
  in_loop = omega arith;
  in_loop' = omega arith;
  most = omega arith;
  base_most = omega arith;
  base_most' = omega arith;
  least = λ e. e;
  base_least = λ e. e;
  base_least' = λ e. e;
  two = inr (inl (omega arith));
}

pub joined-bounds :
    (schedule : List Who) (counter : ℕ) (stdout : List ℕ)
    → run schedule start ≡ some (joined counter stdout)
    → (2 ≤ counter) × (counter ≤ 2 * nloop)
joined-bounds schedule counter stdout e =
    let h : StateInv (joined counter stdout) = rw e at (run-Keeps schedule start start-Inv) in
    (ground (arith, h.two), omega (arith, h.most))
