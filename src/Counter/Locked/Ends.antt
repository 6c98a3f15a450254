-- ===== src/Counter/Locked/Ends.antt =====
-- The threads never block each other, and what is there when they have ended.
use ece.Prelude.{
  map-none, ℕ, ◌+◌, ◌*◌, ◌≡◌, ◌≢◌, ◌⊎◌, inl, inr, refl, arith, Bool-cases, true, false, some, none,
  List,
}
use ece.Counter.Locked.{
  Thread, View, turn, Who, State, view, with_a, with_b, step, run, start, is_over, nloop,
}
use ece.Counter.Locked.Counted.{up_to, StateInv, run-StateInv, holds, InLoop, writes, ahead}

abbrev pub CanStep : State → Type 0
CanStep s = (w : Who) × (step w s ≢ none)

a_possible : (s : State) → turn s.thread_a (view s s.thread_a) ≢ none → CanStep s
unfolding step
a_possible s h = (Who.a, λ e. h (map-none (with_a s) (turn s.thread_a (view s s.thread_a)) e))

b_possible : (s : State) → turn s.thread_b (view s s.thread_b) ≢ none → CanStep s
unfolding step
b_possible s h = (Who.b, λ e. h (map-none (with_b s) (turn s.thread_b (view s s.thread_b)) e))

-- The thread that holds the mutex can go on; so can a thread with rounds left, if none holds it.
turn_possible :
    (t : Thread) (v : View)
    → (holds t ≡ 1) ⊎ ((v.held ≡ false) × (is_over t ≡ false))
    → turn t v ≢ none
unfolding turn
turn_possible (Thread.at_test i) v h e = ground arith
turn_possible (Thread.locked i) v h e = ground arith
turn_possible (Thread.loaded i val) v h e = ground arith
turn_possible (Thread.printed i val) v h e = ground arith
turn_possible (Thread.stored i) v h e = ground arith

-- Inside the mutex, in front of it, or at the end.
Thread-cases :
    (t : Thread) → (holds t ≡ 1) ⊎ ((holds t ≡ 0) × ((is_over t ≡ false) ⊎ (is_over t ≡ true)))
Thread-cases (Thread.at_test i) = inr (refl, ground arith)
Thread-cases (Thread.locked i) = inl refl
Thread-cases (Thread.loaded i val) = inl refl
Thread-cases (Thread.printed i val) = inl refl
Thread-cases (Thread.stored i) = inl refl

idle_free : (s : State) → StateInv s → holds s.thread_a ≡ 0 → holds s.thread_b ≡ 0 → s.held ≡ false
idle_free s h e f = elim (Bool-cases s.held) [
  | inl g ↦
      absurd (let m : holds s.thread_a + holds s.thread_b ≡ 1 = rw g at h.mutex in omega (arith, m))
  | inr g ↦ g
]

CanStep-cases :
    (s : State)
    → StateInv s
    → CanStep s ⊎ ((is_over s.thread_a ≡ true) × (is_over s.thread_b ≡ true))
CanStep-cases s h = elim (Thread-cases s.thread_a) [
  | inl busy ↦ inl (a_possible s (turn_possible s.thread_a _ (inl busy)))
  | inr (idle, left) ↦ elim (Thread-cases s.thread_b) [
    | inl busy ↦ inl (b_possible s (turn_possible s.thread_b _ (inl busy)))
    | inr (idle', left') ↦
        let free = idle_free s h idle idle' in
        elim left [
          | inl more ↦ inl (a_possible s (turn_possible s.thread_a _ (inr (free, more))))
          | inr over ↦ elim left' [
            | inl more ↦ inl (b_possible s (turn_possible s.thread_b _ (inr (free, more))))
            | inr over' ↦ inr (over, over')
          ]
        ]
  ]
]

over_writes :
    (t : Thread) (counter : ℕ)
    → InLoop t counter
    → is_over t ≡ true
    → (writes t ≡ nloop) × (ahead t ≡ 0)
over_writes (Thread.at_test i) counter h e = ground arith
over_writes (Thread.locked i) counter h e = ground arith
over_writes (Thread.loaded i val) counter h e = ground arith
over_writes (Thread.printed i val) counter h e = ground arith
over_writes (Thread.stored i) counter h e = ground arith

-- With the mutex, at every point of every schedule: either a thread can make a step, or both have ended,
-- and then the counter is 1000 and the numbers 1 .. 1000 have been printed in this order.
pub run-up_to :
    (schedule : List Who) (s : State)
    → run schedule start ≡ some s
    → CanStep s ⊎ ((s.counter ≡ 2 * nloop) × (s.stdout ≡ up_to (2 * nloop)))
run-up_to schedule s e =
    let h = run-StateInv schedule s e in
    elim (CanStep-cases s h) [
      | inl more ↦ inl more
      | inr (over, over') ↦
          let w = over_writes s.thread_a s.counter h.in_loop over in
          let w' = over_writes s.thread_b s.counter h.in_loop' over' in
          let all : s.counter ≡ 2 * nloop = omega (arith, h.counted, w.0, w'.0) in
          let printed_all : s.counter + (ahead s.thread_a + ahead s.thread_b) ≡ 2 * nloop =
            omega (arith, all, w.1, w'.1) in
          inr (all, rw printed_all at h.in_order)
    ]
