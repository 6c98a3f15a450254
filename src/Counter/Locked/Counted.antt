-- ===== src/Counter/Locked/Counted.antt =====
-- What the threads keep: nothing is lost, and the numbers are printed in order.
use ece.Prelude.{
  sym, Holds, Holds-bind, Holds-map, ℕ, zero, suc, ◌+◌, ◌≡◌, ◌≤◌, ◌<◌, refl, ap, arith, List, [],
  ◌∷◌, ◌++◌, if◌then◌else◌,
}
use ece.Counter.Locked.{
  some, Thread, View, turn, Who, State, view, with_a, with_b, step, run, start, nloop,
}

-- 1, 2, ..., n
unfoldable pub up_to : ℕ → List ℕ
up_to zero = []
up_to (suc n) = up_to n ++ (n + 1) ∷ []

up_to-next : (n : ℕ) → up_to (n + 1) ≡ up_to n ++ (n + 1) ∷ []
unfolding up_to
up_to-next n =
    let e : n + 1 ≡ suc n = omega arith in rw e (ap (λ m. up_to n ++ m ∷ []) (omega arith))

-- How often a thread has written and printed, and whether it holds the mutex.
abbrev pub writes : Thread → ℕ
writes (Thread.at_test i) = i
writes (Thread.locked i) = i
writes (Thread.loaded i val) = i
writes (Thread.printed i val) = i
writes (Thread.stored i) = i + 1

abbrev pub ahead : Thread → ℕ
ahead (Thread.printed i val) = 1
ahead _ = 0

abbrev pub holds : Thread → ℕ
holds (Thread.at_test i) = 0
holds _ = 1

abbrev pub InLoop : Thread → ℕ → Type 0
InLoop (Thread.at_test i) counter = i ≤ nloop
InLoop (Thread.locked i) counter = i < nloop
InLoop (Thread.loaded i val) counter = (i < nloop) × (val ≡ counter)
InLoop (Thread.printed i val) counter = (i < nloop) × (val ≡ counter)
InLoop (Thread.stored i) counter = i < nloop

-- The invariant, as the thread `t` sees it.
pub record Inv (t t' : Thread) (v : View) : Type 0 where
  pub mutex : holds t + holds t' ≡ (if v.held then 1 else 0)
  pub in_loop : InLoop t v.counter
  pub in_loop' : InLoop t' v.counter
  pub counted : v.counter ≡ writes t + writes t'
  pub in_order : v.stdout ≡ up_to (v.counter + (ahead t + ahead t'))

turn-Inv : (t t' : Thread) (v : View) → Inv t t' v → Holds (turn t v) (λ u. Inv u.thread t' u)
unfolding turn
turn-Inv (Thread.at_test i) t' v h = ground arith
turn-Inv (Thread.locked i) t' v h = ground arith
turn-Inv (Thread.loaded i val) (Thread.at_test j) v h = record {
  mutex = h.mutex;
  in_loop = h.in_loop;
  in_loop' = h.in_loop';
  counted = h.counted;
  in_order =
      let e : v.counter + 0 ≡ v.counter = omega arith in
      rw (h.in_order, h.in_loop.1, e) (sym (up_to-next v.counter));
}
turn-Inv (Thread.loaded i val) t' v h = absurd (ground arith)
turn-Inv (Thread.printed i val) (Thread.at_test j) v h = record {
  mutex = h.mutex;
  in_loop = omega arith;
  in_loop' = h.in_loop';
  counted = omega (arith, h.counted);
  in_order = let e : val + 1 + 0 ≡ v.counter + 1 = omega (arith, h.in_loop.1) in rw e h.in_order;
}
turn-Inv (Thread.printed i val) t' v h = absurd (ground arith)
turn-Inv (Thread.stored i) (Thread.at_test j) v h = ground arith
turn-Inv (Thread.stored i) t' v h = absurd (ground arith)

-- The same, as the other thread sees it.
Inv-swap :
    (t t' : Thread) (v u : View)
    → v.held ≡ u.held
    → v.counter ≡ u.counter
    → v.stdout ≡ u.stdout
    → Inv t t' v
    → Inv t' t u
Inv-swap t t' v u e f g h =
    let k : ahead t' + ahead t ≡ ahead t + ahead t' = omega arith in
    record {
      mutex = rw⁻¹ e (omega (arith, h.mutex));
      in_loop = rw⁻¹ f h.in_loop';
      in_loop' = rw⁻¹ f h.in_loop;
      counted = omega (arith, h.counted, f);
      in_order = rw (k) (rw⁻¹ (f, g) h.in_order);
    }

abbrev pub StateInv : State → Type 0
StateInv s = Inv s.thread_a s.thread_b (view s s.thread_a)

step-Inv : (w : Who) (s : State) → StateInv s → Holds (step w s) StateInv
unfolding step
step-Inv Who.a s h =
    Holds-map (turn s.thread_a (view s s.thread_a)) (with_a s) _ _
      (turn-Inv s.thread_a s.thread_b (view s s.thread_a) h)
      (λ v g.
        Inv-swap s.thread_b v.thread v _ refl refl refl
          (Inv-swap v.thread s.thread_b v v refl refl refl g))
step-Inv Who.b s h =
    Holds-map (turn s.thread_b (view s s.thread_b)) (with_b s) _ _
      (turn-Inv s.thread_b s.thread_a (view s s.thread_b)
        (Inv-swap s.thread_a s.thread_b (view s s.thread_a) (view s s.thread_b) refl refl refl h))
      (λ v g. Inv-swap v.thread s.thread_a v _ refl refl refl g)

run-Keeps : (schedule : List Who) (s : State) → StateInv s → Holds (run schedule s) StateInv
unfolding run
run-Keeps [] s h = h
run-Keeps (w ∷ schedule) s h =
    Holds-bind (step w s) (run schedule) _ _ (step-Inv w s h) (run-Keeps schedule)

start-Inv : StateInv start
unfolding up_to
start-Inv = record {
  mutex = refl;
  in_loop = omega arith;
  in_loop' = omega arith;
  counted = refl;
  in_order = refl;
}

pub run-StateInv : (schedule : List Who) (s : State) → run schedule start ≡ some s → StateInv s
run-StateInv schedule s e = rw e at (run-Keeps schedule start start-Inv)
