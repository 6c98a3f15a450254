-- ===== src/Counter/Unlocked/Reach.antt =====
-- Each of the numbers 2 .. 1000 can be the counter at the end.
use ece.Prelude.{
  ◌↔◌, ◌-◌, ◌*◌, [], [], [], [], ℕ, zero, suc, ◌+◌, ◌≡◌, ◌≤◌, ◌<◌, ◌∙◌, refl, arith, some, List, [],
  ◌∷◌, ◌++◌,
}
use native.Mathlib.Decide.{dec_lt}
use ece.Counter.Unlocked.Range.{joined-bounds}
use ece.Counter.Unlocked.{joined, start, Thread, turn, Who, State, step, run, nloop}

abbrev state : ℕ → List ℕ → Thread → Thread → State
state c out t u = record { counter = c; stdout = out; thread_a = t; thread_b = u }

-- From `s` the threads can get there, whatever is printed.
abbrev Leads : State → ℕ → Thread → Thread → Type 0
Leads s c t u = (schedule : List Who) × (out : List ℕ) × (run schedule s ≡ some (state c out t u))

-- The steps behind a first one.
run-first :
    (w : Who) (schedule : List Who) (s s' : State)
    → step w s ≡ some s'
    → run (w ∷ schedule) s ≡ run schedule s'
unfolding run
run-first w schedule s s' e = rw (e, run) refl

Leads-first :
    (w : Who) (s s' : State) (c : ℕ) (t u : Thread)
    → step w s ≡ some s'
    → Leads s' c t u
    → Leads s c t u
Leads-first w s s' c t u e (schedule, out, f) = (w ∷ schedule, out, run-first w schedule s s' e ∙ f)

-- A thread with a round still to make reads, prints, and writes.
module _ (c i : ℕ) (out : List ℕ) (other : Thread) (left : i < nloop) where
  a_loads :
      step Who.a (state c out (Thread.at_test i) other)
      ≡ some (state c out (Thread.loaded i c) other)
  unfolding step turn
  a_loads = ground arith

  b_loads :
      step Who.b (state c out other (Thread.at_test i))
      ≡ some (state c out other (Thread.loaded i c))
  unfolding step turn
  b_loads = ground arith

module _ (c i val : ℕ) (out : List ℕ) (other : Thread) where
  a_stores :
      (d : ℕ) (t u : Thread)
      → Leads (state (val + 1) (out ++ (val + 1) ∷ []) (Thread.at_test (i + 1)) other) d t u
      → Leads (state c out (Thread.loaded i val) other) d t u
  unfolding step turn
  a_stores d t u h =
      Leads-first Who.a _ (state c (out ++ (val + 1) ∷ []) (Thread.printed i val) other) d t u refl
        (Leads-first Who.a _ _ d t u refl h)

  b_stores :
      (d : ℕ) (t u : Thread)
      → Leads (state (val + 1) (out ++ (val + 1) ∷ []) other (Thread.at_test (i + 1))) d t u
      → Leads (state c out other (Thread.loaded i val)) d t u
  unfolding step turn
  b_stores d t u h =
      Leads-first Who.b _ (state c (out ++ (val + 1) ∷ []) other (Thread.printed i val)) d t u refl
        (Leads-first Who.b _ _ d t u refl h)

-- A thread makes `k` rounds while the other stands still.
a_rounds :
    (k c i : ℕ) (out : List ℕ) (other : Thread) (d : ℕ) (t u : Thread)
    → i + k ≤ nloop
    → ((out' : List ℕ) → Leads (state (c + k) out' (Thread.at_test (i + k)) other) d t u)
    → Leads (state c out (Thread.at_test i) other) d t u
a_rounds zero c i out other d t u room h =
    let e : c + 0 ≡ c = omega arith in let f : i + 0 ≡ i = omega arith in rw (e, f) at (h out)
a_rounds (suc k) c i out other d t u room h =
    let e : c + suc k ≡ c + 1 + k = omega arith in
    let f : i + suc k ≡ i + 1 + k = omega arith in
    Leads-first Who.a _ _ d t u (a_loads c i out other (omega arith)) (
      a_stores c i c out other d t u (
        a_rounds k (c + 1) (i + 1) (out ++ (c + 1) ∷ []) other d t u (omega arith)
          (rw (e, f) at h)))

b_rounds :
    (k c i : ℕ) (out : List ℕ) (other : Thread) (d : ℕ) (t u : Thread)
    → i + k ≤ nloop
    → ((out' : List ℕ) → Leads (state (c + k) out' other (Thread.at_test (i + k))) d t u)
    → Leads (state c out other (Thread.at_test i)) d t u
b_rounds zero c i out other d t u room h =
    let e : c + 0 ≡ c = omega arith in let f : i + 0 ≡ i = omega arith in rw (e, f) at (h out)
b_rounds (suc k) c i out other d t u room h =
    let e : c + suc k ≡ c + 1 + k = omega arith in
    let f : i + suc k ≡ i + 1 + k = omega arith in
    Leads-first Who.b _ _ d t u (b_loads c i out other (omega arith)) (
      b_stores c i c out other d t u (
        b_rounds k (c + 1) (i + 1) (out ++ (c + 1) ∷ []) other d t u (omega arith)
          (rw (e, f) at h)))

-- Both threads have made all rounds.
arrived :
    (c d x y : ℕ) (out : List ℕ)
    → c ≡ d
    → x ≡ nloop
    → y ≡ nloop
    → Leads
        (state c out (Thread.at_test x) (Thread.at_test y))
        d
        (Thread.at_test nloop)
        (Thread.at_test nloop)
unfolding run
arrived c d x y out e f g = rw (e, f, g) ([], out, refl)

-- The second thread makes `j` rounds, the first reads, the second makes all rounds but one, the first
-- writes and makes `m` more rounds, the second reads, the first makes its last rounds, the second writes.
start-Leads :
    (j m v : ℕ)
    → j < nloop
    → m < nloop
    → v ≡ j + m + 2
    → Leads start v (Thread.at_test nloop) (Thread.at_test nloop)
start-Leads j m v hj hm e =
    let t = Thread.at_test nloop in
    b_rounds j 0 0 [] (Thread.at_test 0) v t t (omega arith) λ out1.
      Leads-first Who.a _ _ v t t (a_loads (0 + j) 0 out1 (Thread.at_test (0 + j)) (omega arith)) (
        b_rounds (nloop - 1 - j) (0 + j) (0 + j) out1 (Thread.loaded 0 (0 + j)) v t t (omega arith)
          λ out2. a_stores _ 0 (0 + j) out2 _ v t t (
            a_rounds m (0 + j + 1) (0 + 1) _ _ v t t (omega arith) λ out3.
              Leads-first Who.b _ _ v t t
                (b_loads (0 + j + 1 + m) (0 + j + (nloop - 1 - j)) out3 _ (omega arith))
                (a_rounds (nloop - 1 - m) (0 + j + 1 + m) (0 + 1 + m) out3 _ v t t (omega arith)
                  λ out4.
                    b_stores _ _ (0 + j + 1 + m) out4 _ v t t
                      (arrived _ v _ _ _ (omega arith) (omega arith) (omega arith)))))

reached :
    (v : ℕ)
    → (2 ≤ v) × (v ≤ 2 * nloop)
    → Leads start v (Thread.at_test nloop) (Thread.at_test nloop)
reached v (low, high) = elim (dec_lt (v - 2) nloop) [
  | yes small ↦ start-Leads (v - 2) 0 v small (omega arith) (omega arith)
  | no large ↦
      start-Leads (nloop - 1) (v - 2 - (nloop - 1)) v (omega arith) (omega arith) (omega arith)
]

-- Without the mutex, the counter with which both threads can have ended is any of 2 .. 1000, and no
-- other number.
pub joined-range :
    (v : ℕ)
    → ((schedule : List Who) × (out : List ℕ) × (run schedule start ≡ some (joined v out)))
      ↔ ((2 ≤ v) × (v ≤ 2 * nloop))
joined-range v = ((λ (schedule, out, e). joined-bounds schedule v out e), reached v)
