-- ===== src/ThreadSums/Total.antt =====
-- The sum under every schedule.
use native.Mathlib.Nat.{mul-div_cancel_left}
use native.Mathlib.Decide.{dec_lt}
use ece.Prelude.{
  map-none, ◌^◌, Bytes, inl, inr, ◌⊎◌, ap, refl, Option-cases, ◌≢◌, false, ◌/◌, ◌⊎◌, ◌<◌, true,
  refl, arith, ◌*◌, ◌≡◌, ◌≤◌, ◌-◌, ℕ, suc, zero, [], ◌∷◌, ◌++◌, ◌+◌, Holds, Holds-bind, Holds-map,
  List, some, none,
}
use ece.CString.{atoi}
use ece.PartialSums.Total.{accepted_bounds, bound_mono}
use ece.BoundedBuffer.Invariant.{squares, squares-next}
use ece.BoundedBuffer.Result.{squares-closed, squares_small}
use ece.ThreadSums.{Thread, keep, State, advance, step, run, bounds, start, setup, joined, printed}

-- The sum of the squares of a number of values from `i` on.
unfoldable squares_from : ℕ → ℕ → ℕ
squares_from zero i = 0
squares_from (suc rounds) i = i * i + squares_from rounds (i + 1)

-- What the threads have still to add.
unfoldable pending : List Thread → ℕ
pending [] = 0
pending ((i, to) ∷ ts) = squares_from (to + 1 - i) i + pending ts

squares_from-next :
    (i to : ℕ)
    → i ≤ to
    → squares_from (to + 1 - i) i ≡ i * i + squares_from (to + 1 - (i + 1)) (i + 1)
unfolding squares_from
squares_from-next i to h = let e : to + 1 - i ≡ suc (to + 1 - (i + 1)) = omega arith in rw e refl

squares_from-closed :
    (rounds a : ℕ) → squares a + squares_from rounds (a + 1) ≡ squares (a + rounds)
unfolding squares_from
squares_from-closed zero a = let e : a + 0 ≡ a = omega arith in rw e (omega arith)
squares_from-closed (suc rounds) a =
    let e : a + suc rounds ≡ a + 1 + rounds = omega arith in
    rw e (omega (arith, squares_from-closed rounds (a + 1), squares-next a))

advance-pending :
    (k : ℕ) (ts : List Thread) → Holds (advance k ts) (λ p. pending ts ≡ p.0 * p.0 + pending p.1)
unfolding advance pending
advance-pending k [] = tt
advance-pending zero ((i, to) ∷ ts) = ground (arith, squares_from-next i to)
advance-pending (suc k) ((i, to) ∷ ts) =
    Holds-map (advance k ts) _ _ _ (advance-pending k ts) (λ p e. omega (arith, e))

pending-append : (ts us : List Thread) → pending (ts ++ us) ≡ pending ts + pending us
unfolding pending
pending-append [] us = omega arith
pending-append ((i, to) ∷ ts) us = omega (arith, pending-append ts us)

bounds-pending : (n p i : ℕ) → 0 < p → squares 0 + pending (bounds n p i) ≡ squares (i * n / p)
unfolding bounds pending
bounds-pending n p zero h = let e : 0 * n / p ≡ 0 = grind arith in rw e (omega arith)
bounds-pending n p (suc i) h =
    let low = i * n / p in
    let high = (i + 1) * n / p in
    let mono : low ≤ high = bound_mono n p i h in
    let rounds : high + 1 - (low + 1) ≡ high - low = omega arith in
    let end : low + (high - low) ≡ high = omega arith in
    let e : suc i ≡ i + 1 = omega arith in
    rw (e, pending-append (bounds n p i) ((low + 1, high) ∷ []))
      (rw rounds
        (omega (arith, bounds-pending n p i h, rw end at (squares_from-closed (high - low) low))))

-- What was added and what is still to be added is the sum of the squares of 1 .. n.
abbrev Inv : ℕ → State → Type 0
Inv n s = s.total_sum + pending s.threads ≡ squares n

step-Inv : (n k : ℕ) (s : State) → Inv n s → Holds (step k s) (Inv n)
unfolding step
step-Inv n k s h =
    Holds-bind (advance k s.threads) _ _ (Inv n) (advance-pending k s.threads)
      (λ p e. omega (arith, e, h))

run-Inv : (n : ℕ) (ks : List ℕ) (s : State) → Inv n s → Holds (run ks s) (Inv n)
unfolding run
run-Inv n [] s h = h
run-Inv n (k ∷ ks) s h = Holds-bind (step k s) (run ks) _ _ (step-Inv n k s h) (run-Inv n ks)

-- Either all threads have left their loops and have nothing to add, or one can go on.
joined-cases :
    (ts : List Thread)
    → ((joined ts ≡ true) × (pending ts ≡ 0))
      ⊎ ((joined ts ≡ false) × (k : ℕ) × (advance k ts ≢ none))
unfolding joined pending advance squares_from
joined-cases [] = inl (refl, refl)
joined-cases ((i, to) ∷ ts) = elim (dec_lt to i) [
  | no more ↦ inr (ground arith, zero, λ e. ground arith)
  | yes over ↦
      let none_left : to + 1 - i ≡ 0 = omega arith in
      elim (joined-cases ts) [
        | inl (all, e) ↦ inl (ground arith, rw none_left (omega (arith, e)))
        | inr (some_left, k, f) ↦
            inr (ground arith, suc k, λ e. f (map-none (keep (i, to)) (advance k ts) e))
      ]
]

possible : (k : ℕ) (s : State) → advance k s.threads ≢ none → step k s ≢ none
unfolding step
possible k s h = elim (Option-cases (advance k s.threads)) [
  | inl e ↦ absurd (h e)
  | inr (p, e) ↦ λ f. ground arith
]

-- At every point of a schedule from a state in which the invariant holds.
printed-cases :
    (n : ℕ) (s : State)
    → Inv n s
    → (printed s ≡ some (squares n)) ⊎ ((printed s ≡ none) × (k : ℕ) × (step k s ≢ none))
unfolding printed
printed-cases n s h = elim (joined-cases s.threads) [
  | inl (all, e) ↦ inl (rw all (ap some (omega (arith, e, h))))
  | inr (some_left, k, f) ↦ inr (rw some_left refl, k, possible k s f)
]

start-Inv : (n p : ℕ) → 0 < p → Inv n (start n p)
unfolding squares
start-Inv n p h =
    let e : p * n / p ≡ n = mul-div_cancel_left n h in rw e at (bounds-pending n p p h)

-- For accepted arguments, at every point of every order in which the threads get the mutex: either
-- what is printed there is the sum of the squares of 1 .. n, which is n (n + 1) (2 n + 1) / 6 and fits
-- an `int`; or `main` still waits for a thread, and some thread can make a round.
pub joined-squares :
    (arg1 arg2 : Bytes) (n num_threads : ℕ) (schedule : List ℕ) (s : State)
    → setup arg1 arg2 ≡ some (n, num_threads)
    → run schedule (start n num_threads) ≡ some s
    → ((total : ℕ) × (printed s ≡ some total)
        × (6 * total ≡ n * (n + 1) * (2 * n + 1))
        × (total < 2 ^ 31))
      ⊎ ((printed s ≡ none) × (k : ℕ) × (step k s ≢ none))
joined-squares arg1 arg2 n num_threads schedule s e f =
    let limits = accepted_bounds (atoi arg1) (atoi arg2) n num_threads e in
    let started = start-Inv n num_threads limits.1 in
    let h : Inv n s = rw f at (run-Inv n schedule (start n num_threads) started) in
    elim (printed-cases n s h) [
      | inl g ↦ inl (squares n, g, squares-closed n, squares_small n limits.0)
      | inr more ↦ inr more
    ]
