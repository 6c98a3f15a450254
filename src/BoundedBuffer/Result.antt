-- ===== src/BoundedBuffer/Result.antt =====
-- What `main` prints.
use ece.Prelude.{refl, ◌^◌, ◌+◌, arith, ◌≡◌, ◌<◌, ◌≤◌, ◌*◌, ℕ, zero, suc, ◌⊎◌, inl, inr, some, none}
use ece.PartialSums.Total.{accepted_bounds}
use ece.BoundedBuffer.{
  some, List, Bytes, State, Producer, Action, run, start, setup, printed, setup,
}
use ece.BoundedBuffer.Invariant.{InvAt, squares, run-Inv}
use ece.BoundedBuffer.Progress.{run-CanStep, CanStep}
use ece.CString.{atoi}
use native.Mathlib.Decide.{dec_lt}

pub squares-closed : (c : ℕ) → 6 * squares c ≡ c * (c + 1) * (2 * c + 1)
unfolding squares
squares-closed zero = refl
squares-closed (suc c) = grind (arith, squares-closed c)

-- No more is processed than there is.
processed_bound :
    (n num_threads : ℕ) (s : State) (p : Producer) → InvAt n num_threads s p → s.processed ≤ n
processed_bound n num_threads s (Producer.wants i) h = omega arith
processed_bound n num_threads s (Producer.holds i) h = omega arith
processed_bound n num_threads s (Producer.filled i) h = omega arith

pub squares_small : (n : ℕ) → n ≤ 1000 → squares n < 2 ^ 31
squares_small n h = grind (arith, squares-closed n)

still_waiting : (n : ℕ) (s : State) → s.processed < n → printed n s ≡ none
unfolding printed
still_waiting n s h = ground arith

all_printed :
    (n : ℕ) (s : State)
    → s.total_sum ≡ squares s.processed
    → s.processed ≡ n
    → n ≤ 1000
    → (total : ℕ) × (printed n s ≡ some total)
      × (6 * total ≡ n * (n + 1) * (2 * n + 1))
      × (total < 2 ^ 31)
unfolding printed
all_printed n s sum done small = (
  s.total_sum,
  ground arith,
  rw (sum, done) (squares-closed n),
  rw (sum, done) (squares_small n small),
)

-- For accepted arguments, at every point of every schedule: either what is printed there is the sum of
-- the squares of 1 .. n, which is n (n + 1) (2 n + 1) / 6 and fits an `int`; or `main` still waits, and
-- some thread can make a step.
pub printed-squares :
    (arg1 arg2 : Bytes) (n num_threads : ℕ) (actions : List Action) (s : State)
    → setup arg1 arg2 ≡ some (n, num_threads)
    → run n actions (start num_threads) ≡ some s
    → ((total : ℕ) × (printed n s ≡ some total)
        × (6 * total ≡ n * (n + 1) * (2 * n + 1))
        × (total < 2 ^ 31))
      ⊎ ((printed n s ≡ none) × CanStep n s)
printed-squares arg1 arg2 n num_threads actions s e f =
    let bounds = accepted_bounds (atoi arg1) (atoi arg2) n num_threads e in
    let h = run-Inv n num_threads actions s f in
    elim (run-CanStep n num_threads actions s bounds.1 f) [
      | inl done ↦ inl (all_printed n s h.sum done bounds.0)
      | inr more ↦ elim (dec_lt s.processed n) [
        | yes waits ↦ inr (still_waiting n s waits, more)
        | no enough ↦
            let most = processed_bound n num_threads s s.producer h in
            inl (all_printed n s h.sum (omega arith) bounds.0)
      ]
    ]
