-- ===== src/PartialSums.antt =====
-- Homework1/main.c: processes that add up parts of 1 .. n, and a parent that adds their results.
pub mod Total
mod Tests
use ece.Prelude.{
  ℕ, zero, suc, ◌+◌, ◌-◌, ◌*◌, ◌/◌, ◌≡◌, Option, none, some, Bool, ◌||◌, List, [], ◌∷◌, ◌++◌, ℤ,
  pos, negsuc, Bytes, ltb, if◌then◌else◌,
}
use ece.CString.{atoi}

-- The body of `for (i = from; i <= to; i++)`, for a number of rounds.
unfoldable pub sum_loop : ℕ → ℕ → ℕ → ℕ
sum_loop zero i p_sum = p_sum
sum_loop (suc rounds) i p_sum = sum_loop rounds (i + 1) (p_sum + i)

-- `computePartialSum`.
unfoldable pub compute_partial_sum : ℕ → ℕ → ℕ
compute_partial_sum from to = sum_loop (to + 1 - from) from 0

-- What child `i` of `num_processes` writes to the pipe.
unfoldable pub child_sum : ℕ → ℕ → ℕ → ℕ
child_sum n num_processes i =
    compute_partial_sum (i * n / num_processes + 1) ((i + 1) * n / num_processes)

-- What the children `0 .. i - 1` write, in the order of their numbers.
unfoldable pub children : ℕ → ℕ → ℕ → List ℕ
children n num_processes zero = []
children n num_processes (suc i) = children n num_processes i ++ child_sum n num_processes i ∷ []

-- The parent's loop, over what it reads from the pipe.
unfoldable pub add_up : List ℕ → ℕ → ℕ
add_up [] sum = sum
add_up (curr ∷ pipe) sum = add_up pipe (sum + curr)

-- The checks of `main`; `none` is an exit with EXIT_FAILURE.
unfoldable pub accepted : ℤ → ℤ → Option (ℕ × ℕ)
accepted (pos n) (pos num_processes) =
    if ltb n 10 || ltb 1000 n
    then none
    else if ltb num_processes 2 || (ltb (n / 2) num_processes || ltb 100 num_processes)
    then none
    else some (n, num_processes)
accepted _ _ = none

-- `main`, with the two arguments. `arrival` is the order in which the children get to write: it
-- makes of their numbers, in order, what the parent reads. No `pipe` or `fork` fails.
unfoldable pub main : Bytes → Bytes → (List ℕ → List ℕ) → Option ℕ
main arg1 arg2 arrival = elim (accepted (atoi arg1) (atoi arg2)) [
  | none ↦ none
  | some (n, num_processes) ↦ some (add_up (arrival (children n num_processes num_processes)) 0)
]
