-- ===== src/ThreadSums.antt =====
-- Homework2/main.c: threads that add the squares of 1 .. n to a sum under a mutex.
mod Tests
pub mod Total
use mathlib.Core.Option
use ece.Prelude.{
  false, true, Bytes, Bool, ℕ, suc, zero, [], ◌∷◌, ◌++◌, ◌+◌, ◌*◌, ◌/◌, leb, some, none,
  if◌then◌else◌, List, Option,
}
use ece.CString.{atoi}
use ece.PartialSums.{accepted}

-- A thread in its loop: `i`, and `myBounds.to`.
abbrev pub Thread : Type 0
Thread = ℕ × ℕ

pub record State : Type 0 where
  pub total_sum : ℕ
  pub threads : List Thread

abbrev pub keep : Thread → ℕ × List Thread → ℕ × List Thread
keep t (i, ts) = (i, t ∷ ts)

-- The value of `i` in the next round of a thread, and the threads behind it; `none`: there is none.
unfoldable pub advance : ℕ → List Thread → Option (ℕ × List Thread)
advance k [] = none
advance zero ((i, to) ∷ ts) = if leb i to then some (i, (i + 1, to) ∷ ts) else none
advance (suc k) (t ∷ ts) = Option.map (keep t) (advance k ts)

-- A round of one thread: the section under the mutex.
unfoldable pub step : ℕ → State → Option State
step k s = elim (advance k s.threads) [
  | none ↦ none
  | some (i, ts) ↦ some (record { total_sum = s.total_sum + i * i; threads = ts })
]

-- The numbers of the threads in the order in which they get the mutex.
unfoldable pub run : List ℕ → State → Option State
run [] s = some s
run (k ∷ ks) s = elim (step k s) [ none ↦ none | some s' ↦ run ks s' ]

-- `thisBounds[0 .. i - 1]`.
unfoldable pub bounds : ℕ → ℕ → ℕ → List Thread
bounds n num_threads zero = []
bounds n num_threads (suc i) =
    bounds n num_threads i ++ (i * n / num_threads + 1, (i + 1) * n / num_threads) ∷ []

abbrev pub start : ℕ → ℕ → State
start n num_threads = record { total_sum = 0; threads = bounds n num_threads num_threads }

-- The checks of `main`, which are those of Homework1; `none` is an exit with EXIT_FAILURE.
abbrev pub setup : Bytes → Bytes → Option (ℕ × ℕ)
setup arg1 arg2 = accepted (atoi arg1) (atoi arg2)

-- The threads have all left their loops, so that each `pthread_join` returns.
unfoldable pub joined : List Thread → Bool
joined [] = true
joined ((i, to) ∷ ts) = if leb i to then false else joined ts

-- What `main` prints; `none`: it waits in `pthread_join`.
unfoldable pub printed : State → Option ℕ
printed s = if joined s.threads then some s.total_sum else none
