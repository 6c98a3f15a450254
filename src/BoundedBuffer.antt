-- ===== src/BoundedBuffer.antt =====
-- Homework2/level3.c: a producer and many consumers around a circular buffer with two semaphores.
mod Tests
pub mod Queue
pub mod Refine
pub mod Invariant
pub mod Progress
pub mod Result
use mathlib.Core.Option
use ece.Prelude.{
  ◌*◌, [], ◌%◌, ◌-◌, ◌∷◌, none, ◌+◌, ◌&&◌, some, ◌==◌, leb, ltb, Bytes, Option, if◌then◌else◌, List,
  ℕ, suc, zero,
}
use ece.CString.{atoi}
use ece.PartialSums.{accepted}

abbrev pub buffer_size : ℕ
buffer_size = 8

-- Where the producer stands in round `i` of its loop: in front of the test `i <= n` and of
-- `sem_wait(&remainingSpace)`; behind it; and in front of `sem_post(&availableItems)`.
pub data Producer : Type 0 where
  wants : (i : ℕ) → Producer
  holds : (i : ℕ) → Producer
  filled : (i : ℕ) → Producer

-- The variables that the threads share, and where the threads stand. The consumers have no variable
-- of their own that outlives the mutex, so that they are counted: in front of
-- `sem_wait(&availableItems)`, in front of the mutex, and in front of `sem_post(&remainingSpace)`.
pub record State : Type 0 where
  pub buffer : ℕ → ℕ
  pub head : ℕ
  pub tail : ℕ
  pub available_items : ℕ
  pub remaining_space : ℕ
  pub total_sum : ℕ
  pub processed : ℕ
  pub producer : Producer
  pub idle : ℕ
  pub ready : ℕ
  pub leaving : ℕ

-- A step of one thread. `take` is the section under the mutex: what it reads and writes, besides the
-- slot of the buffer and what `main` reads of `processed`, is used under the mutex alone.
pub data Action : Type 0 where
  wait_space : Action
  put : Action
  post_items : Action
  wait_items : Action
  take : Action
  post_space : Action

-- `buffer[k] = v`.
unfoldable pub set_slot : (ℕ → ℕ) → ℕ → ℕ → ℕ → ℕ
set_slot buffer k v j = if j == k then v else buffer j

-- `sem_wait(&remainingSpace)` in round `i`.
abbrev pub produce_wait : ℕ → State → Producer → Option State
produce_wait n s (Producer.wants i) =
    if leb i n && ltb 0 s.remaining_space
    then some (record s { remaining_space = s.remaining_space - 1; producer = Producer.holds i })
    else none
produce_wait n s _ = none

abbrev pub produce_put : State → Producer → Option State
produce_put s (Producer.holds i) = some (record s {
  buffer = set_slot s.buffer s.tail i;
  tail = (s.tail + 1) % buffer_size;
  producer = Producer.filled i;
})
produce_put s _ = none

abbrev pub produce_post : State → Producer → Option State
produce_post s (Producer.filled i) =
    some (record s { available_items = s.available_items + 1; producer = Producer.wants (i + 1) })
produce_post s _ = none

-- The section under the mutex, with `val = buffer[head]`.
abbrev pub taken : State → ℕ → State
taken s val = record s {
  head = (s.head + 1) % buffer_size;
  total_sum = s.total_sum + val * val;
  processed = s.processed + 1;
  ready = s.ready - 1;
  leaving = s.leaving + 1;
}

-- `none`: no thread can make this step now.
unfoldable pub step : ℕ → Action → State → Option State
step n Action.wait_space s = produce_wait n s s.producer
step n Action.put s = produce_put s s.producer
step n Action.post_items s = produce_post s s.producer
step n Action.wait_items s =
    if ltb 0 s.idle && ltb 0 s.available_items
    then some (record s {
      available_items = s.available_items - 1;
      idle = s.idle - 1;
      ready = s.ready + 1;
    })
    else none
step n Action.take s = if ltb 0 s.ready then some (taken s (s.buffer s.head)) else none
step n Action.post_space s =
    if ltb 0 s.leaving
    then some (record s {
      remaining_space = s.remaining_space + 1;
      leaving = s.leaving - 1;
      idle = s.idle + 1;
    })
    else none

-- The steps of the threads in the order in which they are scheduled.
unfoldable pub run : ℕ → List Action → State → Option State
run n [] s = some s
run n (a ∷ actions) s = elim (step n a s) [ none ↦ none | some s' ↦ run n actions s' ]

-- After `sem_init` and `pthread_create`.
abbrev pub start : ℕ → State
start num_threads = record {
  buffer = λ _. 0;
  head = 0;
  tail = 0;
  available_items = 0;
  remaining_space = buffer_size;
  total_sum = 0;
  processed = 0;
  producer = Producer.wants 1;
  idle = num_threads;
  ready = 0;
  leaving = 0;
}

-- The checks of `main`, which are those of Homework1: `n` and `numThreads`; `none` is an exit with
-- EXIT_FAILURE.
abbrev pub setup : Bytes → Bytes → Option (ℕ × ℕ)
setup arg1 arg2 = accepted (atoi arg1) (atoi arg2)

-- What `main` prints when `while (processed < n);` is over; `none`: it still waits.
unfoldable pub printed : ℕ → State → Option ℕ
printed n s = if ltb s.processed n then none else some s.total_sum
