-- ===== src/Counter/Unlocked.antt =====
-- Lecture8/non_mutex/main.c: the calls of the mutex are commented out. Each access to `counter` is taken
-- to be a step of its own.
pub mod Range
pub mod Reach
use mathlib.Core.Option
use ece.Prelude.{ℕ, ◌+◌, Option, some, none, List, [], ◌∷◌, ◌++◌, ltb, if◌then◌else◌}

abbrev pub nloop : ℕ
nloop = 500

-- A thread in `doit`: at the test of the loop; with `val` read; with `val + 1` printed too.
pub data Thread : Type 0 where
  at_test : (i : ℕ) → Thread
  loaded : (i val : ℕ) → Thread
  printed : (i val : ℕ) → Thread

-- A thread, with what it shares with the other: the counter, and the numbers that were printed.
pub record View : Type 0 where
  pub thread : Thread
  pub counter : ℕ
  pub stdout : List ℕ

-- `none`: the loop has ended.
unfoldable pub turn : Thread → View → Option View
turn (Thread.at_test i) v =
    if ltb i nloop then some (record v { thread = Thread.loaded i v.counter }) else none
turn (Thread.loaded i val) v =
    some (record v { thread = Thread.printed i val; stdout = v.stdout ++ (val + 1) ∷ [] })
turn (Thread.printed i val) v =
    some (record v { thread = Thread.at_test (i + 1); counter = val + 1 })

pub data Who : Type 0 where
  a : Who
  b : Who

pub record State : Type 0 where
  pub counter : ℕ
  pub stdout : List ℕ
  pub thread_a : Thread
  pub thread_b : Thread

abbrev pub view : State → Thread → View
view s t = record { thread = t; counter = s.counter; stdout = s.stdout }

abbrev pub with_a : State → View → State
with_a s v = record s { counter = v.counter; stdout = v.stdout; thread_a = v.thread }

abbrev pub with_b : State → View → State
with_b s v = record s { counter = v.counter; stdout = v.stdout; thread_b = v.thread }

unfoldable pub step : Who → State → Option State
step Who.a s = Option.map (with_a s) (turn s.thread_a (view s s.thread_a))
step Who.b s = Option.map (with_b s) (turn s.thread_b (view s s.thread_b))

unfoldable pub run : List Who → State → Option State
run [] s = some s
run (w ∷ schedule) s = elim (step w s) [ none ↦ none | some s' ↦ run schedule s' ]

-- Behind the two calls of `pthread_create`.
abbrev pub start : State
start = record {
  counter = 0;
  stdout = [];
  thread_a = Thread.at_test 0;
  thread_b = Thread.at_test 0;
}

-- Both calls of `pthread_join` return.
abbrev pub joined : ℕ → List ℕ → State
joined counter stdout = record {
  counter = counter;
  stdout = stdout;
  thread_a = Thread.at_test nloop;
  thread_b = Thread.at_test nloop;
}
