-- ===== src/Counter/Locked.antt =====
-- Lecture8/mutex/main.c: the threads read, print and write `counter` under the mutex. Each access to it is
-- a step of its own.
pub mod Counted
pub mod Ends
use mathlib.Core.Option
use ece.Prelude.{
  ℕ, ◌+◌, Bool, true, false, not, ◌&&◌, Option, some, none, List, [], ◌∷◌, ◌++◌, ltb, if◌then◌else◌,
}

abbrev pub nloop : ℕ
nloop = 500

-- A thread in `doit`: at the test of the loop and the lock; behind the lock; with `val` read; with
-- `val + 1` printed; with it written, in front of the unlock.
pub data Thread : Type 0 where
  at_test : (i : ℕ) → Thread
  locked : (i : ℕ) → Thread
  loaded : (i val : ℕ) → Thread
  printed : (i val : ℕ) → Thread
  stored : (i : ℕ) → Thread

-- A thread, with what it shares with the other: the mutex, the counter, and the numbers printed.
pub record View : Type 0 where
  pub thread : Thread
  pub held : Bool
  pub counter : ℕ
  pub stdout : List ℕ

-- `none`: the loop has ended, or the thread waits for the mutex.
unfoldable pub turn : Thread → View → Option View
turn (Thread.at_test i) v =
    if ltb i nloop && not v.held
    then some (record v { thread = Thread.locked i; held = true })
    else none
turn (Thread.locked i) v = some (record v { thread = Thread.loaded i v.counter })
turn (Thread.loaded i val) v =
    some (record v { thread = Thread.printed i val; stdout = v.stdout ++ (val + 1) ∷ [] })
turn (Thread.printed i val) v = some (record v { thread = Thread.stored i; counter = val + 1 })
turn (Thread.stored i) v = some (record v { thread = Thread.at_test (i + 1); held = false })

pub data Who : Type 0 where
  a : Who
  b : Who

pub record State : Type 0 where
  pub held : Bool
  pub counter : ℕ
  pub stdout : List ℕ
  pub thread_a : Thread
  pub thread_b : Thread

abbrev pub view : State → Thread → View
view s t = record { thread = t; held = s.held; counter = s.counter; stdout = s.stdout }

abbrev pub with_a : State → View → State
with_a s v = record s { held = v.held; counter = v.counter; stdout = v.stdout; thread_a = v.thread }

abbrev pub with_b : State → View → State
with_b s v = record s { held = v.held; counter = v.counter; stdout = v.stdout; thread_b = v.thread }

unfoldable pub step : Who → State → Option State
step Who.a s = Option.map (with_a s) (turn s.thread_a (view s s.thread_a))
step Who.b s = Option.map (with_b s) (turn s.thread_b (view s s.thread_b))

unfoldable pub run : List Who → State → Option State
run [] s = some s
run (w ∷ schedule) s = elim (step w s) [ none ↦ none | some s' ↦ run schedule s' ]

-- Behind the two calls of `pthread_create`.
abbrev pub start : State
start = record {
  held = false;
  counter = 0;
  stdout = [];
  thread_a = Thread.at_test 0;
  thread_b = Thread.at_test 0;
}

-- The loop of a thread has ended, so that `pthread_join` returns.
abbrev pub is_over : Thread → Bool
is_over (Thread.at_test i) = not (ltb i nloop)
is_over _ = false
