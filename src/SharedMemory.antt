-- ===== src/SharedMemory.antt =====
-- ipc_code/process_semaphore/process_semaphore.c: two child processes write a line each to a shared
-- memory segment, under a System V semaphore, and the parent prints what is there.
pub mod Ends
pub mod Filled
pub mod Written
mod Tests
use mathlib.Core.Option
use ece.Prelude.{
  ℕ, zero, suc, ◌+◌, ◌-◌, Bool, true, false, ◌&&◌, ◌==◌, Option, some, none, List, [], ◌∷◌, ◌++◌,
  Bytes, codes, ltb, length, take, drop, if◌then◌else◌,
}
use ece.CString.{c_string}

abbrev pub shm_size : ℕ
shm_size = 1024

unfoldable pub zeros : ℕ → Bytes
zeros zero = []
zeros (suc n) = 0 ∷ zeros n

-- `strlen`; `none`: there is no NUL in the segment.
unfoldable pub strlen : Bytes → Option ℕ
strlen [] = none
strlen (c ∷ s) = if c == 0 then some 0 else Option.map suc (strlen s)

-- `sprintf(shmaddr + off, ...)` of that text; `none`: it does not fit behind `off`.
unfoldable pub put_text : Bytes → ℕ → Bytes → Option Bytes
put_text shm off text =
    if ltb (off + length text) (length shm)
    then some (take off shm ++ text ++ 0 ∷ drop (off + length text + 1) shm)
    else none

-- Where a child stands: in front of `sem_wait`; behind it; with `shmaddr + strlen(shmaddr)` computed;
-- behind `sprintf`; ended; ended because `sem_wait` failed.
pub data Child : Type 0 where
  wants : Child
  inside : Child
  at_end : (off : ℕ) → Child
  written : Child
  left : Child
  gave_up : Child

pub data Reply : Type 0 where
  done : Reply
  error : Reply

-- A child, with the semaphore and the segment that it shares with the other.
pub record View : Type 0 where
  pub child : Child
  pub sem : ℕ
  pub shm : Bytes

-- `semop` with -1, and with 1. Both have SEM_UNDO: if the second fails, the exit of the child gives back
-- what the first has taken.
unfoldable pub sem_wait : Reply → View → Option View
sem_wait Reply.done v =
    if ltb 0 v.sem then some (record v { child = Child.inside; sem = v.sem - 1 }) else none
sem_wait Reply.error v = some (record v { child = Child.gave_up })

unfoldable pub sem_post : Reply → View → Option View
sem_post Reply.done v = some (record v { child = Child.left; sem = v.sem + 1 })
sem_post Reply.error v = some (record v { child = Child.left; sem = v.sem + 1 })

abbrev pub with_end : View → ℕ → View
with_end v off = record v { child = Child.at_end off }

abbrev pub with_text : View → Bytes → View
with_text v shm = record v { child = Child.written; shm = shm }

-- The next step of a child with that line; `none`: it makes no such step now, or none that is defined.
unfoldable pub turn : Bytes → Reply → Child → View → Option View
turn line reply Child.wants v = sem_wait reply v
turn line reply Child.inside v = Option.map (with_end v) (strlen v.shm)
turn line reply (Child.at_end off) v = Option.map (with_text v) (put_text v.shm off line)
turn line reply Child.written v = sem_post reply v
turn line reply _ v = none

pub record State : Type 0 where
  pub sem : ℕ
  pub shm : Bytes
  pub first : Child
  pub second : Child

pub data Action : Type 0 where
  first_turn : (reply : Reply) → Action
  second_turn : (reply : Reply) → Action

abbrev pub first_line : Bytes
first_line = codes "Child process 1 wrote to shared memory\n"

abbrev pub second_line : Bytes
second_line = codes "Child process 2 wrote to shared memory\n"

abbrev pub first_view : State → View
first_view s = record { child = s.first; sem = s.sem; shm = s.shm }

abbrev pub second_view : State → View
second_view s = record { child = s.second; sem = s.sem; shm = s.shm }

abbrev pub with_first : State → View → State
with_first s v = record s { sem = v.sem; shm = v.shm; first = v.child }

abbrev pub with_second : State → View → State
with_second s v = record s { sem = v.sem; shm = v.shm; second = v.child }

unfoldable pub step : Action → State → Option State
step (Action.first_turn reply) s =
    Option.map (with_first s) (turn first_line reply s.first (first_view s))
step (Action.second_turn reply) s =
    Option.map (with_second s) (turn second_line reply s.second (second_view s))

unfoldable pub run : List Action → State → Option State
run [] s = some s
run (a ∷ actions) s = elim (step a s) [ none ↦ none | some s' ↦ run actions s' ]

-- Behind the two calls of `fork`.
abbrev pub start : State
start = record { sem = 1; shm = zeros shm_size; first = Child.wants; second = Child.wants }

abbrev pub is_over : Child → Bool
is_over Child.left = true
is_over Child.gave_up = true
is_over _ = false

-- What the parent prints; `none`: it waits for a child.
unfoldable pub printed : State → Option Bytes
printed s =
    if is_over s.first && is_over s.second
    then some (codes "parent read:\n" ++ c_string s.shm)
    else none

-- `main` up to there, by whether `shmget`, `shmat`, `semget`, `semctl` and each `fork` succeed; `none`
-- is an exit with status 1. A first child is not stopped when the second `fork` fails.
unfoldable pub setup : List Bool → Option State
setup [] = some start
setup (true ∷ replies) = setup replies
setup (false ∷ replies) = none
