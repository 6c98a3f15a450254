-- ===== src/Printers.antt =====
-- Two processes that print a string each to the same stdout, one character at a time:
-- ipc_code/named_semaphore/named_semaphore.c and ipc_code/unnamed_semaphore/unnamed_semaphore.c, which
-- are the same but for where the semaphore comes from. Lecture7/race_condition has no semaphore, and
-- stands in Printers/Race.
pub mod Order
pub mod Progress
pub mod Race
pub mod Unnamed
mod Tests
use mathlib.Core.Option
use ece.Prelude.{
  ◌&&◌, not, ℕ, suc, zero, ◌+◌, ◌-◌, Bool, true, false, Option, some, none, List, [], ◌∷◌, ◌++◌,
  Bytes, codes, ltb, get_elem?, if◌then◌else◌,
}

-- Where a process stands: in front of `sem_wait`; in `charatatime`, at the character of index `i`;
-- behind `sem_post`. The last two have ended by `exit(1)`, as `sem_wait` or `sem_post` failed.
pub data Writer : Type 0 where
  wants : Writer
  prints : (i : ℕ) → Writer
  left : Writer
  no_wait : Writer
  no_post : Writer

-- What a call of `sem_wait` or `sem_post` comes to. `putc` has no error that the code looks at.
pub data Reply : Type 0 where
  done : Reply
  error : Reply

-- A process, with the semaphore and the stdout that it shares with the other.
pub record View : Type 0 where
  pub writer : Writer
  pub sem : ℕ
  pub stdout : Bytes

-- `sem_post`.
unfoldable pub post_sem : Reply → View → Option View
post_sem Reply.done v = some (record v { writer = Writer.left; sem = v.sem + 1 })
post_sem Reply.error v = some (record v { writer = Writer.no_post })

-- A round of the loop in `charatatime`, or `sem_post` behind the loop.
unfoldable pub put_char : Option ℕ → Reply → ℕ → View → Option View
put_char (some c) Reply.done i v =
    some (record v { writer = Writer.prints (suc i); stdout = v.stdout ++ c ∷ [] })
put_char (some c) Reply.error i v = none
put_char none reply i v = post_sem reply v

-- `sem_wait`.
unfoldable pub wait_sem : Reply → View → Option View
wait_sem Reply.done v =
    if ltb 0 v.sem then some (record v { writer = Writer.prints 0; sem = v.sem - 1 }) else none
wait_sem Reply.error v = some (record v { writer = Writer.no_wait })

-- The next step of a process with the string `str`; `none`: it makes no such step now.
unfoldable pub turn : Bytes → Reply → Writer → View → Option View
turn str reply Writer.wants v = wait_sem reply v
turn str reply (Writer.prints i) v = put_char (get_elem? str i) reply i v
turn str reply _ v = none

-- Both processes, and whether the parent has removed the semaphore.
pub record State : Type 0 where
  pub sem : ℕ
  pub stdout : Bytes
  pub child : Writer
  pub parent : Writer
  pub removed : Bool

pub data Action : Type 0 where
  child_turn : (reply : Reply) → Action
  parent_turn : (reply : Reply) → Action
  reap : Action

abbrev pub child_text : Bytes
child_text = codes "Child process wants to print a long string to stdout.\n"

abbrev pub parent_text : Bytes
parent_text =
    codes "Parent process is doing something else. The processes are running concurrently.\n"

abbrev pub child_view : State → View
child_view s = record { writer = s.child; sem = s.sem; stdout = s.stdout }

abbrev pub parent_view : State → View
parent_view s = record { writer = s.parent; sem = s.sem; stdout = s.stdout }

abbrev pub with_child : State → View → State
with_child s v = record s { sem = v.sem; stdout = v.stdout; child = v.writer }

abbrev pub with_parent : State → View → State
with_parent s v = record s { sem = v.sem; stdout = v.stdout; parent = v.writer }

abbrev pub is_over : Writer → Bool
is_over Writer.wants = false
is_over (Writer.prints i) = false
is_over _ = true

-- `wait` behind the parent's branch, and the removal of the semaphore.
unfoldable pub reap_child : Writer → State → Option State
reap_child Writer.left s =
    if is_over s.child && not s.removed then some (record s { removed = true }) else none
reap_child _ s = none

unfoldable pub step : Action → State → Option State
step (Action.child_turn reply) s =
    Option.map (with_child s) (turn child_text reply s.child (child_view s))
step (Action.parent_turn reply) s =
    Option.map (with_parent s) (turn parent_text reply s.parent (parent_view s))
step Action.reap s = reap_child s.parent s

unfoldable pub run : List Action → State → Option State
run [] s = some s
run (a ∷ actions) s = elim (step a s) [ none ↦ none | some s' ↦ run actions s' ]

-- Behind `fork`, with a semaphore of that value.
abbrev pub start : ℕ → State
start value = record {
  sem = value;
  stdout = [];
  child = Writer.wants;
  parent = Writer.wants;
  removed = false;
}

-- `main` up to `fork`, with the value of the semaphore that `sem_open` gives, which is 1 if it is a new
-- one; `none` is an exit with status 1.
unfoldable pub setup : Option ℕ → Bool → Option State
setup none forked = none
setup (some value) forked = if forked then some (start value) else none

-- The same for the unnamed semaphore: an exit with status 1, undefined behaviour, or the start.
pub data Setup : Type 0 where
  exits : Setup
  undefined : Setup
  ready : State → Setup

-- Whether `shmget`, `shmat`, `sem_init` and `fork` succeed. `semp < 0` does not hold of the pointer -1
-- that a failing `shmat` returns, so that `sem_init` is called with it.
unfoldable pub setup_unnamed : Bool → Bool → Bool → Bool → Setup
setup_unnamed made attached initialised forked =
    if not made
    then Setup.exits
    else if not attached
    then Setup.undefined
    else if initialised && forked
    then Setup.ready (start 1)
    else Setup.exits
