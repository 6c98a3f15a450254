-- ===== src/Proxy/Handoff.antt =====
-- How `main` of Assignment3 hands a client to its thread: by the address of a variable of its loop,
-- `clinfo client`, which has the same place on the stack in each round.
pub mod Race
use ece.Prelude.{ℕ, Option, none, some, List, [], ◌∷◌, ◌++◌, get_elem?, set}

-- `client` in memory, by its descriptor; and for each thread, by the order of creation, the copy that
-- it made of `*vargp`, if it has.
pub record State : Type 0 where
  pub client : ℕ
  pub threads : List (Option ℕ)

-- `main` accepts a client, writes `client` and creates a thread; the thread of a number makes its copy.
pub data Action : Type 0 where
  accept : (client_fd : ℕ) → Action
  copy : (thread : ℕ) → Action

-- `clinfo client = *((clinfo *)vargp);`
unfoldable pub copy_client : State → ℕ → Option (Option ℕ) → Option State
copy_client s i (some none) = some (record s { threads = set s.threads i (some s.client) })
copy_client s i (some (some fd)) = none
copy_client s i none = none

-- `none`: the step cannot be made.
unfoldable pub step : Action → State → Option State
step (Action.accept client_fd) s =
    some (record { client = client_fd; threads = s.threads ++ none ∷ [] })
step (Action.copy i) s = copy_client s i (get_elem? s.threads i)

unfoldable pub run : List Action → State → Option State
run [] s = some s
run (a ∷ actions) s = elim (step a s) [ none ↦ none | some s' ↦ run actions s' ]
