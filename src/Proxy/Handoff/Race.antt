-- ===== src/Proxy/Handoff/Race.antt =====
-- What a thread gets, by the order of the steps.
use ece.Prelude.{
  get_elem?-last, get_elem?-append, get_elem?-append_cases, get_elem?-set_cases, get_elem?-set_self,
  sym, ◌∙◌, arith, ℕ, ◌≡◌, ◌≢◌, inl, inr, refl, Option, none, some, List, [], ◌∷◌, ◌++◌, length,
  get_elem?, Holds, Holds-bind, All,
}
use ece.Proxy.Handoff.{State, Action, copy_client, step, run}

-- A step by which `c` is not accepted.
abbrev pub Other : ℕ → Action → Type 0
Other c (Action.accept d) = d ≢ c
Other c (Action.copy i) = Unit

-- `c` is not in the variable, and not what thread `i` has.
abbrev Missed : ℕ → ℕ → State → Type 0
Missed i c s = (s.client ≢ c) × (get_elem? s.threads i ≢ some (some c))

copy_client-Missed :
    (i c : ℕ) (s : State) (j : ℕ) (o : Option (Option ℕ))
    → Missed i c s
    → Holds (copy_client s j o) (Missed i c)
unfolding copy_client
copy_client-Missed i c s j none h = tt
copy_client-Missed i c s j (some (some fd)) h = tt
copy_client-Missed i c s j (some none) h = (
  h.0,
  elim (get_elem?-set_cases s.threads i j (some s.client)) [
    | inl e ↦ rw e h.1
    | inr (f, e) ↦ rw e (λ g. ground arith)
  ],
)

step-Missed :
    (i c : ℕ) (a : Action) (s : State) → Other c a → Missed i c s → Holds (step a s) (Missed i c)
unfolding step
step-Missed i c (Action.accept d) s o h = (
  o,
  elim (get_elem?-append_cases s.threads none i) [
    | inl e ↦ rw e h.1
    | inr e ↦ rw e (λ g. ground arith)
  ],
)
step-Missed i c (Action.copy j) s o h = copy_client-Missed i c s j (get_elem? s.threads j) h

run-Missed :
    (i c : ℕ) (actions : List Action) (s : State)
    → All (Other c) actions
    → Missed i c s
    → Holds (run actions s) (Missed i c)
unfolding run
run-Missed i c [] s o h = h
run-Missed i c (a ∷ actions) s o h =
    Holds-bind (step a s) (run actions) _ _ (step-Missed i c a s o.0 h)
      (λ u g. run-Missed i c actions u o.1 g)

-- When a second client is accepted before the thread of the first has made its copy, that thread never
-- gets the first client, whatever happens, unless its descriptor is handed out by another `accept`.
pub run-lost :
    (c d : ℕ) (actions : List Action) (s s' : State)
    → c ≢ d
    → All (Other c) actions
    → run (Action.accept c ∷ Action.accept d ∷ actions) s ≡ some s'
    → get_elem? s'.threads (length s.threads) ≢ some (some c)
unfolding run step
run-lost c d actions s s' ne others e =
    let fresh : get_elem? ((s.threads ++ none ∷ []) ++ none ∷ []) (length s.threads) ≡ some none =
      get_elem?-append (s.threads ++ none ∷ []) (none ∷ []) (length s.threads) none
        (get_elem?-last s.threads none) in
    let missed =
      run-Missed (length s.threads) c actions
        (record { client = d; threads = (s.threads ++ none ∷ []) ++ none ∷ [] }) others
        ((λ f. ne (sym f)), rw fresh (λ g. ground arith)) in
    (rw e at missed).1

-- What thread `i` has, it keeps.
abbrev Has : ℕ → ℕ → State → Type 0
Has i c s = get_elem? s.threads i ≡ some (some c)

copy_client-Has :
    (i c : ℕ) (s : State) (j : ℕ) (o : Option (Option ℕ))
    → get_elem? s.threads j ≡ o
    → Has i c s
    → Holds (copy_client s j o) (Has i c)
unfolding copy_client
copy_client-Has i c s j none e h = tt
copy_client-Has i c s j (some (some fd)) e h = tt
copy_client-Has i c s j (some none) e h = elim (get_elem?-set_cases s.threads i j (some s.client)) [
  | inl f ↦ f ∙ h
  | inr (f, g) ↦
      absurd (let both : get_elem? s.threads j ≡ some (some c) = rw f at h in ground arith)
]

step-Has : (i c : ℕ) (a : Action) (s : State) → Has i c s → Holds (step a s) (Has i c)
unfolding step
step-Has i c (Action.accept d) s h = get_elem?-append s.threads (none ∷ []) i (some c) h
step-Has i c (Action.copy j) s h = copy_client-Has i c s j (get_elem? s.threads j) refl h

run-Has :
    (i c : ℕ) (actions : List Action) (s : State) → Has i c s → Holds (run actions s) (Has i c)
unfolding run
run-Has i c [] s h = h
run-Has i c (a ∷ actions) s h =
    Holds-bind (step a s) (run actions) _ _ (step-Has i c a s h) (run-Has i c actions)

copy_client-own :
    (c : ℕ) (s : State)
    → let u : State = record { client = c; threads = s.threads ++ none ∷ [] } in
      Holds
        (copy_client u (length s.threads) (get_elem? u.threads (length s.threads)))
        (Has (length s.threads) c)
unfolding copy_client
copy_client-own c s =
    let fresh = get_elem?-last s.threads none in
    rw fresh (get_elem?-set_self (s.threads ++ none ∷ []) (length s.threads) none (some c) fresh)

-- A thread that makes its copy before the next `accept` has its own client, and keeps it, whatever
-- happens.
pub run-kept :
    (c : ℕ) (actions : List Action) (s s' : State)
    → run (Action.accept c ∷ Action.copy (length s.threads) ∷ actions) s ≡ some s'
    → get_elem? s'.threads (length s.threads) ≡ some (some c)
unfolding run step copy_client
run-kept c actions s s' e =
    let i = length s.threads in
    let u : State = record { client = c; threads = s.threads ++ none ∷ [] } in
    rw e at (
      Holds-bind (copy_client u i (get_elem? u.threads i)) (run actions) (Has i c) (Has i c)
        (copy_client-own c s) (run-Has i c actions))
