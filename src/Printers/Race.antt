-- ===== src/Printers/Race.antt =====
-- Lecture7/race_condition/race_condition.c: the two processes without a semaphore.
use ece.Prelude.{
  ℕ, ◌≡◌, ◌⊎◌, ◌↔◌, inl, inr, refl, sym, ◌∙◌, ap, arith, Bool, Option, some, none, List, [], ◌∷◌,
  ◌++◌, Bytes, codes, append_assoc, append-nil, if◌then◌else◌,
}

pub data Process : Type 0 where
  child : Process
  parent : Process

-- The characters from `ptr` on of each process.
pub record State : Type 0 where
  pub stdout : Bytes
  pub child_rest : Bytes
  pub parent_rest : Bytes

abbrev pub child_text : Bytes
child_text = codes "Child process wants to print a long string.\n"

abbrev pub parent_text : Bytes
parent_text = codes "Parent process is doing something else.\n"

-- A round of the loop in `charatatime`: `c = *ptr++` and `putc(c, stdout)`; `none`: the loop has ended.
unfoldable pub put_child : Bytes → State → Option State
put_child [] s = none
put_child (c ∷ rest) s = some (record s { stdout = s.stdout ++ c ∷ []; child_rest = rest })

unfoldable pub put_parent : Bytes → State → Option State
put_parent [] s = none
put_parent (c ∷ rest) s = some (record s { stdout = s.stdout ++ c ∷ []; parent_rest = rest })

unfoldable pub step : Process → State → Option State
step Process.child s = put_child s.child_rest s
step Process.parent s = put_parent s.parent_rest s

unfoldable pub run : List Process → State → Option State
run [] s = some s
run (p ∷ schedule) s = elim (step p s) [ none ↦ none | some s' ↦ run schedule s' ]

-- Behind `fork`.
abbrev pub start : State
start = record { stdout = []; child_rest = child_text; parent_rest = parent_text }

-- `main` up to there; `none` is the exit with status 1 of `err_sys`.
abbrev pub setup : Bool → Option State
setup forked = if forked then some start else none

-- Both processes have ended, and that is on stdout.
abbrev pub ended_with : Bytes → State
ended_with out = record { stdout = out; child_rest = []; parent_rest = [] }

-- `zs` is made of the characters of `xs` and those of `ys`, each in their order.
unfoldable pub Interleaving : Bytes → Bytes → Bytes → Type 0
Interleaving xs ys [] = (xs ≡ []) × (ys ≡ [])
Interleaving xs ys (z ∷ zs) =
    ((rest : Bytes) × (xs ≡ z ∷ rest) × Interleaving rest ys zs)
    ⊎ ((rest : Bytes) × (ys ≡ z ∷ rest) × Interleaving xs rest zs)

-- What a run from `s` on prints.
abbrev Prints : State → State → Type 0
Prints s s' =
    (zs : Bytes) × (s'.stdout ≡ s.stdout ++ zs) × Interleaving s.child_rest s.parent_rest zs

abbrev HasEnded : State → Type 0
HasEnded s = (s.child_rest ≡ []) × (s.parent_rest ≡ [])

-- A round of one of them, and what is printed from there on.
child_round :
    (c : ℕ) (rest : Bytes) (s s' : State)
    → s.child_rest ≡ c ∷ rest
    → Prints (record s { stdout = s.stdout ++ c ∷ []; child_rest = rest }) s'
    → Prints s s'
unfolding Interleaving
child_round c rest s s' e (zs, f, h) =
    (c ∷ zs, f ∙ append_assoc s.stdout (c ∷ []) zs, inl (rest, e, h))

parent_round :
    (c : ℕ) (rest : Bytes) (s s' : State)
    → s.parent_rest ≡ c ∷ rest
    → Prints (record s { stdout = s.stdout ++ c ∷ []; parent_rest = rest }) s'
    → Prints s s'
unfolding Interleaving
parent_round c rest s s' e (zs, f, h) =
    (c ∷ zs, f ∙ append_assoc s.stdout (c ∷ []) zs, inr (rest, e, h))

-- A first round that is possible.
child_first :
    (x : Bytes) (s : State) (next : State → Option State) (s' : State)
    → s.child_rest ≡ x
    → elim (put_child x s) [ none ↦ none | some u ↦ next u ] ≡ some s'
    → ((u : State) → next u ≡ some s' → Prints u s')
    → Prints s s'
unfolding put_child
child_first [] s next s' e f h = absurd (ground arith)
child_first (c ∷ rest) s next s' e f h = child_round c rest s s' e (h _ f)

parent_first :
    (x : Bytes) (s : State) (next : State → Option State) (s' : State)
    → s.parent_rest ≡ x
    → elim (put_parent x s) [ none ↦ none | some u ↦ next u ] ≡ some s'
    → ((u : State) → next u ≡ some s' → Prints u s')
    → Prints s s'
unfolding put_parent
parent_first [] s next s' e f h = absurd (ground arith)
parent_first (c ∷ rest) s next s' e f h = parent_round c rest s s' e (h _ f)

run-Prints :
    (schedule : List Process) (s s' : State) → run schedule s ≡ some s' → HasEnded s' → Prints s s'
unfolding run step Interleaving
run-Prints [] s s' e (c, p) =
    let same : s ≡ s' = ground arith in rw same ([], sym (append-nil s'.stdout), (c, p))
run-Prints (Process.child ∷ schedule) s s' e h =
    child_first s.child_rest s (run schedule) s' refl e (λ u f. run-Prints schedule u s' f h)
run-Prints (Process.parent ∷ schedule) s s' e h =
    parent_first s.parent_rest s (run schedule) s' refl e (λ u f. run-Prints schedule u s' f h)

-- The state with that output and those rests.
abbrev at_rests : Bytes → Bytes → Bytes → State
at_rests out xs ys = record { stdout = out; child_rest = xs; parent_rest = ys }

Interleaving-run :
    (out xs ys zs : Bytes)
    → Interleaving xs ys zs
    → (schedule : List Process) × (run schedule (at_rests out xs ys)
        ≡ some (ended_with (out ++ zs)))
unfolding Interleaving run step put_child put_parent
Interleaving-run out xs ys [] (e, f) = ([], rw (e, f, append-nil out) refl)
Interleaving-run out xs ys (z ∷ zs) (inl (rest, e, h)) =
    let g = Interleaving-run (out ++ z ∷ []) rest ys zs h in
    (Process.child ∷ g.0, rw e (g.1 ∙ ap (λ q. some (ended_with q)) (append_assoc out (z ∷ []) zs)))
Interleaving-run out xs ys (z ∷ zs) (inr (rest, e, h)) =
    let g = Interleaving-run (out ++ z ∷ []) xs rest zs h in
    (
      Process.parent ∷ g.0,
      rw e (g.1 ∙ ap (λ q. some (ended_with q)) (append_assoc out (z ∷ []) zs)),
    )

ended-Interleaving :
    (schedule : List Process) (out : Bytes)
    → run schedule start ≡ some (ended_with out)
    → Interleaving child_text parent_text out
ended-Interleaving schedule out e =
    let g = run-Prints schedule start (ended_with out) e (refl, refl) in rw (g.1) (g.2)

-- Without a semaphore, the texts that can be on stdout when both processes have ended are just those
-- made of the characters of both strings, those of each string in their order.
pub run-Interleaving :
    (out : Bytes)
    → ((schedule : List Process) × (run schedule start ≡ some (ended_with out)))
      ↔ Interleaving child_text parent_text out
run-Interleaving out = (
  (λ (schedule, e). ended-Interleaving schedule out e),
  Interleaving-run [] child_text parent_text out,
)
