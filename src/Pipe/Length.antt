-- ===== src/Pipe/Length.antt =====
-- How many steps the two processes take.
use ece.Prelude.{
  Bool-cases, inl, inr, length-take, ℕ, zero, suc, ◌+◌, ◌*◌, ◌≤◌, ◌≡◌, refl, arith, List, [], ◌∷◌,
  Bytes, take, length, length-drop, length-append, Holds, some, none, true, false, Option,
}
use ece.Pipe.{
  is_terminated, fill, Bool, Child, Parent, State, hello, take_response, turn_child, read_chunk,
  reply, turn_parent, Who, step, run, start, print_response, count,
}

abbrev child_weight : Child → ℕ
child_weight (Child.writing n) = 15 * n + 2
child_weight Child.awaiting = 1
child_weight _ = 0

abbrev parent_weight : Parent → ℕ
parent_weight Parent.opening = 4
parent_weight Parent.reading = 3
parent_weight Parent.replying = 2
parent_weight Parent.waiting = 1
parent_weight _ = 0

-- A bound on the steps that are left.
abbrev weight : State → ℕ
weight s = child_weight s.child + length s.pipe + parent_weight s.parent

abbrev Shrinks : State → Option State → Type 0
Shrinks s o = Holds o (λ s'. suc (weight s') ≤ weight s)

response-Shrinks :
    (bytes : Bytes) (s : State)
    → s.child ≡ Child.awaiting
    → suc (weight (print_response bytes s)) ≤ weight s
unfolding print_response
response-Shrinks bytes s e = ground arith

take-Shrinks :
    (bytes : Bytes) (s : State) → s.child ≡ Child.awaiting → Shrinks s (take_response bytes s)
unfolding take_response
take-Shrinks [] s e = ground (arith, response-Shrinks [] s e)
take-Shrinks (c ∷ bytes) s e = response-Shrinks (c ∷ bytes) s e

child-Shrinks : (c : Child) (s : State) → s.child ≡ c → Shrinks s (turn_child c s)
unfolding turn_child
child-Shrinks (Child.writing (suc n)) s e = ground (arith, length-append s.pipe hello)
child-Shrinks (Child.writing zero) s e = ground arith
child-Shrinks Child.awaiting s e = take-Shrinks (take 1024 s.pipe2) s e
child-Shrinks Child.ended s e = tt
child-Shrinks Child.undefined s e = tt
child-Shrinks Child.absent s e = tt

count-Shrinks :
    (bytes : Bytes) (s : State)
    → s.parent ≡ Parent.reading
    → 1 ≤ length s.pipe
    → suc (weight (count bytes s)) ≤ weight s
unfolding count
count-Shrinks bytes s e h = elim (Bool-cases (is_terminated (fill s.parent_buf bytes))) [
  | inl t ↦ rw (t, e) (omega (arith, h, length-drop 1024 s.pipe))
  | inr t ↦ rw (t, e) (omega arith)
]

chunk-Shrinks :
    (bytes : Bytes) (s : State)
    → s.parent ≡ Parent.reading
    → length bytes ≤ length s.pipe
    → Shrinks s (read_chunk bytes s)
unfolding read_chunk
chunk-Shrinks [] s e h = ground arith
chunk-Shrinks (c ∷ bytes) s e h = count-Shrinks (c ∷ bytes) s e (omega arith)

parent-Shrinks : (p : Parent) (s : State) → s.parent ≡ p → Shrinks s (turn_parent p s)
unfolding turn_parent reply
parent-Shrinks Parent.opening s e = ground arith
parent-Shrinks Parent.reading s e =
    chunk-Shrinks (take 1024 s.pipe) s e (omega (arith, length-take 1024 s.pipe))
parent-Shrinks Parent.replying s e = ground arith
parent-Shrinks Parent.waiting s e = ground arith
parent-Shrinks Parent.finished s e = tt
parent-Shrinks Parent.undefined s e = tt
parent-Shrinks Parent.killed s e = tt

step-Shrinks : (w : Who) (s : State) → Shrinks s (step w s)
unfolding step
step-Shrinks Who.child s = child-Shrinks s.child s refl
step-Shrinks Who.parent s = parent-Shrinks s.parent s refl

-- The rest of a schedule, behind a step that shrinks the weight.
rest-length :
    (o : Option State) (s : State) (f : State → Option State) (n : ℕ) (last : State)
    → Shrinks s o
    → elim o [ none ↦ none | some u ↦ f u ] ≡ some last
    → ((u : State) → f u ≡ some last → n ≤ weight u)
    → suc n ≤ weight s
rest-length none s f n last h e g = absurd (ground arith)
rest-length (some u) s f n last h e g = omega (arith, g u e)

run-weight :
    (schedule : List Who) (s last : State) → run schedule s ≡ some last → length schedule ≤ weight s
unfolding run
run-weight [] s last e = omega arith
run-weight (w ∷ schedule) s last e =
    rest-length (step w s) s (run schedule) (length schedule) last (step-Shrinks w s) e
      (λ u f. run-weight schedule u last f)

-- Every schedule comes to an end: no more than 81 steps are possible, whether `fork` succeeds or not.
pub run-length :
    (schedule : List Who) (buf : Bytes) (forked : Bool) (s : State)
    → run schedule (start buf forked) ≡ some s
    → length schedule ≤ 81
run-length schedule buf true s e = omega (arith, run-weight schedule (start buf true) s e)
run-length schedule buf false s e = omega (arith, run-weight schedule (start buf false) s e)
