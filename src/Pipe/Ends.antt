-- ===== src/Pipe/Ends.antt =====
-- How the two processes end.
use ece.Prelude.{
  ap, ◌∙◌, ◌++◌, ◌∙◌, ℕ, zero, suc, ◌≡◌, ◌≢◌, ◌⊎◌, inl, inr, refl, sym, arith, true, some, none,
  List, [], ◌∷◌, Bytes, take,
}
use ece.Pipe.{
  response, Child, Parent, State, take_response, turn_child, read_chunk, turn_parent, Who, step,
  run, start,
}
use ece.Pipe.Reads.{InRange}
use ece.Pipe.Counted.{run-Inv, At, all_lines}

abbrev pub CanStep : State → Type 0
CanStep s = (w : Who) × (step w s ≢ none)

-- Both processes have ended, and stdout shows the same count as the lines above it.
abbrev pub HasCounted : State → ℕ → Type 0
HasCounted s num =
    (s.child ≡ Child.ended) × (s.parent ≡ Parent.finished) × (s.stdout ≡ all_lines num)

child_steps : (c : Child) (s : State) → s.child ≡ c → turn_child c s ≢ none → CanStep s
unfolding step
child_steps c s e h = (Who.child, λ g. h (ap (λ x. turn_child x s) (sym e) ∙ g))

parent_steps : (p : Parent) (s : State) → s.parent ≡ p → turn_parent p s ≢ none → CanStep s
unfolding step
parent_steps p s e h = (Who.parent, λ g. h (ap (λ x. turn_parent x s) (sym e) ∙ g))

writing_possible : (n : ℕ) (s : State) → turn_child (Child.writing n) s ≢ none
unfolding turn_child
writing_possible zero s e = ground arith
writing_possible (suc n) s e = ground arith

response_possible : (bytes : Bytes) (s : State) → bytes ≢ [] → take_response bytes s ≢ none
unfolding take_response
response_possible [] s h e = h refl
response_possible (c ∷ bytes) s h e = ground arith

chunk_possible : (bytes : Bytes) (s : State) → s.child ≡ Child.awaiting → read_chunk bytes s ≢ none
unfolding read_chunk
chunk_possible [] s f e = ground arith
chunk_possible (c ∷ bytes) s f e = ground arith

snoc_some : (m : Bytes) → m ++ 0 ∷ [] ≢ []
snoc_some [] e = ground arith
snoc_some (c ∷ m) e = ground arith

take_some : (bytes : Bytes) → bytes ≢ [] → take 1024 bytes ≢ []
take_some [] h e = h refl
take_some (c ∷ bytes) h e = ground arith

At-cases :
    (p : Parent) (c : Child) (k : ℕ) (s : State)
    → s.parent ≡ p
    → s.child ≡ c
    → At p c k s
    → CanStep s ⊎ ((num : ℕ) × InRange num × HasCounted s num)
unfolding turn_child turn_parent
At-cases Parent.opening c k s e f h = inl (parent_steps Parent.opening s e (λ g. ground arith))
At-cases Parent.reading (Child.writing n) k s e f h =
    inl (child_steps (Child.writing n) s f (writing_possible n s))
At-cases Parent.reading Child.awaiting k s e f h =
    inl (parent_steps Parent.reading s e (chunk_possible (take 1024 s.pipe) s f))
At-cases Parent.reading Child.ended k s e f (early, a, b, p, o) = absurd early
At-cases Parent.reading Child.undefined k s e f (early, a, b, p, o) = absurd early
At-cases Parent.reading Child.absent k s e f (early, a, b, p, o) = absurd early
At-cases Parent.replying c k s e f h = inl (parent_steps Parent.replying s e (λ g. ground arith))
At-cases Parent.waiting Child.awaiting k s e f (r, (p, o)) = inl (
    child_steps Child.awaiting s f (
      response_possible (take 1024 s.pipe2) s
        (take_some s.pipe2 (λ g. snoc_some (response s.num) (sym p ∙ g)))))
At-cases Parent.waiting Child.ended k s e f h =
    inl (parent_steps Parent.waiting s e (rw f (λ g. ground arith)))
At-cases Parent.waiting (Child.writing n) k s e f (r, o) = absurd o
At-cases Parent.waiting Child.undefined k s e f (r, o) = absurd o
At-cases Parent.waiting Child.absent k s e f (r, o) = absurd o
At-cases Parent.finished c k s e f (r, w, o) = inr (s.num, r, (f ∙ w, e, o))
At-cases Parent.undefined c k s e f h = absurd h
At-cases Parent.killed c k s e f h = absurd h

-- Under every schedule of the two processes, whatever stands in buf at first: they never block each
-- other, and when neither has a step left, both have ended, and the count in the response is the number of the
-- lines that the parent has printed; it is 1 at least and 5 at most.
pub run-HasCounted :
    (schedule : List Who) (buf : Bytes) (s : State)
    → run schedule (start buf true) ≡ some s
    → CanStep s ⊎ ((num : ℕ) × InRange num × HasCounted s num)
run-HasCounted schedule buf s e =
    let (k, i, b, h) = run-Inv schedule buf s e in At-cases s.parent s.child k s refl refl h
