-- ===== src/Printers/Progress.antt =====
-- Both strings are printed.
use ece.Prelude.{
  ◌∙◌, map-none, ℕ, ◌≡◌, ◌≢◌, ◌⊎◌, inl, inr, refl, arith, true, false, Option, some, none, List,
  Option-cases, Bool-cases, ◌++◌, Bytes, get_elem?, ◌+◌,
}
use ece.Printers.{
  post_sem, with_child, with_parent, Writer, Reply, View, put_char, wait_sem, turn, State, Action,
  step, run, start, child_text, parent_text, reap_child, child_view, parent_view,
}
use ece.Printers.Order.{run-StateInv, InOrder, holds, so_far}

-- No call of this process has failed.
abbrev pub NoError : Writer → Type 0
NoError Writer.no_wait = ⊥
NoError Writer.no_post = ⊥
NoError _ = Unit

-- A step in which no call fails.
abbrev pub IsDone : Action → Type 0
IsDone (Action.child_turn reply) = reply ≡ Reply.done
IsDone (Action.parent_turn reply) = reply ≡ Reply.done
IsDone Action.reap = Unit

abbrev pub CanStep : State → Type 0
CanStep s = (a : Action) × (s' : State) × IsDone a × (step a s ≡ some s')

-- Both strings have been printed, in one order or the other, and the semaphore has been removed.
abbrev pub Finished : State → Type 0
Finished s =
    (s.removed ≡ true)
    × ((s.stdout ≡ child_text ++ parent_text) ⊎ (s.stdout ≡ parent_text ++ child_text))

possible : (a : Action) (s : State) → IsDone a → step a s ≢ none → CanStep s
possible a s d h = elim (Option-cases (step a s)) [
  | inl e ↦ absurd (h e)
  | inr (s', e) ↦ (a, s', d, e)
]

put_possible : (c : Option ℕ) (i : ℕ) (v : View) → put_char c Reply.done i v ≢ none
unfolding put_char post_sem
put_possible none i v e = ground arith
put_possible (some c) i v e = ground arith

-- A process whose turn is possible.
abbrev Ready : Writer → View → Type 0
Ready Writer.wants v = v.sem ≡ 1
Ready (Writer.prints i) v = Unit
Ready _ v = ⊥

turn_possible : (str : Bytes) (w : Writer) (v : View) → Ready w v → turn str Reply.done w v ≢ none
unfolding turn wait_sem
turn_possible str Writer.wants v h e = ground arith
turn_possible str (Writer.prints i) v h e = put_possible (get_elem? str i) i v e
turn_possible str Writer.left v h e = h
turn_possible str Writer.no_wait v h e = h
turn_possible str Writer.no_post v h e = h

child_possible : (s : State) → Ready s.child (child_view s) → CanStep s
unfolding step
child_possible s h = possible (Action.child_turn Reply.done) s refl (λ e.
    turn_possible child_text s.child (child_view s) h
      (map-none (with_child s) (turn child_text Reply.done s.child (child_view s)) e))

parent_possible : (s : State) → Ready s.parent (parent_view s) → CanStep s
unfolding step
parent_possible s h = possible (Action.parent_turn Reply.done) s refl (λ e.
    turn_possible parent_text s.parent (parent_view s) h
      (map-none (with_parent s) (turn parent_text Reply.done s.parent (parent_view s)) e))

reap_open :
    (w : Writer) (s : State)
    → w ≡ Writer.left
    → s.child ≡ Writer.left
    → s.removed ≡ false
    → reap_child w s ≢ none
unfolding reap_child
reap_open Writer.left s h c r e = ground arith
reap_open Writer.wants s h c r e = ground arith
reap_open (Writer.prints i) s h c r e = ground arith
reap_open Writer.no_wait s h c r e = ground arith
reap_open Writer.no_post s h c r e = ground arith

reap_possible :
    (s : State) → s.child ≡ Writer.left → s.parent ≡ Writer.left → s.removed ≡ false → CanStep s
unfolding step
reap_possible s c p r = possible Action.reap s tt (reap_open s.parent s p c r)

-- The two processes are where `c` and `p` say.
CanStep-cases :
    (s : State) (c p : Writer)
    → s.child ≡ c
    → s.parent ≡ p
    → NoError c
    → NoError p
    → s.sem + holds c + holds p ≡ 1
    → CanStep s ⊎ ((c ≡ Writer.left) × (p ≡ Writer.left))
CanStep-cases s (Writer.prints i) p e f g h m = inl (child_possible s (rw e tt))
CanStep-cases s Writer.wants (Writer.prints j) e f g h m = inl (parent_possible s (rw f tt))
CanStep-cases s Writer.left (Writer.prints j) e f g h m = inl (parent_possible s (rw f tt))
CanStep-cases s Writer.wants Writer.wants e f g h m = inl (child_possible s (rw e (omega arith)))
CanStep-cases s Writer.wants Writer.left e f g h m = inl (child_possible s (rw e (omega arith)))
CanStep-cases s Writer.left Writer.wants e f g h m = inl (parent_possible s (rw f (omega arith)))
CanStep-cases s Writer.left Writer.left e f g h m = inr (refl, refl)
CanStep-cases s Writer.wants Writer.no_wait e f g h m = absurd h
CanStep-cases s Writer.wants Writer.no_post e f g h m = absurd h
CanStep-cases s Writer.left Writer.no_wait e f g h m = absurd h
CanStep-cases s Writer.left Writer.no_post e f g h m = absurd h
CanStep-cases s Writer.no_wait p e f g h m = absurd g
CanStep-cases s Writer.no_post p e f g h m = absurd g

both_texts :
    (str str' : Bytes) (w w' : Writer)
    → w ≡ Writer.left
    → w' ≡ Writer.left
    → so_far str w ++ so_far str' w' ≡ str ++ str'
both_texts str str' w w' e f = rw (e, f) refl

left_out :
    (str str' : Bytes) (w w' : Writer) (out : Bytes)
    → w ≡ Writer.left
    → w' ≡ Writer.left
    → InOrder str w str' w' out ⊎ InOrder str' w' str w out
    → (out ≡ str ++ str') ⊎ (out ≡ str' ++ str)
left_out str str' w w' out e f (inl (g, idle)) = inl (g ∙ both_texts str str' w w' e f)
left_out str str' w w' out e f (inr (g, idle)) = inr (g ∙ both_texts str' str w' w f e)

-- With a semaphore of value 1, at every point of every schedule up to which no call has failed: some
-- process can make its next step, or else all of the one string and all of the other has been printed,
-- in one order or the other, and the parent has removed the semaphore.
pub run-Finished :
    (actions : List Action) (s : State)
    → run actions (start 1) ≡ some s
    → NoError s.child
    → NoError s.parent
    → CanStep s ⊎ Finished s
run-Finished actions s e c p =
    let h = run-StateInv actions s e in
    elim (CanStep-cases s s.child s.parent refl refl c p (h.0)) [
      | inl g ↦ inl g
      | inr (f, g) ↦ elim (Bool-cases s.removed) [
        | inl r ↦ inr (r, left_out child_text parent_text s.child s.parent s.stdout f g (h.1))
        | inr r ↦ inl (reap_possible s f g r)
      ]
    ]
