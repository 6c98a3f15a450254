-- ===== src/Printers/Order.antt =====
-- The strings are not mixed.
use ece.Prelude.{
  Holds, Holds-bind, Holds-map, ℕ, zero, suc, ◌+◌, ◌≡◌, ◌⊎◌, inl, inr, refl, arith, Option, some,
  none, List, [], ◌∷◌, ◌++◌, append-nil, append_assoc, Bytes, take, get_elem?, ap, ◌∙◌, sym,
}
use ece.Printers.{
  post_sem, Writer, Reply, View, put_char, wait_sem, turn, State, Action, step, run, start,
  child_text, parent_text, reap_child, with_child, with_parent, child_view, parent_view,
}

-- What a process with the string `str` has printed.
abbrev pub so_far : Bytes → Writer → Bytes
so_far str Writer.wants = []
so_far str (Writer.prints i) = take i str
so_far str Writer.left = str
so_far str Writer.no_wait = []
so_far str Writer.no_post = str

-- It is not in the middle of its string.
abbrev pub Idle : Writer → Type 0
Idle (Writer.prints i) = ⊥
Idle _ = Unit

-- What it has taken from the semaphore and not given back.
abbrev pub holds : Writer → ℕ
holds (Writer.prints i) = 1
holds Writer.no_post = 1
holds _ = 0

-- First the one has printed, and is done with it, then the other.
abbrev pub InOrder : Bytes → Writer → Bytes → Writer → Bytes → Type 0
InOrder str w str' w' out = (out ≡ so_far str w ++ so_far str' w') × Idle w

abbrev EitherOrder : Bytes → Writer → Bytes → Writer → Bytes → Type 0
EitherOrder str w str' w' out = InOrder str w str' w' out ⊎ InOrder str' w' str w out

-- The invariant, as the process `w` sees it.
abbrev Inv : Bytes → Writer → Bytes → Writer → View → Type 0
Inv str w str' w' v = (v.sem + holds w + holds w' ≡ 1) × EitherOrder str w str' w' v.stdout

take-next :
    (str : Bytes) (i c : ℕ) → get_elem? str i ≡ some c → take (suc i) str ≡ take i str ++ c ∷ []
take-next [] i c e = absurd (ground arith)
take-next (x ∷ str) zero c e = ap (λ v. v ∷ []) (ground arith)
take-next (x ∷ str) (suc i) c e = ap (λ q. x ∷ q) (take-next str i c e)

take-all : (str : Bytes) (i : ℕ) → get_elem? str i ≡ none → take i str ≡ str
take-all [] zero e = refl
take-all [] (suc i) e = refl
take-all (x ∷ str) zero e = cc
take-all (x ∷ str) (suc i) e = ap (λ q. x ∷ q) (take-all str i e)

holds-Idle : (w : Writer) → holds w ≡ 0 → Idle w
holds-Idle (Writer.prints i) h = absurd (omega arith)
holds-Idle Writer.wants h = tt
holds-Idle Writer.left h = tt
holds-Idle Writer.no_wait h = tt
holds-Idle Writer.no_post h = tt

-- Nothing printed yet: all is the other's.
wants_out :
    (str str' : Bytes) (w' : Writer) (out : Bytes)
    → EitherOrder str Writer.wants str' w' out
    → out ≡ so_far str' w' ++ []
wants_out str str' w' out (inl (e, h)) = e ∙ sym (append-nil (so_far str' w'))
wants_out str str' w' out (inr (e, h)) = e

-- In the middle of a string: the other's is before it.
prints_out :
    (str str' : Bytes) (i : ℕ) (w' : Writer) (out : Bytes)
    → EitherOrder str (Writer.prints i) str' w' out
    → InOrder str' w' str (Writer.prints i) out
prints_out str str' i w' out (inl (e, h)) = absurd h
prints_out str str' i w' out (inr g) = g

module _ (str str' : Bytes) (w' : Writer) where
  -- What a turn keeps.
  abbrev Keeps : Option View → Type 0
  Keeps o = Holds o (λ u. Inv str u.writer str' w' u)

  wait-Inv : (reply : Reply) (v : View) → Inv str Writer.wants str' w' v → Keeps (wait_sem reply v)
  unfolding wait_sem
  wait-Inv Reply.done v (m, o) = ground (arith, wants_out str str' w' v.stdout o, holds-Idle w')
  wait-Inv Reply.error v (m, o) =
      (omega (arith, m), inl (wants_out str str' w' v.stdout o ∙ append-nil (so_far str' w'), tt))

  -- At the end of the string.
  all_out :
      (i : ℕ) (out : Bytes)
      → get_elem? str i ≡ none
      → EitherOrder str (Writer.prints i) str' w' out
      → (out ≡ so_far str' w' ++ str) × Idle w'
  all_out i out e o =
      let g = prints_out str str' i w' out o in
      (g.0 ∙ ap (λ q. so_far str' w' ++ q) (take-all str i e), g.1)

  put-Inv :
      (c : Option ℕ) (reply : Reply) (i : ℕ) (v : View)
      → get_elem? str i ≡ c
      → Inv str (Writer.prints i) str' w' v
      → Keeps (put_char c reply i v)
  unfolding put_char post_sem
  put-Inv (some c) Reply.done i v e (m, o) =
      let g = prints_out str str' i w' v.stdout o in
      (
        omega (arith, m),
        inr (
          rw (g.0, take-next str i c e) (append_assoc (so_far str' w') (take i str) (c ∷ [])),
          g.1,
        ),
      )
  put-Inv (some c) Reply.error i v e (m, o) = tt
  put-Inv none Reply.done i v e (m, o) = (omega (arith, m), inr (all_out i v.stdout e o))
  put-Inv none Reply.error i v e (m, o) = (omega (arith, m), inr (all_out i v.stdout e o))

  turn-Inv :
      (reply : Reply) (w : Writer) (v : View) → Inv str w str' w' v → Keeps (turn str reply w v)
  unfolding turn
  turn-Inv reply Writer.wants v h = wait-Inv reply v h
  turn-Inv reply (Writer.prints i) v h = put-Inv (get_elem? str i) reply i v refl h
  turn-Inv reply Writer.left v h = tt
  turn-Inv reply Writer.no_wait v h = tt
  turn-Inv reply Writer.no_post v h = tt

-- The same, as the other process sees it.
Inv-swap :
    (str str' : Bytes) (w w' : Writer) (v u : View)
    → v.sem ≡ u.sem
    → v.stdout ≡ u.stdout
    → Inv str w str' w' v
    → Inv str' w' str w u
Inv-swap str str' w w' v u e f (m, inl g) = (omega (arith, m, e), inr (sym f ∙ g.0, g.1))
Inv-swap str str' w w' v u e f (m, inr g) = (omega (arith, m, e), inl (sym f ∙ g.0, g.1))

abbrev pub StateInv : State → Type 0
StateInv s = Inv child_text s.child parent_text s.parent (child_view s)

reap-Inv : (w : Writer) (s : State) → StateInv s → Holds (reap_child w s) StateInv
unfolding reap_child
reap-Inv Writer.left s h = ground arith
reap-Inv Writer.wants s h = tt
reap-Inv (Writer.prints i) s h = tt
reap-Inv Writer.no_wait s h = tt
reap-Inv Writer.no_post s h = tt

pub step-Inv : (a : Action) (s : State) → StateInv s → Holds (step a s) StateInv
unfolding step
step-Inv (Action.child_turn reply) s h =
    Holds-map (turn child_text reply s.child (child_view s)) (with_child s) _ _
      (turn-Inv child_text parent_text s.parent reply s.child (child_view s) h) (λ v g. g)
step-Inv (Action.parent_turn reply) s h =
    Holds-map (turn parent_text reply s.parent (parent_view s)) (with_parent s) _ _
      (turn-Inv parent_text child_text s.child reply s.parent (parent_view s) (
        Inv-swap child_text parent_text s.child s.parent (child_view s) (parent_view s) refl refl
          h))
      (λ v g.
        Inv-swap parent_text child_text v.writer s.child v (child_view (with_parent s v)) refl refl
          g)
step-Inv Action.reap s h = reap-Inv s.parent s h

run-Keeps : (actions : List Action) (s : State) → StateInv s → Holds (run actions s) StateInv
unfolding run
run-Keeps [] s h = h
run-Keeps (a ∷ actions) s h =
    Holds-bind (step a s) (run actions) _ _ (step-Inv a s h) (run-Keeps actions)

pub run-StateInv : (actions : List Action) (s : State) → run actions (start 1) ≡ some s → StateInv s
run-StateInv actions s e = rw e at (run-Keeps actions (start 1) (refl, inl (refl, tt)))

-- With a semaphore of value 1, at every point of every schedule, also if calls of `sem_wait` and
-- `sem_post` fail: what is on stdout is what the one process has printed of its string, followed by what
-- the other has; and the first of the two is not in the middle of its string.
pub run-InOrder :
    (actions : List Action) (s : State)
    → run actions (start 1) ≡ some s
    → InOrder child_text s.child parent_text s.parent s.stdout
      ⊎ InOrder parent_text s.parent child_text s.child s.stdout
run-InOrder actions s e = (run-StateInv actions s e).1
