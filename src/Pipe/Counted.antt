-- ===== src/Pipe/Counted.antt =====
-- What the parent counts.
use ece.Prelude.{
  Holds-bind, Holds-weaken, Holds, ℕ, zero, suc, ◌+◌, ◌*◌, ◌≤◌, ◌≡◌, refl, ap, ◌∙◌, arith, List, [],
  ◌∷◌, ◌++◌, Bytes, codes, length, take, drop,
}
use ece.Pipe.Reads.{
  copies, InRange, copies-suc, take-copies, drop-copies, c_string-nul, response-Answered,
}
use ece.Pipe.{
  some, start, step, run, Who, reply, turn_parent, count, true, false, has_replied, read_chunk,
  take_response, turn_child, Child, Parent, State, text, response,
}

-- The lines that the parent prints of them, and all that is printed.
abbrev pub counts : ℕ → List Bytes
counts zero = []
counts (suc num) = counts num ++ (codes "from child: " ++ text ++ codes "\n") ∷ []

abbrev pub all_lines : ℕ → List Bytes
all_lines num =
    counts num ++ codes "----------\n" ∷ (codes "Response: " ++ response num ++ codes "\n") ∷ []

abbrev pub left : Child → ℕ
left (Child.writing n) = n
left _ = 0

abbrev pub Early : Child → Type 0
Early (Child.writing n) = Unit
Early Child.awaiting = Unit
Early _ = ⊥

-- With `k` messages in the pipe.
abbrev pub Loop : Child → ℕ → State → Type 0
Loop c k s =
    Early c
    × (k + left c + s.num ≤ 5)
    × (5 ≤ k + left c + 5 * s.num)
    × (s.pipe2 ≡ [])
    × (s.stdout ≡ counts s.num)

-- Behind the loop of the parent.
abbrev pub Replied : Child → State → Type 0
Replied Child.awaiting s = (s.pipe2 ≡ response s.num ++ 0 ∷ []) × (s.stdout ≡ counts s.num)
Replied Child.ended s = s.stdout ≡ all_lines s.num
Replied _ s = ⊥

abbrev pub At : Parent → Child → ℕ → State → Type 0
At Parent.opening c k s = Loop c k s
At Parent.reading c k s = Loop c k s
At Parent.replying c k s =
    (c ≡ Child.awaiting) × InRange s.num × (s.pipe2 ≡ []) × (s.stdout ≡ counts s.num)
At Parent.waiting c k s = InRange s.num × Replied c s
At Parent.finished c k s = InRange s.num × (c ≡ Child.ended) × (s.stdout ≡ all_lines s.num)
At Parent.undefined c k s = ⊥
At Parent.killed c k s = ⊥

abbrev pub Inv : State → Type 0
Inv s = (k : ℕ) × (s.pipe ≡ copies k) × (k ≤ 5) × At s.parent s.child k s

-- The loop, behind a step of the child, with the parent where it was.
abbrev Kept : State → State → Type 0
Kept s s' = ((k : ℕ) × (s'.pipe ≡ copies k) × (k ≤ 5) × Loop s'.child k s') × (s'.parent ≡ s.parent)

child-Loop :
    (c : Child) (k : ℕ) (s : State)
    → s.pipe ≡ copies k
    → has_replied s.parent ≡ false
    → Loop c k s
    → Holds (turn_child c s) (Kept s)
unfolding turn_child take_response
child-Loop (Child.writing (suc n)) k s e f (early, a, b, p, o) = (
  (suc k, rw e (copies-suc k), omega (arith, a), (tt, omega (arith, a), omega (arith, b), p, o)),
  refl,
)
child-Loop (Child.writing zero) k s e f (early, a, b, p, o) =
    ((k, e, omega (arith, a), (tt, a, b, p, o)), refl)
child-Loop Child.awaiting k s e f (early, a, b, p, o) = rw (p, f) tt
child-Loop Child.ended k s e f (early, a, b, p, o) = absurd early
child-Loop Child.undefined k s e f (early, a, b, p, o) = absurd early
child-Loop Child.absent k s e f (early, a, b, p, o) = absurd early

-- A message more is counted, and the pipe is empty.
count-Loop :
    (c : Child) (k : ℕ) (s : State)
    → s.child ≡ c
    → s.parent ≡ Parent.reading
    → s.pipe ≡ copies (suc k)
    → suc k ≤ 5
    → Loop c (suc k) s
    → Inv (count (copies (suc k)) s)
unfolding count
count-Loop c k s e f g b (early, m, n, p, o) =
    let (t, u) = c_string-nul text (copies k ++ drop (length (copies (suc k))) s.parent_buf) refl in
    let d : drop 1024 s.pipe ≡ [] = rw g (drop-copies (suc k) b) in
    let one : s.num + 1 ≡ suc s.num = omega arith in
    rw (u, f, e, one)
      (
        zero,
        d,
        omega arith,
        (
          early,
          omega (arith, m),
          omega (arith, n),
          p,
          ap (λ q. q ++ (codes "from child: " ++ text ++ codes "\n") ∷ []) o,
        ),
      )

-- The loop, behind a round of the parent.
parent-Loop :
    (c : Child) (k : ℕ) (s : State)
    → s.child ≡ c
    → s.parent ≡ Parent.reading
    → s.pipe ≡ copies k
    → k ≤ 5
    → Loop c k s
    → Holds (read_chunk (take 1024 s.pipe) s) Inv
unfolding read_chunk
parent-Loop (Child.writing n) zero s e f g b h = rw (g, e) tt
parent-Loop Child.awaiting zero s e f g b (early, m, n, p, o) =
    rw (g, e) (zero, refl, omega arith, (refl, (omega arith, omega arith), p, o))
parent-Loop Child.ended zero s e f g b (early, m, n, p, o) = absurd early
parent-Loop Child.undefined zero s e f g b (early, m, n, p, o) = absurd early
parent-Loop Child.absent zero s e f g b (early, m, n, p, o) = absurd early
parent-Loop c (suc k) s e f g b h =
    let t : take 1024 s.pipe ≡ copies (suc k) = rw g (take-copies (suc k) b) in
    rw t (count-Loop c k s e f g b h)

-- A step from a state behind the loop.
child-Inv :
    (p : Parent) (c : Child) (k : ℕ) (s : State)
    → s.parent ≡ p
    → s.child ≡ c
    → s.pipe ≡ copies k
    → k ≤ 5
    → At p c k s
    → Holds (turn_child c s) Inv
unfolding turn_child take_response
child-Inv Parent.opening c k s e f g b h =
    Holds-weaken (turn_child c s) _ _ (child-Loop c k s g (rw e refl) h)
      (λ s' ((k', i, j, l), q). rw (q, e) (k', i, j, l))
child-Inv Parent.reading c k s e f g b h =
    Holds-weaken (turn_child c s) _ _ (child-Loop c k s g (rw e refl) h)
      (λ s' ((k', i, j, l), q). rw (q, e) (k', i, j, l))
child-Inv Parent.replying c k s e f g b (w, r, p, o) = rw (w, p, e) tt
child-Inv Parent.waiting Child.awaiting k s e f g b (r, (p, o)) =
    Holds-weaken (turn_child Child.awaiting s) _ _ (response-Answered s r p)
      (λ s' (x, y, z, u, v). rw (y, e, x) (k, z ∙ g, b, (rw u r, rw (u, v, o) refl)))
child-Inv Parent.waiting Child.ended k s e f g b h = tt
child-Inv Parent.waiting (Child.writing n) k s e f g b (r, o) = absurd o
child-Inv Parent.waiting Child.undefined k s e f g b (r, o) = absurd o
child-Inv Parent.waiting Child.absent k s e f g b (r, o) = absurd o
child-Inv Parent.finished c k s e f g b (r, w, o) = rw w tt
child-Inv Parent.undefined c k s e f g b h = absurd h
child-Inv Parent.killed c k s e f g b h = absurd h

parent-Inv :
    (p : Parent) (c : Child) (k : ℕ) (s : State)
    → s.parent ≡ p
    → s.child ≡ c
    → s.pipe ≡ copies k
    → k ≤ 5
    → At p c k s
    → Holds (turn_parent p s) Inv
unfolding turn_parent reply
parent-Inv Parent.opening c k s e f g b h = rw f (k, g, b, h)
parent-Inv Parent.reading c k s e f g b h = parent-Loop c k s f e g b h
parent-Inv Parent.replying c k s e f g b (w, r, p, o) = rw (f, w) (k, g, b, (r, (rw p refl, o)))
parent-Inv Parent.waiting Child.ended k s e f g b (r, o) = rw f (k, g, b, (r, refl, o))
parent-Inv Parent.waiting Child.awaiting k s e f g b (r, o) = rw f tt
parent-Inv Parent.waiting (Child.writing n) k s e f g b (r, o) = absurd o
parent-Inv Parent.waiting Child.undefined k s e f g b (r, o) = absurd o
parent-Inv Parent.waiting Child.absent k s e f g b (r, o) = absurd o
parent-Inv Parent.finished c k s e f g b h = tt
parent-Inv Parent.undefined c k s e f g b h = tt
parent-Inv Parent.killed c k s e f g b h = tt

step-Inv : (w : Who) (s : State) → Inv s → Holds (step w s) Inv
unfolding step
step-Inv Who.child s (k, e, b, h) = child-Inv s.parent s.child k s refl refl e b h
step-Inv Who.parent s (k, e, b, h) = parent-Inv s.parent s.child k s refl refl e b h

run-Keeps : (schedule : List Who) (s : State) → Inv s → Holds (run schedule s) Inv
unfolding run
run-Keeps [] s h = h
run-Keeps (w ∷ schedule) s h =
    Holds-bind (step w s) (run schedule) _ _ (step-Inv w s h) (run-Keeps schedule)

pub run-Inv :
    (schedule : List Who) (buf : Bytes) (s : State) → run schedule (start buf true) ≡ some s → Inv s
run-Inv schedule buf s e = rw e at (
    run-Keeps schedule (start buf true)
      (zero, refl, omega arith, (tt, omega arith, omega arith, refl, refl)))
