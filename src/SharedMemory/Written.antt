-- ===== src/SharedMemory/Written.antt =====
-- Both lines get into the segment whole.
use mathlib.Core.Option
use ece.Prelude.{
  Holds, Holds-bind, Holds-map, ℕ, ◌+◌, ◌≡◌, ◌<◌, ◌⊎◌, inl, inr, refl, sym, ◌∙◌, ap, arith, Option,
  some, List, [], ◌∷◌, ◌++◌, append-nil, Bytes, length,
}
use ece.CString.Lines.Whole.{IsText}
use ece.SharedMemory.{
  Child, Reply, View, sem_wait, sem_post, with_end, with_text, strlen, put_text, turn, State,
  Action, first_line, second_line, first_view, second_view, with_first, with_second, step, run,
  start,
}
use ece.SharedMemory.Filled.{filled, strlen-filled, put_text-filled}

-- What a child with that line has put into the segment.
abbrev pub text_of : Bytes → Child → Bytes
text_of line Child.written = line
text_of line Child.left = line
text_of line _ = []

-- What it has taken from the semaphore and not given back.
abbrev pub holds : Child → ℕ
holds Child.inside = 1
holds (Child.at_end off) = 1
holds Child.written = 1
holds _ = 0

-- The place that it has computed is the end of what the other has written.
abbrev pub AtEnd : Child → Bytes → Type 0
AtEnd (Child.at_end off) t = off ≡ length t
AtEnd _ t = Unit

-- The segment holds both texts, in one order or the other.
abbrev pub Content : Bytes → Bytes → Bytes → Type 0
Content t u shm = (shm ≡ filled (t ++ u)) ⊎ (shm ≡ filled (u ++ t))

-- The invariant, as the child `c` sees it.
abbrev pub Inv : Bytes → Child → Bytes → Child → View → Type 0
Inv line c line' c' v =
    (v.sem + holds c + holds c' ≡ 1)
    × Content (text_of line c) (text_of line' c') v.shm
    × AtEnd c (text_of line' c')
    × AtEnd c' (text_of line c)

-- A line without a NUL, of which two fit the segment.
abbrev pub IsLine : Bytes → Type 0
IsLine line = IsText line × (length line < 500)

pub text_of-IsLine : (line : Bytes) (c : Child) → IsLine line → IsLine (text_of line c)
text_of-IsLine line Child.written h = h
text_of-IsLine line Child.left h = h
text_of-IsLine line Child.wants h = (tt, omega arith)
text_of-IsLine line Child.inside h = (tt, omega arith)
text_of-IsLine line (Child.at_end off) h = (tt, omega arith)
text_of-IsLine line Child.gave_up h = (tt, omega arith)

-- Outside, a child has computed no place.
outside-AtEnd : (c : Child) (t : Bytes) → holds c ≡ 0 → AtEnd c t
outside-AtEnd (Child.at_end off) t h = absurd (omega arith)
outside-AtEnd Child.wants t h = tt
outside-AtEnd Child.inside t h = tt
outside-AtEnd Child.written t h = tt
outside-AtEnd Child.left t h = tt
outside-AtEnd Child.gave_up t h = tt

-- Only one of them has written.
pub one_text : (u shm : Bytes) → Content [] u shm → shm ≡ filled u
one_text u shm (inl e) = e
one_text u shm (inr e) = rw e (ap filled (append-nil u))

module _ (line line' : Bytes) (c' : Child) (h_line : IsLine line) (h_line' : IsLine line') where
  -- What a turn keeps.
  abbrev Keeps : Option View → Type 0
  Keeps o = Holds o (λ u. Inv line u.child line' c' u)

  wait-Inv : (reply : Reply) (v : View) → Inv line Child.wants line' c' v → Keeps (sem_wait reply v)
  unfolding sem_wait
  wait-Inv Reply.done v (m, h, p, q) = ground arith
  wait-Inv Reply.error v (m, h, p, q) = (omega (arith, m), h, tt, q)

  strlen-Inv :
      (v : View) → Inv line Child.inside line' c' v → Keeps (Option.map (with_end v) (strlen v.shm))
  strlen-Inv v (m, h, p, q) =
      let t = text_of-IsLine line' c' h_line' in
      rw
        (
          one_text (text_of line' c') v.shm h,
          strlen-filled (text_of line' c') t.0 (omega (arith, t.1)),
        )
        (omega (arith, m), inl refl, refl, q)

  put-Inv :
      (off : ℕ) (v : View)
      → Inv line (Child.at_end off) line' c' v
      → Keeps (Option.map (with_text v) (put_text v.shm off line))
  put-Inv off v (m, h, p, q) =
      let t = text_of-IsLine line' c' h_line' in
      rw
        (
          p,
          one_text (text_of line' c') v.shm h,
          put_text-filled (text_of line' c') line (omega (arith, t.1, h_line.1)),
        )
        (omega (arith, m), inr refl, tt, outside-AtEnd c' line (omega (arith, m)))

  post-Inv :
      (reply : Reply) (v : View) → Inv line Child.written line' c' v → Keeps (sem_post reply v)
  unfolding sem_post
  post-Inv Reply.done v (m, h, p, q) = (omega (arith, m), h, tt, q)
  post-Inv Reply.error v (m, h, p, q) = (omega (arith, m), h, tt, q)

  turn-Inv :
      (reply : Reply) (c : Child) (v : View) → Inv line c line' c' v → Keeps (turn line reply c v)
  unfolding turn
  turn-Inv reply Child.wants v h = wait-Inv reply v h
  turn-Inv reply Child.inside v h = strlen-Inv v h
  turn-Inv reply (Child.at_end off) v h = put-Inv off v h
  turn-Inv reply Child.written v h = post-Inv reply v h
  turn-Inv reply Child.left v h = tt
  turn-Inv reply Child.gave_up v h = tt

-- The same, as the other child sees it.
pub Inv-swap :
    (line line' : Bytes) (c c' : Child) (v u : View)
    → v.sem ≡ u.sem
    → v.shm ≡ u.shm
    → Inv line c line' c' v
    → Inv line' c' line c u
Inv-swap line line' c c' v u e f (m, inl g, p, q) = (omega (arith, m, e), inr (sym f ∙ g), q, p)
Inv-swap line line' c c' v u e f (m, inr g, p, q) = (omega (arith, m, e), inl (sym f ∙ g), q, p)

abbrev pub StateInv : State → Type 0
StateInv s = Inv first_line s.first second_line s.second (first_view s)

pub first-IsLine : IsLine first_line
first-IsLine = ground arith

pub second-IsLine : IsLine second_line
second-IsLine = ground arith

step-Inv : (a : Action) (s : State) → StateInv s → Holds (step a s) StateInv
unfolding step
step-Inv (Action.first_turn reply) s h =
    Holds-map (turn first_line reply s.first (first_view s)) (with_first s) _ _
      (turn-Inv first_line second_line s.second first-IsLine second-IsLine reply s.first
        (first_view s) h)
      (λ v g. g)
step-Inv (Action.second_turn reply) s h =
    Holds-map (turn second_line reply s.second (second_view s)) (with_second s) _ _
      (turn-Inv second_line first_line s.first second-IsLine first-IsLine reply s.second
        (second_view s)
        (Inv-swap first_line second_line s.first s.second (first_view s) (second_view s) refl refl
          h))
      (λ v g.
        Inv-swap second_line first_line v.child s.first v (first_view (with_second s v)) refl refl
          g)

run-Keeps : (actions : List Action) (s : State) → StateInv s → Holds (run actions s) StateInv
unfolding run
run-Keeps [] s h = h
run-Keeps (a ∷ actions) s h =
    Holds-bind (step a s) (run actions) _ _ (step-Inv a s h) (run-Keeps actions)

pub run-StateInv : (actions : List Action) (s : State) → run actions start ≡ some s → StateInv s
run-StateInv actions s e = rw e at (run-Keeps actions start (omega arith, inl refl, tt, tt))
