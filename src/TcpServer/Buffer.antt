-- ===== src/TcpServer/Buffer.antt =====
-- What `printf` shows of the array behind a `read`.
use ece.Prelude.{
  inl, inr, Option-cases, length-append, append-nil, drop_all, ℕ, zero, suc, ◌≤◌, ◌<◌, ◌≡◌, ◌≢◌,
  refl, arith, true, [], ◌∷◌, ◌++◌, Bytes, All, codes, length, drop, ltb, ◌∙◌, some, none, Option,
}
use ece.CString.{c_string}
use ece.TcpServer.{response, answer, zeros, fill, show}
use ece.Sys.{Kernel, Trace, value, Event}

-- The last of the 1024 bytes is a NUL.
abbrev pub Ends : Bytes → Type 0
Ends buffer = drop 1023 buffer ≡ 0 ∷ []

-- No NUL among the bytes.
abbrev pub NoNul : Bytes → Type 0
NoNul = All (λ c. c ≢ 0)

-- The text of a reply of `read`.
abbrev pub text_of : Option Bytes → Bytes
unfolding c_string
text_of none = []
text_of (some m) = c_string m

drop-fill : (n : ℕ) (m b : Bytes) → length m ≤ n → drop n (m ++ drop (length m) b) ≡ drop n b
drop-fill n [] b h = refl
drop-fill zero (c ∷ m) b h = absurd (omega arith)
drop-fill (suc n) (c ∷ m) [] h = drop_all n (m ++ []) (omega (arith, length-append m []))
drop-fill (suc n) (c ∷ m) (x ∷ b) h = drop-fill n m b (omega arith)

pub has-nul : (n : ℕ) (b : Bytes) → drop n b ≡ 0 ∷ [] → ltb (length (c_string b)) (length b) ≡ true
unfolding c_string
has-nul zero [] e = ground arith
has-nul (suc n) [] e = ground arith
has-nul zero (x ∷ b) e = ground arith
has-nul (suc n) (x ∷ b) e = ground (arith, has-nul n b e)

zeros_end : (n : ℕ) → drop n (zeros (suc n)) ≡ 0 ∷ []
zeros_end zero = refl
zeros_end (suc n) = zeros_end n

c_string-append : (m b : Bytes) → NoNul m → c_string (m ++ b) ≡ m ++ c_string b
unfolding c_string
c_string-append [] b h = refl
c_string-append (c ∷ m) b (g, h) = ground (arith, c_string-append m b h)

drop-zeros : (n : ℕ) (m : Bytes) → c_string (drop (length m) (zeros n)) ≡ []
unfolding c_string
drop-zeros zero [] = refl
drop-zeros zero (c ∷ m) = refl
drop-zeros (suc n) [] = refl
drop-zeros (suc n) (c ∷ m) = drop-zeros n m

c_string-zeros : (n : ℕ) (m : Bytes) → c_string (m ++ drop (length m) (zeros n)) ≡ c_string m
unfolding c_string
c_string-zeros n [] = drop-zeros n []
c_string-zeros zero (c ∷ m) = rw (append-nil m) refl
c_string-zeros (suc n) (c ∷ m) = ground (arith, c_string-zeros n m)

pub Ends-fill : (m b : Bytes) → length m < 1024 → Ends b → Ends (fill b (some m))
Ends-fill m b h e = drop-fill 1023 m b (omega arith) ∙ e

pub Ends-zeros : Ends (zeros 1024)
Ends-zeros = zeros_end 1023

-- A message without a NUL is shown with what an earlier one has left behind it.
pub c_string-fill :
    (m b : Bytes) → NoNul m → c_string (fill b (some m)) ≡ m ++ c_string (drop (length m) b)
c_string-fill m b h = c_string-append m (drop (length m) b) h

-- In an array full of zeros there is nothing behind it.
pub c_string-fill-zeros : (m : Option Bytes) → c_string (fill (zeros 1024) m) ≡ text_of m
unfolding c_string
c_string-fill-zeros none = refl
c_string-fill-zeros (some m) = c_string-zeros 1024 m

show-Ends :
    (b : Bytes) (t : Trace)
    → Ends b
    → show b t ≡ (value tt, Event.print (c_string b ++ codes "\n") ∷ t)
unfolding show
show-Ends b t e = rw (has-nul 1023 b e) refl

-- No `read` fills the array.
abbrev pub ShortReads : Kernel → Type 0
ShortReads k = (t : Trace) (fd : ℕ) (m : Bytes) → k.read t fd 1024 ≡ some m → length m < 1024

module _ (k : Kernel) where
  -- A client's message is read, shown as `shown`, and answered.
  abbrev pub answered : Bytes → ℕ → Trace → Trace
  answered shown fd t =
      let u = Event.print (shown ++ codes "\n") ∷ Event.read fd (k.read t fd 1024) ∷ t in
      Event.write fd response (k.write u fd response) ∷ u

  pub Ends-read :
      (b : Bytes) (fd : ℕ) (t : Trace) → ShortReads k → Ends b → Ends (fill b (k.read t fd 1024))
  Ends-read b fd t short e = elim (Option-cases (k.read t fd 1024)) [
    | inl f ↦ rw f e
    | inr (m, f) ↦ rw f (Ends-fill m b (short t fd m f) e)
  ]

  pub answer-Ends :
      (b : Bytes) (fd : ℕ) (t : Trace)
      → Ends (fill b (k.read t fd 1024))
      → answer k b fd t
        ≡ (value (fill b (k.read t fd 1024)), answered (c_string (fill b (k.read t fd 1024))) fd t)
  unfolding answer
  answer-Ends b fd t e =
      rw (show-Ends (fill b (k.read t fd 1024)) (Event.read fd (k.read t fd 1024) ∷ t) e) refl
