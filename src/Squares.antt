-- ===== src/Squares.antt =====
-- MidtermPractice/q13/main.c: two children, one after the other, write the squares of the arguments into
-- a pipe, and the parent prints the difference. The children's `write` does not fail.
mod Tests
use ece.Prelude.{
  ℕ, suc, ◌+◌, ◌*◌, ◌≤◌, ◌≡◌, ◌⊎◌, inl, inr, refl, arith, Bool, Bool-cases, true, false, not, ◌&&◌,
  ◌||◌, List, [], ◌∷◌, Bytes, ℤ, pos, negsuc, sub_ℕ, ltb_ℤ, pos_part, neg_part, if◌then◌else◌,
}
use native.Mathlib.Nat.{mul-le-mul_left}
use ece.CString.{atoi}

-- `main` exits with EXIT_FAILURE, or prints a number and returns 0.
pub data End : Type 0 where
  failed : End
  printed : (result : ℤ) → End

-- `a < -100 || a > 100`.
unfoldable pub is_out_of_range : ℤ → Bool
is_out_of_range a = ltb_ℤ a (negsuc 99) || ltb_ℤ (pos 100) a

-- `a * a`, in a child.
unfoldable pub square : ℤ → ℕ
square (pos n) = n * n
square (negsuc n) = suc n * suc n

-- What each of the parent's calls comes to, in order.
pub record Replies : Type 0 where
  pub pipe : Bool
  pub fork1 : Bool
  pub read1 : Bool
  pub fork2 : Bool
  pub read2 : Bool

-- Behind the checks of the arguments.
unfoldable pub difference : ℤ → ℤ → Replies → End
difference a b r =
    if not r.pipe
    then End.failed
    else if not r.fork1
    then End.failed
    else if not r.read1
    then End.failed
    else if not r.fork2
    then End.failed
    else if not r.read2
    then End.failed
    else End.printed (sub_ℕ (square a) (square b))

unfoldable pub check_range : ℤ → ℤ → Replies → End
check_range a b r =
    if is_out_of_range a
    then End.failed
    else if is_out_of_range b
    then End.failed
    else difference a b r

-- `main`, with `argv` behind the name of the program.
unfoldable pub main : List Bytes → Replies → End
main (arg1 ∷ arg2 ∷ []) r = check_range (atoi arg1) (atoi arg2) r
main _ r = End.failed

-- Every call succeeds.
abbrev pub AllSucceed : Replies → Type 0
AllSucceed r =
    (r.pipe ≡ true) × (r.fork1 ≡ true) × (r.read1 ≡ true) × (r.fork2 ≡ true) × (r.read2 ≡ true)

abbrev pub IsDifference : ℤ → ℤ → ℤ → Type 0
IsDifference a b z =
    (pos_part z + square b ≡ square a + neg_part z) × (pos_part z ≤ 10000) × (neg_part z ≤ 10000)

square-bound : (a : ℤ) → is_out_of_range a ≡ false → square a ≤ 10000
unfolding square is_out_of_range
square-bound (pos n) h = let m : n ≤ 100 = ground arith in omega (arith, mul-le-mul_left n m)
square-bound (negsuc n) h =
    let m : suc n ≤ 100 = ground arith in omega (arith, mul-le-mul_left (suc n) m)

square-IsDifference :
    (a b : ℤ) → square a ≤ 10000 → square b ≤ 10000 → IsDifference a b (sub_ℕ (square a) (square b))
square-IsDifference a b h g = ground arith

-- With two arguments in -100 .. 100, if every call succeeds, the number printed is the difference of their
-- squares, which fits an `int`; an argument out of this range ends the run with EXIT_FAILURE.
pub check_range-cases :
    (a b : ℤ) (r : Replies)
    → AllSucceed r
    → ((z : ℤ) × (check_range a b r ≡ End.printed z) × IsDifference a b z)
      ⊎ ((check_range a b r ≡ End.failed) × (is_out_of_range a || is_out_of_range b ≡ true))
unfolding check_range difference
check_range-cases a b r (p, f, x, g, y) = elim (Bool-cases (is_out_of_range a)) [
  | inl h ↦ inr (rw h refl, rw h refl)
  | inr h ↦ elim (Bool-cases (is_out_of_range b)) [
    | inl h' ↦ inr (rw (h, h') refl, rw (h, h') refl)
    | inr h' ↦ inl (
      sub_ℕ (square a) (square b),
      rw (h, h', p, f, x, g, y) refl,
      square-IsDifference a b (square-bound a h) (square-bound b h'),
    )
  ]
]
