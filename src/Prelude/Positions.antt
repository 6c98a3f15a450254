-- ===== src/Prelude/Positions.antt =====
-- Reading a list at a position, after appending and after writing.
use Prim.Native.Nat.{ℕ, zero, suc}
use mathlib.Core.Path.{◌≡◌, refl, ap}
use mathlib.Core.Logic.{◌⊎◌, inl, inr}
use mathlib.Core.List.{List, [], ◌∷◌, ◌++◌}
use mathlib.Core.Option.{some}
use ece.Prelude.Lists.{length, get_elem?, set}

module _ {ℓ} {A : Type ℓ} where
  pub get_elem?-last : (xs : List A) (a : A) → get_elem? (xs ++ a ∷ []) (length xs) ≡ some a
  get_elem?-last [] a = refl
  get_elem?-last (x ∷ xs) a = get_elem?-last xs a

  pub get_elem?-append :
      (xs ys : List A) (i : ℕ) (a : A) → get_elem? xs i ≡ some a → get_elem? (xs ++ ys) i ≡ some a
  get_elem?-append [] ys i a h = cc
  get_elem?-append (x ∷ xs) ys zero a h = h
  get_elem?-append (x ∷ xs) ys (suc i) a h = get_elem?-append xs ys i a h

  pub get_elem?-append_cases :
      (xs : List A) (a : A) (i : ℕ)
      → (get_elem? (xs ++ a ∷ []) i ≡ get_elem? xs i) ⊎ (get_elem? (xs ++ a ∷ []) i ≡ some a)
  get_elem?-append_cases [] a zero = inr refl
  get_elem?-append_cases [] a (suc i) = inl refl
  get_elem?-append_cases (x ∷ xs) a zero = inl refl
  get_elem?-append_cases (x ∷ xs) a (suc i) = get_elem?-append_cases xs a i

  pub get_elem?-set_cases :
      (xs : List A) (i j : ℕ) (v : A)
      → (get_elem? (set xs j v) i ≡ get_elem? xs i)
        ⊎ ((i ≡ j) × (get_elem? (set xs j v) i ≡ some v))
  get_elem?-set_cases [] i j v = inl refl
  get_elem?-set_cases (x ∷ xs) zero zero v = inr (refl, refl)
  get_elem?-set_cases (x ∷ xs) zero (suc j) v = inl refl
  get_elem?-set_cases (x ∷ xs) (suc i) zero v = inl refl
  get_elem?-set_cases (x ∷ xs) (suc i) (suc j) v = elim (get_elem?-set_cases xs i j v) [
    | inl e ↦ inl e
    | inr (e, f) ↦ inr (ap suc e, f)
  ]

  pub get_elem?-set_self :
      (xs : List A) (i : ℕ) (a v : A) → get_elem? xs i ≡ some a → get_elem? (set xs i v) i ≡ some v
  get_elem?-set_self [] i a v h = cc
  get_elem?-set_self (x ∷ xs) zero a v h = refl
  get_elem?-set_self (x ∷ xs) (suc i) a v h = get_elem?-set_self xs i a v h
