-- ===== src/PartialSums/Total.antt =====
-- The parts add up, in whatever order they arrive.
use mathlib.Core.List.{Perm, Permᴰ}
use native.Mathlib.Nat.{mul-div_cancel_left, ℕ_set, le-div_iff_mul-le, div-mul-le_self}
use mathlib.Core.Logic.{∥∥₁_elim}
use ece.Prelude.{
  ℤ, pos, negsuc, ◌∙◌, ◌^◌, ◌^◌, ◌<◌, ◌-◌, ℕ, zero, suc, ◌+◌, ◌-◌, ◌*◌, ◌/◌, ◌≡◌, ◌≤◌, ◌<◌, List,
  [], ◌∷◌, ◌++◌, refl, arith, some, pos, Bytes,
}
use ece.CString.{atoi}
use ece.PartialSums.{sum_loop, compute_partial_sum, child_sum, children, add_up, accepted, main}

-- The parts add up in closed form.
sum_loop-closed :
    (rounds a s : ℕ)
    → 2 * sum_loop rounds (a + 1) s + a * (a + 1) ≡ 2 * s + (a + rounds) * (a + rounds + 1)
unfolding sum_loop
sum_loop-closed zero a s = omega arith
sum_loop-closed (suc rounds) a s = omega (arith, sum_loop-closed rounds (a + 1) (s + (a + 1)))

compute_partial_sum-closed :
    (a b : ℕ) → a ≤ b → 2 * compute_partial_sum (a + 1) b + a * (a + 1) ≡ b * (b + 1)
unfolding compute_partial_sum
compute_partial_sum-closed a b h =
    let rounds : b + 1 - (a + 1) ≡ b - a = omega arith in
    let end : a + (b - a) ≡ b = omega arith in
    rw (rounds, sum_loop-closed (b - a) a 0) (rw end (omega arith))

add_up-append : (xs ys : List ℕ) (s : ℕ) → add_up (xs ++ ys) s ≡ add_up ys (add_up xs s)
unfolding add_up
add_up-append [] ys s = refl
add_up-append (x ∷ xs) ys s = add_up-append xs ys (s + x)

pub bound_mono : (n p i : ℕ) → 0 < p → i * n / p ≤ (i + 1) * n / p
bound_mono n p i h =
    (le-div_iff_mul-le {x = i * n / p} h).1 (omega (arith, div-mul-le_self (i * n) p))

child_sum-closed :
    (n p i : ℕ)
    → 0 < p
    → 2 * child_sum n p i + i * n / p * (i * n / p + 1) ≡ (i + 1) * n / p * ((i + 1) * n / p + 1)
unfolding child_sum
child_sum-closed n p i h =
    compute_partial_sum-closed (i * n / p) ((i + 1) * n / p) (bound_mono n p i h)

children-total : (n p i : ℕ) → 0 < p → 2 * add_up (children n p i) 0 ≡ i * n / p * (i * n / p + 1)
unfolding children add_up
children-total n p zero h = grind arith
children-total n p (suc i) h =
    let e : suc i ≡ i + 1 = omega arith in
    rw (add_up-append (children n p i) (child_sum n p i ∷ []) 0)
      (rw e (omega (arith, children-total n p i h, child_sum-closed n p i h)))

add_up_comm : (x y : ℕ) (l : List ℕ) (s : ℕ) → add_up (y ∷ x ∷ l) s ≡ add_up (x ∷ y ∷ l) s
unfolding add_up
add_up_comm x y l s = let e : s + y + x ≡ s + x + y = omega arith in rw e

add_up-permᴰ : {xs ys : List ℕ} → Permᴰ xs ys → (s : ℕ) → add_up xs s ≡ add_up ys s
unfolding add_up
add_up-permᴰ Permᴰ.nil s = refl
add_up-permᴰ (Permᴰ.cons {a} {b} e d) s = rw e (add_up-permᴰ d (s + b))
add_up-permᴰ (Permᴰ.swap {a} {b} {a'} {b'} {l} e f) s = rw (e, f) (add_up_comm a' b' l s)
add_up-permᴰ (Permᴰ.trans d e) s = add_up-permᴰ d s ∙ add_up-permᴰ e s

add_up-perm : (xs ys : List ℕ) → Perm xs ys → add_up xs 0 ≡ add_up ys 0
add_up-perm xs ys p = ∥∥₁_elim p (ℕ_set _ _) (λ d. add_up-permᴰ d 0)

pub accepted_bounds : (a b : ℤ) (n p : ℕ) → accepted a b ≡ some (n, p) → (n ≤ 1000) × (0 < p)
unfolding accepted
accepted_bounds (pos a) (pos b) n p e = ground arith
accepted_bounds (pos a) (negsuc b) n p e = ground arith
accepted_bounds (negsuc a) b n p e = ground arith

-- Whatever the order in which the children's numbers arrive, an accepted `n` and number of processes
-- make the program print the sum of 1 .. n, which is n (n + 1) / 2 and fits an `int`.
pub main-sum :
    (arg1 arg2 : Bytes) (arrival : List ℕ → List ℕ) (n p : ℕ)
    → ((l : List ℕ) → Perm (arrival l) l)
    → accepted (atoi arg1) (atoi arg2) ≡ some (n, p)
    → (sum : ℕ) × (main arg1 arg2 arrival ≡ some sum) × (2 * sum ≡ n * (n + 1)) × (sum < 2 ^ 31)
unfolding main
main-sum arg1 arg2 arrival n p order e =
    (add_up (arrival (children n p p)) 0, rw (e, main), total, small)
  where
    bounds : (n ≤ 1000) × (0 < p)
    bounds = accepted_bounds (atoi arg1) (atoi arg2) n p e

    total : 2 * add_up (arrival (children n p p)) 0 ≡ n * (n + 1)
    total =
        rw (add_up-perm (arrival (children n p p)) (children n p p) (order (children n p p)))
          (rw (children-total n p p bounds.1) (rw (mul-div_cancel_left n bounds.1)))

    small : add_up (arrival (children n p p)) 0 < 2 ^ 31
    small = grind (arith, total, bounds)
