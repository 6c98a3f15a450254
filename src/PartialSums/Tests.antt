-- ===== src/PartialSums/Tests.antt =====
-- A run with the children in reverse order, and the theorem at it.
use mathlib.Core.List.{reverse, reverse_perm}
use ece.Prelude.{ℕ, ◌≡◌, ◌*◌, ◌+◌, ◌<◌, ◌^◌, refl, codes, some}
use ece.CString.{atoi}
use ece.PartialSums.{main, accepted}
use ece.PartialSums.Total.{main-sum}

ten_by_three : accepted (atoi (codes "10")) (atoi (codes "3")) ≡ some (10, 3)
unfolding atoi accepted
ten_by_three = refl

main-sum_example :
    (sum : ℕ) × (main (codes "10") (codes "3") reverse ≡ some sum)
    × (2 * sum ≡ 10 * (10 + 1))
    × (sum < 2 ^ 31)
main-sum_example = main-sum (codes "10") (codes "3") reverse 10 3 (reverse_perm) ten_by_three
