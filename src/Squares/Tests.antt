-- ===== src/Squares/Tests.antt =====
-- Runs of the program.
use ece.Prelude.{◌≡◌, refl, true, negsuc, pos}
use ece.Squares.{End, Replies, check_range, is_out_of_range, difference, square}

abbrev all_succeed : Replies
all_succeed = record { pipe = true; fork1 = true; read1 = true; fork2 = true; read2 = true }

prints_difference : check_range (pos 3) (negsuc 3) all_succeed ≡ End.printed (negsuc 6)
unfolding check_range difference is_out_of_range square
prints_difference = refl

too_large : check_range (pos 101) (pos 1) all_succeed ≡ End.failed
unfolding check_range difference is_out_of_range square
too_large = refl
