-- ===== src/Substrings/Tests.antt =====
-- Counts in small texts, and the theorem at one of them.
use ece.Prelude.{◌==◌, none, false, ◌≡◌, refl, codes, length, arith, [], ◌∷◌, true}
use ece.Substrings.{read_byte, read_loop, count_loop, count_substrings, main, Files, Opt}
use ece.Substrings.Count.{occurrences, count_substrings-occurrences}
use ece.Substrings.Agree.{main-systemcalls}

counts_both_cases : count_substrings (codes "aXaaxA") (codes "ax") 6 ≡ 2
unfolding count_substrings count_loop ece.CString.strncasecmp_eq
counts_both_cases = refl

count_substrings-occurrences_example :
    count_substrings (codes "aXaaxA") (codes "ax") (length (codes "aXaaxA"))
    ≡ occurrences (codes "ax") (codes "aXaaxA")
count_substrings-occurrences_example =
    count_substrings-occurrences (codes "aXaaxA") (codes "ax") (omega arith) (omega arith)
      (omega arith)

abbrev one_file : Files
one_file = record {
  contents = λ path. codes "abab";
  st_size = λ path. 4;
  calloc = λ n. true;
  opens = λ path. true;
  closes = λ path. true;
  read_fails = λ i. false;
  fopens = λ path. true;
  fcloses = λ path. true;
  fread_error = none;
}

main-systemcalls_example :
    main one_file
      (Opt.systemcalls ∷ [])
      (codes "f" ∷ codes "ab" ∷ [])
      (codes "-s" ∷ codes "f" ∷ codes "ab" ∷ [])
    ≡ main one_file [] (codes "f" ∷ codes "ab" ∷ []) (codes "f" ∷ codes "ab" ∷ [])
main-systemcalls_example =
    main-systemcalls one_file (codes "f") (codes "-s") (codes "ab" ∷ []) (λ i. refl) refl refl refl

-- A `read` that fails leaves a zero, and the bytes behind it come one place later.
shifted : read_loop (λ i. i == 1) 0 4 (codes "abab") ≡ b'a' ∷ 0 ∷ b'b' ∷ b'a' ∷ []
unfolding read_loop read_byte
shifted = refl
