-- ===== src/GetsExample/Tests.antt =====
-- Runs of `echo`, and the theorem at a line.
use ece.Prelude.{◌<◌, ◌≤◌, ◌≡◌, ◌⊎◌, refl, some, none, [], ◌++◌, Bytes, codes, length}
use ece.CString.{c_string}
use ece.GetsExample.{echo, copy_line, terminate, put_byte}
use ece.GetsExample.Fits.{echo-cases, first_line}

abbrev garbage : Bytes
garbage = codes "????????"

echo_hello : echo (codes "hello\nx") garbage ≡ some (codes "hello\n")
unfolding echo copy_line terminate put_byte c_string
echo_hello = refl

-- At EOF `gets_sample` returns NULL, and an empty line is printed.
echo_nothing : echo [] garbage ≡ some (codes "\n")
unfolding echo copy_line terminate put_byte c_string
echo_nothing = refl

echo_too_long : echo (codes "longword\n") garbage ≡ none
unfolding echo copy_line terminate put_byte c_string
echo_too_long = refl

echo-cases_example :
    ((length (first_line (codes "hello\nx")) < 8)
      × (echo (codes "hello\nx") garbage
          ≡ some (c_string (first_line (codes "hello\nx")) ++ codes "\n")))
    ⊎ ((8 ≤ length (first_line (codes "hello\nx"))) × (echo (codes "hello\nx") garbage ≡ none))
echo-cases_example = echo-cases (codes "hello\nx") garbage refl
