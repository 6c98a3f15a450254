-- ===== src/CString/Decimal.antt =====
-- `%d`: numbers in decimal, printed and read back.
use ece.Prelude.{
  All, ◌≢◌, true, some, ◌≤◌, ◌++◌, ℕ, zero, suc, ◌+◌, ◌/◌, ◌%◌, ◌≤◌, ◌≡◌, refl, [], ◌∷◌, ◌++◌,
  Bytes, ◌==◌, if◌then◌else◌, arith, ℤ, pos, negsuc, codes,
}
use ece.CString.{false, value, is_digit, signed_digits, skip_space, scan_int, is_space}
use ece.CString.Scan.{Stops, span-append, skip_space-of_stop}

-- The digits of `n` in front of `out`; the fuel is a bound on `n`.
digits : ℕ → ℕ → Bytes → Bytes
digits zero n out = out
digits (suc fuel) n out =
    let rest = digits fuel (n / 10) ((b'0' + n % 10) ∷ out) in if n == 0 then out else rest

unfoldable pub show_ℕ : ℕ → Bytes
unfolding digits
show_ℕ n = if n == 0 then b'0' ∷ [] else digits n n []

unfoldable pub show_int : ℤ → Bytes
unfolding show_ℕ
show_int (pos n) = show_ℕ n
show_int (negsuc n) = b'-' ∷ show_ℕ (suc n)

shows_ten : show_int (pos 1024) ≡ codes "1024"
unfolding show_int
shows_ten = refl

value-digits : (fuel n : ℕ) (out : Bytes) → n ≤ fuel → value 0 (digits fuel n out) ≡ value n out
unfolding digits value
value-digits zero n out h = ground arith
value-digits (suc fuel) n out h = ground (arith, value-digits fuel (n / 10) ((b'0' + n % 10) ∷ out))

All-digits :
    (fuel n : ℕ) (out : Bytes)
    → All (λ c. is_digit c ≡ true) out
    → All (λ c. is_digit c ≡ true) (digits fuel n out)
unfolding digits
All-digits zero n out h = h
All-digits (suc fuel) n out h = ground (arith, All-digits fuel (n / 10) ((b'0' + n % 10) ∷ out))

digits-ne-nil : (fuel n : ℕ) (out : Bytes) → out ≢ [] → digits fuel n out ≢ []
unfolding digits
digits-ne-nil zero n out h = h
digits-ne-nil (suc fuel) n out h =
    ground (arith, digits-ne-nil fuel (n / 10) ((b'0' + n % 10) ∷ out))

value-show_ℕ : (n : ℕ) → value 0 (show_ℕ n) ≡ n
unfolding show_ℕ value
value-show_ℕ n = ground (arith, value-digits n n [])

pub All-show_ℕ : (n : ℕ) → All (λ c. is_digit c ≡ true) (show_ℕ n)
unfolding show_ℕ
All-show_ℕ n = ground (arith, All-digits n n [])

show_ℕ-ne-nil : (n : ℕ) → show_ℕ n ≢ []
unfolding show_ℕ digits
show_ℕ-ne-nil zero = ground arith
show_ℕ-ne-nil (suc n) = ground (arith, digits-ne-nil n (suc n / 10) ((b'0' + suc n % 10) ∷ []))

digit_is_plain :
    (c : ℕ)
    → is_digit c ≡ true
    → (is_space c ≡ false) × ((c == b'-') ≡ false) × ((c == b'+') ≡ false)
digit_is_plain c h = ground arith

read_digits-append :
    (w rest : Bytes)
    → All (λ c. is_digit c ≡ true) w
    → w ≢ []
    → Stops is_digit rest
    → signed_digits (skip_space (w ++ rest)) ≡ some (pos (value 0 w), rest)
read_digits-append [] rest h ne stop = absurd (ne refl)
read_digits-append (c ∷ w) rest h ne stop =
    let (space, minus, plus) = digit_is_plain c h.0 in
    rw (skip_space-of_stop (c ∷ (w ++ rest)) space)
      (rw (minus, plus) (rw (span-append is_digit (c ∷ w) rest h stop)))

-- `%d` reads back what `%d` has printed, up to a byte that is no digit.
pub scan_int-show_ℕ :
    (n : ℕ) (rest : Bytes) → Stops is_digit rest → scan_int (show_ℕ n ++ rest) ≡ some (pos n, rest)
unfolding scan_int
scan_int-show_ℕ n rest stop =
    rw (read_digits-append (show_ℕ n) rest (All-show_ℕ n) (show_ℕ-ne-nil n) stop)
      (rw (value-show_ℕ n))
