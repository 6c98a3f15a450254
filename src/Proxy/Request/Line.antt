-- ===== src/Proxy/Request/Line.antt =====
-- What `sscanf` makes of a request line.
use ece.Prelude.{ℕ, ◌≡◌, refl, some, ◌∷◌, ◌++◌, Bytes, arith, true}
use ece.CString.{is_space, scan_word, span}
use ece.CString.Scan.{IsBlankless, scan_word-append}
use ece.Proxy.Request.{scan_request}

-- White space in front of a word is skipped.
scan_word-space : (c : ℕ) (s : Bytes) → is_space c ≡ true → scan_word (c ∷ s) ≡ scan_word s
unfolding scan_word span
scan_word-space c s h = ground arith

-- A request line with three words gives them back, whatever follows the carriage return.
pub scan_request-words :
    (m u v rest : Bytes)
    → IsBlankless m
    → IsBlankless u
    → IsBlankless v
    → scan_request (m ++ b' ' ∷ (u ++ b' ' ∷ (v ++ b'\r' ∷ rest)))
      ≡ record { method = some m; url = some u; version = some v }
unfolding scan_request
scan_request-words m u v rest hm hu hv = ground (
  arith,
  scan_word-append m (b' ' ∷ (u ++ b' ' ∷ (v ++ b'\r' ∷ rest))) hm refl,
  scan_word-space b' ' (u ++ b' ' ∷ (v ++ b'\r' ∷ rest)) refl,
  scan_word-append u (b' ' ∷ (v ++ b'\r' ∷ rest)) hu refl,
  scan_word-space b' ' (v ++ b'\r' ∷ rest) refl,
  scan_word-append v (b'\r' ∷ rest) hv refl,
)
