-- ===== src/Proxy/Url/RoundTrip.antt =====
-- What the URL scans make of well-formed URLs.
use ece.Prelude.{
  ◌^◌, ◌<◌, ℕ, ◌≡◌, refl, some, none, [], ◌∷◌, ◌++◌, Bytes, codes, All, pos, append-nil, arith,
  false,
}
use ece.CString.{scan_host, scan_word, is_space}
use ece.CString.Scan.{IsHost, scan_host-append, scan_word-append}
use ece.CString.Decimal.{show_ℕ, scan_int-show_ℕ}
use ece.Proxy.Url.{Target, scan_full, scan_short, parse_url, parse_authority, blank}

-- The text behind the host of a URL: a slash and no white space.
abbrev pub IsPath : Bytes → Type 0
IsPath p = All (λ c. is_space c ≡ false) p

scan_path : (p : Bytes) → IsPath p → scan_word (b'/' ∷ p) ≡ some (b'/' ∷ p, [])
scan_path p h =
    rw (append-nil (b'/' ∷ p)) at
      (scan_word-append (b'/' ∷ p) [] ((λ e. ground arith), (refl, h)) tt)

host_alone : (host : Bytes) → IsHost host → scan_host host ≡ some (host, [])
host_alone host h = rw (append-nil host) at (scan_host-append host [] h tt)

scan_full-path :
    (host p : Bytes)
    → IsHost host
    → scan_full (codes "http://" ++ (host ++ b'/' ∷ p)) blank
      ≡ (1, record blank { host = some host })
unfolding scan_full
scan_full-path host p h = ground (arith, scan_host-append host (b'/' ∷ p) h refl)

scan_short-path :
    (host p : Bytes) (t : Target)
    → IsHost host
    → IsPath p
    → scan_short (codes "http://" ++ (host ++ b'/' ∷ p)) t
      ≡ (2, record t { host = some host; resource = some (b'/' ∷ p) })
unfolding scan_short
scan_short-path host p t h q =
    ground (arith, scan_host-append host (b'/' ∷ p) h refl, scan_path p q)

-- A URL of a host, which is not empty and has no `:` and no `/` in it, and a path without white space
-- is taken apart into them; the port is 80.
pub parse_url-path :
    (host p : Bytes)
    → IsHost host
    → IsPath p
    → parse_url (codes "http://" ++ (host ++ b'/' ∷ p))
      ≡ some (record { host = some host; port = pos 80; resource = some (b'/' ∷ p) })
unfolding parse_url
parse_url-path host p h q =
    ground (
      arith,
      scan_full-path host p h,
      scan_short-path host p (record blank { host = some host }) h q,
    )

abbrev colon_number : ℕ → Bytes → Bytes
colon_number n rest = b':' ∷ (show_ℕ n ++ rest)

scan_full-port :
    (host p : Bytes) (n : ℕ)
    → IsHost host
    → IsPath p
    → scan_full (codes "http://" ++ (host ++ colon_number n (b'/' ∷ p))) blank
      ≡ (3, record { host = some host; port = pos n; resource = some (b'/' ∷ p) })
unfolding scan_full
scan_full-port host p n h q = ground (
  arith,
  scan_host-append host (colon_number n (b'/' ∷ p)) h refl,
  scan_int-show_ℕ n (b'/' ∷ p) refl,
  scan_path p q,
)

-- From a URL of a host, which is not empty and has no `:` and no `/` in it, a port that an `int` holds
-- and a path without white space, the three come back.
pub parse_url-port :
    (host p : Bytes) (n : ℕ)
    → IsHost host
    → IsPath p
    → n < 2 ^ 31
    → parse_url (codes "http://" ++ (host ++ colon_number n (b'/' ∷ p)))
      ≡ some (record { host = some host; port = pos n; resource = some (b'/' ∷ p) })
unfolding parse_url
parse_url-port host p n h q small = ground (arith, scan_full-port host p n h q)

plain_authority :
    (host : Bytes)
    → IsHost host
    → parse_authority host ≡ some (record { host = some host; port = pos 80; resource = none })
unfolding parse_authority
plain_authority host h = ground (arith, host_alone host h)

-- The target of a CONNECT request, for a host that is not empty and has no `:` and no `/` in it: with
-- a port that an `int` holds, the host and the port come back; without one, the host and port 80.
pub parse_authority-port :
    (host : Bytes) (n : ℕ)
    → IsHost host
    → n < 2 ^ 31
    → (parse_authority (host ++ colon_number n [])
        ≡ some (record { host = some host; port = pos n; resource = none }))
      × (parse_authority host ≡ some (record { host = some host; port = pos 80; resource = none }))
unfolding parse_authority
parse_authority-port host n h small = (
  ground (arith, scan_host-append host (colon_number n []) h refl, scan_int-show_ℕ n [] tt),
  plain_authority host h,
)
