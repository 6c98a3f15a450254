-- ===== src/Proxy/Url.antt =====
-- The `sscanf` calls on the URL of a request.
pub mod RoundTrip
pub mod Bounds
use ece.Prelude.{ℕ, suc, Option, none, some, ◌==◌, Bytes, codes, ℤ, pos, if◌then◌else◌}
use ece.CString.{strip_prefix, scan_host, scan_int, scan_word}

-- What `sscanf` has stored in the local variables; `none` is an array that was never written.
pub record Target : Type 0 where
  pub host : Option Bytes
  pub port : ℤ
  pub resource : Option Bytes

abbrev pub blank : Target
blank = record { host = none; port = pos 80; resource = none }

-- The result of `sscanf`: the number of conversions stored, and the variables.
abbrev pub Scanned : Type 0
Scanned = ℕ × Target

-- `%s` into `resource`, after `n` conversions.
abbrev scan_resource : ℕ → Target → Bytes → Scanned
scan_resource n t s = elim (scan_word s) [
  | none ↦ (n, t)
  | some (w, rest) ↦ (suc n, record t { resource = some w })
]

abbrev scan_port : (ℕ → Target → Bytes → Scanned) → Target → Bytes → Scanned
scan_port next t s = elim (strip_prefix (codes ":") s) [
  | none ↦ (1, t)
  | some digits ↦ elim (scan_int digits) [
    | none ↦ (1, t)
    | some (n, rest) ↦ next 2 (record t { port = n }) rest
  ]
]

abbrev scan_host_then : (Target → Bytes → Scanned) → Target → Bytes → Scanned
scan_host_then next t s = elim (scan_host s) [
  | none ↦ (0, t)
  | some (h, rest) ↦ next (record t { host = some h }) rest
]

abbrev scan_scheme : (Target → Bytes → Scanned) → Target → Bytes → Scanned
scan_scheme next t s = elim (strip_prefix (codes "http://") s) [
  | none ↦ (0, t)
  | some rest ↦ scan_host_then next t rest
]

-- `sscanf(url, "http://%[^:/]:%d%s", host, &requested_port, resource)`.
unfoldable pub scan_full : Bytes → Target → Scanned
unfolding strip_prefix
scan_full url t = scan_scheme (scan_port scan_resource) t url

-- `sscanf(url, "http://%[^:/]%s", host, resource)`.
unfoldable pub scan_short : Bytes → Target → Scanned
unfolding strip_prefix
scan_short url t = scan_scheme (scan_resource 1) t url

-- The two calls of the GET branch; `none` is "Invalid url format".
unfoldable pub parse_url : Bytes → Option Target
parse_url url =
    let (n, t) = scan_full url blank in
    let (m, u) = scan_short url t in if n == 3 then some t else if m == 2 then some u else none

abbrev done : ℕ → Target → Bytes → Scanned
done n t s = (n, t)

-- The two calls of the CONNECT branch, on `%[^:/]:%d` and `%[^:/]`.
unfoldable pub parse_authority : Bytes → Option Target
unfolding strip_prefix
parse_authority url =
    let (n, t) = scan_host_then (scan_port done) blank url in
    let (m, u) = scan_host_then (done 1) t url in
    if n == 2 then some t else if m == 1 then some u else none
