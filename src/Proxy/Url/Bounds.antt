-- ===== src/Proxy/Url/Bounds.antt =====
-- A resource is no longer than the URL that it stands in.
use ece.Prelude.{◌≤◌, ◌≡◌, Bytes, arith, some, length, Option-cases, inl, inr, codes}
use ece.CString.{scan_int, strip_prefix, scan_host, scan_word}
use ece.CString.Bounds.{length-scan_int, length-scan_word, length-scan_host, length-strip_prefix}
use ece.Proxy.Url.{blank, parse_url, scan_full, Target, scan_short}

-- A scan that has stored all of its conversions.
scan_short-length :
    (url : Bytes) (t : Target) (w : Bytes)
    → (scan_short url t).0 ≡ 2
    → (scan_short url t).1.resource ≡ some w
    → length w ≤ length url
unfolding scan_short
scan_short-length url t w n h = elim (Option-cases (strip_prefix (codes "http://") url)) [
  | inl e ↦ ground arith
  | inr (a, e) ↦ elim (Option-cases (scan_host a)) [
    | inl f ↦ ground arith
    | inr ((x, b), f) ↦ elim (Option-cases (scan_word b)) [
      | inl g ↦ ground arith
      | inr ((v, c), g) ↦ ground (
        arith,
        length-strip_prefix (codes "http://") url a e,
        length-scan_host a x b f,
        length-scan_word b v c g,
      )
    ]
  ]
]

scan_full-length :
    (url : Bytes) (w : Bytes)
    → (scan_full url blank).0 ≡ 3
    → (scan_full url blank).1.resource ≡ some w
    → length w ≤ length url
unfolding scan_full
scan_full-length url w n h = elim (Option-cases (strip_prefix (codes "http://") url)) [
  | inl e ↦ ground arith
  | inr (a, e) ↦ elim (Option-cases (scan_host a)) [
    | inl f ↦ ground arith
    | inr ((x, b), f) ↦ elim (Option-cases (strip_prefix (codes ":") b)) [
      | inl g ↦ ground arith
      | inr (c, g) ↦ elim (Option-cases (scan_int c)) [
        | inl i ↦ ground arith
        | inr ((m, d), i) ↦ elim (Option-cases (scan_word d)) [
          | inl j ↦ ground arith
          | inr ((v, r), j) ↦ ground (
            arith,
            length-strip_prefix (codes "http://") url a e,
            length-scan_host a x b f,
            length-strip_prefix (codes ":") b c g,
            length-scan_int c m d i,
            length-scan_word d v r j,
          )
        ]
      ]
    ]
  ]
]

pub length-resource :
    (url : Bytes) (target : Target) (resource : Bytes)
    → parse_url url ≡ some target
    → target.resource ≡ some resource
    → length resource ≤ length url
unfolding parse_url
length-resource url target resource h e =
    ground
      (arith, scan_full-length url resource, scan_short-length url (scan_full url blank).1 resource)
