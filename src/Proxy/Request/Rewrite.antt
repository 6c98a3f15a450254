-- ===== src/Proxy/Request/Rewrite.antt =====
-- The request that is sent to the web server.
use ece.Prelude.{
  ◌∙◌, take, append_assoc, append-nil, ap, ◌+◌, ◌≤◌, ◌<◌, ◌≡◌, ◌≢◌, inl, inr, refl, some, none, [],
  ◌∷◌, ◌++◌, Bytes, arith, All, length, length-append, Option-cases, codes,
}
use ece.CString.{strstr}
use ece.CString.Search.{strstr_sound, strchr-append}
use ece.Proxy.Url.{Target, parse_url}
use ece.Proxy.Url.Bounds.{length-resource}
use ece.Proxy.Request.{
  rewrite_request, put_headers, get_line, keep_alive, connection_close, request_size,
}

-- A first line: no newline in it.
abbrev pub OneLine : Bytes → Type 0
OneLine first = All (λ c. c ≢ b'\n') first

length-get_line :
    (resource version : Bytes)
    → length (get_line resource version) ≡ length resource + length version + 7
length-get_line resource version = omega (
  arith,
  length-append resource (codes " " ++ (version ++ codes "\r\n")),
  length-append version (codes "\r\n"),
)

rewrite-fits :
    (first remaining resource version request : Bytes)
    → OneLine first
    → put_headers (get_line resource version) remaining ≡ request
    → length request < request_size
    → rewrite_request (first ++ b'\n' ∷ remaining) resource version ≡ some request
unfolding rewrite_request
rewrite-fits first remaining resource version request one e small =
    ground (arith, strchr-append first b'\n' remaining one)

take-prefix : (before rest : Bytes) → take (length before) (before ++ rest) ≡ before
take-prefix [] rest = refl
take-prefix (c ∷ before) rest = ap (λ q. c ∷ q) (take-prefix before rest)

put_headers-found :
    (line remaining before after : Bytes)
    → strstr remaining keep_alive ≡ some (before, after)
    → put_headers line remaining ≡ line ++ (before ++ (connection_close ++ after))
unfolding put_headers
put_headers-found line remaining before after found =
    let whole = strstr_sound remaining keep_alive before after found in
    let taken : take (length before) remaining ≡ before =
      ap (take (length before)) whole ∙ take-prefix before (keep_alive ++ after) in
    rw (found, taken)
      (append_assoc (line ++ before) connection_close after
        ∙ append_assoc line before (connection_close ++ after))

put_headers-absent :
    (line remaining : Bytes)
    → strstr remaining keep_alive ≡ none
    → put_headers line remaining ≡ remaining
unfolding put_headers
put_headers-absent line remaining absent = rw absent (append-nil remaining)

-- With a keep-alive header behind the first line of the buffer, and a new request that fits its array,
-- the new first line stands in front of the other headers, in which the first such header is replaced
-- and nothing else is changed.
pub rewrite-keep_alive :
    (first remaining resource version before after : Bytes)
    → OneLine first
    → strstr remaining keep_alive ≡ some (before, after)
    → length (get_line resource version ++ (before ++ (connection_close ++ after))) < request_size
    → (remaining ≡ before ++ (keep_alive ++ after))
      × (rewrite_request (first ++ b'\n' ∷ remaining) resource version
          ≡ some (get_line resource version ++ (before ++ (connection_close ++ after))))
unfolding put_headers
rewrite-keep_alive first remaining resource version before after one found small = (
  strstr_sound remaining keep_alive before after found,
  rewrite-fits first remaining resource version _ one
      (put_headers-found (get_line resource version) remaining before after found) small,
)

-- Without a keep-alive header behind the first line of the buffer, the new first line is lost: the new
-- request, as long as it fits its array, is the text behind the client's first line.
pub rewrite-line_lost :
    (first remaining resource version : Bytes)
    → OneLine first
    → strstr remaining keep_alive ≡ none
    → length remaining < request_size
    → rewrite_request (first ++ b'\n' ∷ remaining) resource version ≡ some remaining
unfolding put_headers
rewrite-line_lost first remaining resource version one absent small =
    rewrite-fits first remaining resource version remaining one
      (put_headers-absent (get_line resource version) remaining absent) small

-- `Connection: close` is shorter than `Connection: keep-alive`.
length-closed :
    (line before after remaining : Bytes)
    → remaining ≡ before ++ (keep_alive ++ after)
    → length (line ++ (before ++ (connection_close ++ after))) ≤ length line + length remaining
length-closed line before after remaining e = omega (
  arith,
  ap length e,
  length-append line (before ++ (connection_close ++ after)),
  length-append before (connection_close ++ after),
  length-append before (keep_alive ++ after),
)

length-put_headers :
    (line remaining : Bytes) → length (put_headers line remaining) ≤ length line + length remaining
unfolding put_headers
length-put_headers line remaining = elim (Option-cases (strstr remaining keep_alive)) [
  | inl e ↦ rw (put_headers-absent line remaining e) (omega arith)
  | inr ((before, after), e) ↦
      rw (put_headers-found line remaining before after e) (
        length-closed line before after remaining
          (strstr_sound remaining keep_alive before after e))
]

-- A request whose first line is a method, a URL and a version, with one blank between them.
abbrev pub first_line : Bytes → Bytes → Bytes → Bytes
first_line method url version = method ++ b' ' ∷ (url ++ b' ' ∷ (version ++ b'\r' ∷ []))

length-first_line :
    (method url version rest : Bytes)
    → length (first_line method url version ++ rest)
      ≡ length method + length url + length version + length rest + 3
length-first_line method url version rest = omega (
  arith,
  length-append (first_line method url version) rest,
  length-append method (b' ' ∷ (url ++ b' ' ∷ (version ++ b'\r' ∷ []))),
  length-append url (b' ' ∷ (version ++ b'\r' ∷ [])),
  length-append version (b'\r' ∷ []),
)

-- If the buffer starts with a method of at least three bytes, a URL and a version on one line, and the
-- URL is accepted by the URL scans, then for a buffer that is shorter than the array of the new request
-- this array does not overflow: it holds the text of the new first line and the other headers.
pub rewrite_in_bounds :
    (method url version remaining : Bytes) (target : Target) (resource : Bytes)
    → 3 ≤ length method
    → parse_url url ≡ some target
    → target.resource ≡ some resource
    → OneLine (first_line method url version)
    → length (first_line method url version ++ b'\n' ∷ remaining) < request_size
    → rewrite_request (first_line method url version ++ b'\n' ∷ remaining) resource version
      ≡ some (put_headers (get_line resource version) remaining)
rewrite_in_bounds method url version remaining target resource long parsed res one small =
    rewrite-fits (first_line method url version) remaining resource version _ one refl (
      omega (
        arith,
        length-put_headers (get_line resource version) remaining,
        length-get_line resource version,
        length-first_line method url version (b'\n' ∷ remaining),
        length-resource url target resource parsed res,
      ))
