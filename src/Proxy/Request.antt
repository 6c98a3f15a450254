-- ===== src/Proxy/Request.antt =====
-- Reading the request line, and writing the request for the web server.
pub mod Line
pub mod Rewrite
use ece.Prelude.{
  take, ◌||◌, leb, false, Bool, ℕ, Option, none, some, [], ◌++◌, Bytes, codes, ltb, if◌then◌else◌,
  length,
}
use ece.CString.{strchr, strstr, scan_word}

-- `method`, `url` and `version`; `none` is an array that `sscanf` has not written.
pub record RequestLine : Type 0 where
  pub method : Option Bytes
  pub url : Option Bytes
  pub version : Option Bytes

abbrev first_word : Bytes → Option Bytes × Bytes
first_word s = elim (scan_word s) [ none ↦ (none, []) | some (w, rest) ↦ (some w, rest) ]

-- `sscanf(buffer, "%s %s %s", method, url, version)`.
unfoldable pub scan_request : Bytes → RequestLine
scan_request buffer =
    let (m, r1) = first_word buffer in
    let (u, r2) = first_word r1 in
    let (v, r3) = first_word r2 in record { method = m; url = u; version = v }

-- `char name[1024]`, with its terminator.
abbrev pub name_size : ℕ
name_size = 1024

abbrev pub request_size : ℕ
request_size = 10000

abbrev pub keep_alive : Bytes
keep_alive = codes "Connection: keep-alive\r\n"

abbrev pub connection_close : Bytes
connection_close = codes "Connection: close\r\n"

-- `sprintf(request, "GET %s %s\r\n", resource, version)`.
abbrev pub get_line : Bytes → Bytes → Bytes
get_line resource version = codes "GET " ++ (resource ++ (codes " " ++ (version ++ codes "\r\n")))

-- A string that is put into an array of `size` bytes; `none` is a write past its end.
abbrev pub fits : ℕ → Bytes → Option Bytes
fits size s = if ltb (length s) size then some s else none

-- What the array `request` holds behind these calls.
abbrev pub strcpy : Bytes → Bytes → Bytes
strcpy request text = text

abbrev pub strcat : Bytes → Bytes → Bytes
strcat request text = request ++ text

abbrev pub strncat : Bytes → Bytes → ℕ → Bytes
strncat request text n = request ++ take n text

-- The array in front of the last `strcat`, and what that appends. `modReqLen` is the offset of `header`.
abbrev pub copy_headers : Bytes → Bytes → Option (Bytes × Bytes) → Bytes × Bytes
copy_headers request remaining (some (before, header)) =
    (strcat (strncat request remaining (length before)) connection_close, header)
copy_headers request remaining none = (strcpy request remaining, [])

-- The calls on `request`, which holds the new first line, with the text behind the client's first line. The
-- array is checked for the last of them, behind which the text is the longest.
unfoldable pub put_headers : Bytes → Bytes → Bytes
put_headers line remaining =
    let (request, header) = copy_headers line remaining (strstr remaining keep_alive) in
    strcat request header

-- `none` is undefined behaviour: no newline in the buffer, or more than `request` holds.
unfoldable pub rewrite_request : Bytes → Bytes → Bytes → Option Bytes
rewrite_request buffer resource version = elim (strchr buffer 10) [
  | none ↦ none
  | some remaining ↦ fits request_size (put_headers (get_line resource version) remaining)
]

abbrev too_long : Option Bytes → Bool
too_long none = false
too_long (some w) = leb name_size (length w)

-- A word that is longer than its array.
abbrev pub overflows : RequestLine → Bool
overflows line = too_long line.method || too_long line.url || too_long line.version
