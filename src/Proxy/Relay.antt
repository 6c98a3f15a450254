-- ===== src/Proxy/Relay.antt =====
-- Passing the response of the web server on to the client.
pub mod Balance
pub mod Flow
pub mod Read
use ece.Prelude.{
  if◌then◌else◌, ℕ, zero, suc, ◌+◌, ◌-◌, Option, none, some, true, false, [], ◌∷◌, ◌++◌, Bytes,
  codes, ◌==◌, length, ℤ, pos, negsuc, ◌+ℤ◌, add32, minus_one,
}
use ece.CString.{c_string, strstr, scan_int}
use ece.Sys.{require, Kernel, Stop, M, pure, halt, ◌>>=◌, ◌>>◌, sys_read, sys_write, write_back}

abbrev pub response_size : ℕ
response_size = 1024

-- `received_bytes` as an `int` pattern.
abbrev pub count : Option Bytes → ℕ
count none = minus_one
count (some bytes) = add32 0 (length bytes)

-- `sscanf(cLengthLine, "Content-Length: %d", &cLength)` on the text behind the colon.
abbrev content_length : Bytes → ℤ
content_length line = elim (scan_int line) [ none ↦ pos 0 | some (n, rest) ↦ n ]

-- What the first 1024 bytes say of the rest. `some none`: no length is given; `some (some n)`:
-- `remainingLength` is `n`; `none`: `strstr` finds no end of the header, or `remainingLength`,
-- which is the size of an array, is not positive: undefined.
unfoldable pub plan_rest : Bytes → Option (Option ℕ)
unfolding strstr scan_int
plan_rest response = elim (strstr response (codes "Content-Length:")) [
  | none ↦ some none
  | some (before, line) ↦ elim (strstr response (codes "\r\n\r\n")) [
    | none ↦ none
    | some (header, body) ↦
        elim (content_length line +ℤ pos (length header + 4) +ℤ negsuc (response_size - 1)) [
          | pos zero ↦ none
          | pos (suc n) ↦ some (some (suc n))
          | negsuc n ↦ none
        ]
  ]
]

module _ (k : Kernel) where
  -- The body of the loop, and its end; `next` is the loop itself.
  unfoldable pub after_read : (ℕ → M ℕ) → ℕ → ℕ → Option Bytes → M ℕ
  after_read next client_fd total none = pure total
  after_read next client_fd total (some []) = pure total
  after_read next client_fd total (some (b ∷ bs)) = do
    done ← sys_write k client_fd (b ∷ bs)
    next (add32 total (length (b ∷ bs)))

  -- `while ((received_bytes = read(…)) > 0) { total += received_bytes; write(…); }`
  unfoldable pub drain : ℕ → ℕ → ℕ → ℕ → M ℕ
  drain zero client_fd server_fd total = halt Stop.running
  drain (suc fuel) client_fd server_fd total = do
    r ← sys_read k server_fd response_size
    after_read (drain fuel client_fd server_fd) client_fd total r

  unfoldable pub follow : ℕ → ℕ → ℕ → ℕ → Option ℕ → M ℕ
  follow fuel client_fd server_fd total none = drain fuel client_fd server_fd total
  follow fuel client_fd server_fd total (some remaining_length) = do
    r ← sys_read k server_fd remaining_length
    write_back k client_fd r
    pure (add32 total (count r))

  -- What follows a first read that filled the array. The array has no NUL of its own then: the
  -- string that `strstr` searches goes on in the memory behind it.
  unfoldable pub relay_rest : ℕ → ℕ → ℕ → Bytes → M ℕ
  relay_rest fuel client_fd server_fd bytes t =
      let response = c_string (bytes ++ k.beyond t) in
      (do
        plan ← require (plan_rest response) (halt Stop.undefined)
        follow fuel client_fd server_fd (count (some bytes)) plan)
        t

  unfoldable pub after_first : ℕ → ℕ → ℕ → Option Bytes → M ℕ
  after_first fuel client_fd server_fd none = pure (count none)
  after_first fuel client_fd server_fd (some bytes) =
      if length bytes == response_size
      then relay_rest fuel client_fd server_fd bytes
      else pure (count (some bytes))

  unfoldable pub relay : ℕ → ℕ → ℕ → M ℕ
  relay fuel client_fd server_fd = do
    r ← sys_read k server_fd response_size
    write_back k client_fd r
    after_first fuel client_fd server_fd r
