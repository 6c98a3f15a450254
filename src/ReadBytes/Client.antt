-- ===== src/ReadBytes/Client.antt =====
-- Lecture6/readnbytes/client.c: the file is sent in pieces of the size of the buffer.
use ece.Prelude.{
  ℕ, zero, suc, Bool, not, ◌&&◌, Option, some, none, [], ◌∷◌, ◌++◌, Bytes, add32, length, take,
  drop, if◌then◌else◌,
}

-- What `write` returns, the bytes sent before it and the piece given; `none` is -1.
abbrev pub Write : Type 0
Write = Bytes → Bytes → Option ℕ

-- How `main` ends: it returns -1; it returns 0 behind the output of `bytes` (here `total`); in a call
-- with the NULL of a failing `fopen`, which is undefined. `running`: the fuel is spent.
pub data End : Type 0 where
  failed : End
  finished : (total : ℕ) → End
  undefined : End
  running : End

-- What has been sent, and the end.
abbrev pub Run : Type 0
Run = Bytes × End

-- What follows a `write` of `valread` bytes; `next` is the loop. A short write is not looked at.
unfoldable pub after_write : (Bytes → ℕ → Run) → Bytes → ℕ → Bytes → Option ℕ → Run
after_write next sent total piece none = (sent, End.failed)
after_write next sent total piece (some n) =
    next (sent ++ take n piece) (add32 total (length piece))

-- The body of the loop, with the piece that `fread` gives.
unfoldable pub send_piece : Write → (Bytes → ℕ → Run) → Bytes → ℕ → Bytes → Run
send_piece write next sent total [] = (sent, End.finished total)
send_piece write next sent total (c ∷ piece) =
    after_write next sent total (c ∷ piece) (write sent (c ∷ piece))

-- `while ((valread = fread(buffer, 1, sizeof(buffer), fp)) > 0)`, with what is left of the file.
unfoldable pub send_loop : ℕ → Write → Bytes → Bytes → ℕ → Run
send_loop zero write file sent total = (sent, End.running)
send_loop (suc fuel) write file sent total =
    send_piece write (send_loop fuel write (drop 1024 file)) sent total (take 1024 file)

-- Which calls of `main` succeed before the loop. `inet_pton` is given a constant address.
pub record Replies : Type 0 where
  pub socket : Bool
  pub connect : Bool
  pub fopen : Bool

unfoldable pub main : ℕ → Replies → Write → Bytes → Run
main fuel r write file =
    if not (r.socket && r.connect)
    then ([], End.failed)
    else if not r.fopen
    then ([], End.undefined)
    else send_loop fuel write file [] 0
