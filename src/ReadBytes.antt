-- ===== src/ReadBytes.antt =====
-- Lecture6/readnbytes/server.c: reading a full count from a socket, and the loop that fills a file.
mod Tests
pub mod Client
pub mod RoundTrip
pub mod Whole
use ece.Prelude.{
  Bool, not, ◌&&◌, take, drop, ◌++◌, ltb, if◌then◌else◌, add32, some, none, ltb, if◌then◌else◌,
  add32, length, ◌-◌, ◌++◌, suc, zero, [], some, none, ◌∷◌, Bytes, List, Option, ℕ,
}

-- What comes from the socket, in order: a segment of at least one byte; an interruption by a signal;
-- another error. A `read` takes from the first segment as much as is asked for. Behind the last entry
-- the peer has closed, and `read` returns 0.
pub data Arrival : Type 0 where
  segment : (first : ℕ) → (more : Bytes) → Arrival
  interrupted : Arrival
  failed : Arrival

-- What `readnbytes` returns, and -1.
pub data Result : Type 0 where
  returned : ℕ → Result
  error : Result

-- The result, what was written to `vptr`, and what is still to come.
pub record Read : Type 0 where
  pub result : Result
  pub buffer : Bytes
  pub rest : List Arrival

-- What is left of a segment.
abbrev pub leave : Bytes → List Arrival → List Arrival
leave [] arrivals = arrivals
leave (b ∷ bs) arrivals = Arrival.segment b bs ∷ arrivals

-- The loop, with `nleft` and what was read before.
unfoldable pub read_loop : ℕ → ℕ → Bytes → List Arrival → Read
read_loop n zero buffer arrivals = record { result = returned n; buffer = buffer; rest = arrivals }
read_loop n (suc left) buffer [] = record {
  result = returned (n - suc left);
  buffer = buffer;
  rest = [];
}
read_loop n (suc left) buffer (Arrival.interrupted ∷ arrivals) =
    read_loop n (suc left) buffer arrivals
read_loop n (suc left) buffer (Arrival.failed ∷ arrivals) = record {
  result = error;
  buffer = buffer;
  rest = arrivals;
}
read_loop n (suc left) buffer (Arrival.segment b bs ∷ arrivals) =
    let nread = length (b ∷ bs) in
    let next = read_loop n (suc left - nread) (buffer ++ b ∷ bs) arrivals in
    if ltb (suc left) nread
    then record {
      result = returned n;
      buffer = buffer ++ take (suc left) (b ∷ bs);
      rest = leave (drop (suc left) (b ∷ bs)) arrivals;
    }
    else next

-- `readnbytes(fd, vptr, n)`.
unfoldable pub readnbytes : ℕ → List Arrival → Read
readnbytes n arrivals = read_loop n n [] arrivals

-- What the file `receive.txt` holds and `count` (here `total`) at the end of `main`; `none`: the fuel is spent.
abbrev pub Received : Type 0
Received = Option (Bytes × ℕ)

-- The body of `while ((valread = readnbytes(new_socket, buffer, 1024)) > 0)`; `next` is the loop.
unfoldable pub receive_step : (Bytes → ℕ → List Arrival → Received) → Bytes → ℕ → Read → Received
receive_step next file total r = elim r.result [
  | error ↦ some (file, total)
  | returned zero ↦ some (file, total)
  | returned (suc valread) ↦ next (file ++ r.buffer) (add32 total (suc valread)) r.rest
]

unfoldable pub receive : ℕ → Bytes → ℕ → List Arrival → Received
receive zero file total arrivals = none
receive (suc fuel) file total arrivals =
    receive_step (receive fuel) file total (readnbytes 1024 arrivals)

-- Which calls of `main` succeed before the loop.
pub record Replies : Type 0 where
  pub socket : Bool
  pub bind : Bool
  pub listen : Bool
  pub accept : Bool
  pub fopen : Bool

-- How `main` ends: with EXIT_FAILURE; with the file and the `count` that it prints; in a call with the
-- NULL of a failing `fopen`, which is undefined. `running`: the fuel is spent.
pub data End : Type 0 where
  exited : End
  finished : (file : Bytes) → (total : ℕ) → End
  undefined : End
  running : End

abbrev pub close_file : Received → End
close_file none = End.running
close_file (some (file, total)) = End.finished file total

unfoldable pub main : ℕ → Replies → List Arrival → End
main fuel r arrivals =
    if not (r.socket && r.bind && r.listen && r.accept)
    then End.exited
    else if not r.fopen
    then End.undefined
    else close_file (receive fuel [] 0 arrivals)
