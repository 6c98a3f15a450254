-- ===== src/ReadBytes/RoundTrip.antt =====
-- Client and server of Lecture6/readnbytes together.
use ece.Prelude.{
  ◌%◌, List, true, ℕ, zero, suc, ◌^◌, ◌<◌, ◌≡◌, refl, ap, ◌∙◌, arith, some, [], ◌∷◌, ◌++◌, Bytes,
  add32, length, take, drop, take-drop, take_all, append_assoc, append-nil, length-append,
  length-drop,
}
use ece.ReadBytes
use ece.ReadBytes.{Arrival}
use ece.ReadBytes.Client
use ece.ReadBytes.Whole.{Sound, stream, receive-file}
use ece.ReadBytes.Client.{Write, after_write, send_piece, send_loop}

-- Each `write` takes all that it is given, as that of a blocking socket does when no signal comes.
abbrev pub WritesAll : Write → Type 0
WritesAll write = (sent piece : Bytes) → write sent piece ≡ some (length piece)

send_piece-all :
    (write : Write) (next : Bytes → ℕ → Client.Run) (sent : Bytes) (total c : ℕ) (piece : Bytes)
    → WritesAll write
    → send_piece write next sent total (c ∷ piece)
      ≡ next (sent ++ c ∷ piece) (add32 total (length (c ∷ piece)))
unfolding send_piece after_write
send_piece-all write next sent total c piece h =
    rw (h sent (c ∷ piece), after_write)
      (rw (take_all (length (c ∷ piece)) (c ∷ piece) (omega arith)) refl)

pub send_loop-all :
    (fuel : ℕ) (write : Write) (file sent : Bytes) (total : ℕ)
    → WritesAll write
    → total < 2 ^ 32
    → length file < fuel
    → send_loop fuel write file sent total
      ≡ (sent ++ file, Client.End.finished (add32 total (length file)))
unfolding send_loop send_piece
send_loop-all zero write file sent total h small enough = absurd (omega arith)
send_loop-all (suc fuel) write [] sent total h small enough =
    rw (append-nil sent) (ap (λ n. (sent, Client.End.finished n)) (omega arith))
send_loop-all (suc fuel) write (c ∷ file) sent total h small enough =
    let x = take 1024 (c ∷ file) in
    let y = drop 1024 (c ∷ file) in
    let whole : x ++ y ≡ c ∷ file = take-drop 1024 (c ∷ file) in
    send_piece-all write (send_loop fuel write y) sent total c (take 1023 file) h
    ∙ send_loop-all fuel write y (sent ++ x) (add32 total (length x)) h (omega arith)
        (omega (arith, length-drop 1023 file))
    ∙ rw (append_assoc sent x y, whole)
        (ap (λ n. (sent ++ (c ∷ file), Client.End.finished n))
          (omega (arith, length-append x y, ap length whole)))

-- All calls before the loops succeed.
abbrev pub connected : Client.Replies
connected = record { socket = true; connect = true; fopen = true }

abbrev pub serving : ReadBytes.Replies
serving = record { socket = true; bind = true; listen = true; accept = true; fopen = true }

client-sends :
    (fuel : ℕ) (write : Write) (file : Bytes)
    → WritesAll write
    → length file < fuel
    → Client.main fuel connected write file ≡ (file, Client.End.finished (length file % 2 ^ 32))
unfolding Client.main
client-sends fuel write file h enough =
    send_loop-all fuel write file [] 0 h (omega arith) enough
    ∙ ap (λ n. (file, Client.End.finished n)) (omega arith)

server-receives :
    (fuel : ℕ) (arrivals : List Arrival)
    → Sound arrivals
    → length (stream arrivals) < fuel
    → ReadBytes.main fuel serving arrivals
      ≡ ReadBytes.End.finished (stream arrivals) (length (stream arrivals) % 2 ^ 32)
unfolding ReadBytes.main
server-receives fuel arrivals h enough = rw (receive-file fuel arrivals h enough) refl

-- Let all calls before the loops succeed, each `write` of the client take all that it is given, and no
-- `read` of the server fail but by interruptions. If what arrives, in segments of whatever size, is what
-- the client has sent, then both programs end, each in fewer rounds than one more than the file has
-- bytes; the server's file is the client's, and both print its length as an `int`.
pub main-file :
    (client_fuel server_fuel : ℕ) (write : Write) (file : Bytes) (arrivals : List Arrival)
    → WritesAll write
    → Sound arrivals
    → length file < client_fuel
    → length file < server_fuel
    → stream arrivals ≡ (Client.main client_fuel connected write file).0
    → (Client.main client_fuel connected write file
        ≡ (file, Client.End.finished (length file % 2 ^ 32)))
      × (ReadBytes.main server_fuel serving arrivals
          ≡ ReadBytes.End.finished file (length file % 2 ^ 32))
main-file client_fuel server_fuel write file arrivals h sound enough enough' e =
    let sends = client-sends client_fuel write file h enough in
    let f : stream arrivals ≡ file = e ∙ ap (λ r. r.0) sends in
    (sends, rw f at (server-receives server_fuel arrivals sound (omega (arith, ap length f))))
