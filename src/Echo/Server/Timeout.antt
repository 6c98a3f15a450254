-- ===== src/Echo/Server/Timeout.antt =====
-- Lecture10/udp_echo_server_setsockopt/server.c: a receive time-out of the socket.
use ece.Prelude.{List, [], ◌∷◌, take, Bool, if◌then◌else◌}
use ece.Echo.Server.{Arrival, Note, End, Run, note, maxline, at_socket}

-- The loop; a silence ends in -1, as any error.
unfoldable pub loop : List Arrival → Run
loop [] = ([], End.waiting)
loop (Arrival.datagram msg cliaddr ∷ arrivals) =
    note (Note.echo (take maxline msg) cliaddr) (loop arrivals)
loop (Arrival.silence ∷ arrivals) = note Note.error (loop arrivals)
loop (Arrival.failed ∷ arrivals) = note Note.error (loop arrivals)

-- `set`: whether `setsockopt` succeeds.
unfoldable pub udp_echo : Bool → List Arrival → Run
udp_echo set arrivals = let served = loop arrivals in if set then served else ([], End.exited 1)

unfoldable pub main : Bool → Bool → List Arrival → Run
main made set arrivals = udp_echo set (at_socket made arrivals)
