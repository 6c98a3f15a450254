-- ===== src/Echo/Server/Plain.antt =====
-- Lecture10/udp_echo_server/server.c: no limit to the wait.
use ece.Prelude.{List, [], ◌∷◌, take, Bool}
use ece.Echo.Server.{Arrival, Note, End, Run, note, maxline, at_socket}

unfoldable pub udp_echo : List Arrival → Run
udp_echo [] = ([], End.waiting)
udp_echo (Arrival.datagram msg cliaddr ∷ arrivals) =
    note (Note.echo (take maxline msg) cliaddr) (udp_echo arrivals)
udp_echo (Arrival.silence ∷ arrivals) = udp_echo arrivals
udp_echo (Arrival.failed ∷ arrivals) = ([], End.undefined)

-- `made`: whether `socket` succeeds.
unfoldable pub main : Bool → List Arrival → Run
main made arrivals = udp_echo (at_socket made arrivals)
