-- ===== src/Echo/Server/Alarm.antt =====
-- Lecture10/udp_echo_server_alarm/server.c: SIGALRM after five seconds interrupts `recvfrom`.
use ece.Prelude.{List, [], ◌∷◌, take, Bool}
use ece.Echo.Server.{Arrival, Note, End, Run, note, maxline, at_socket}

-- A silence ends in -1 with EINTR.
unfoldable pub udp_echo : List Arrival → Run
udp_echo [] = ([], End.waiting)
udp_echo (Arrival.datagram msg cliaddr ∷ arrivals) =
    note (Note.echo (take maxline msg) cliaddr) (udp_echo arrivals)
udp_echo (Arrival.silence ∷ arrivals) = note Note.timeout (udp_echo arrivals)
udp_echo (Arrival.failed ∷ arrivals) = note Note.error (udp_echo arrivals)

unfoldable pub main : Bool → List Arrival → Run
main made arrivals = udp_echo (at_socket made arrivals)
