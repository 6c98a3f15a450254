-- ===== src/Echo/Server/Select.antt =====
-- Lecture10/udp_echo_server_select/server.c: `select` with a time limit in front of `recvfrom`.
use ece.Prelude.{if◌then◌else◌, List, [], ◌∷◌, take, Bool, true, false}
use ece.Echo.Server.{Arrival, Note, End, Run, note, maxline, at_socket}

-- `readable_timeout(sockfd, 5) == 0`. An error of the socket makes it readable.
abbrev pub timed_out : Arrival → Bool
timed_out (Arrival.datagram msg cliaddr) = false
timed_out Arrival.silence = true
timed_out Arrival.failed = false

-- The branch behind a readable socket; `next` is the rest of the loop.
abbrev pub receive : Run → Arrival → Run
receive next (Arrival.datagram msg cliaddr) = note (Note.echo (take maxline msg) cliaddr) next
receive next Arrival.silence = ([], End.waiting)
receive next Arrival.failed = ([], End.undefined)

unfoldable pub udp_echo : List Arrival → Run
udp_echo [] = ([], End.waiting)
udp_echo (a ∷ arrivals) =
    let next = udp_echo arrivals in if timed_out a then note Note.timeout next else receive next a

unfoldable pub main : Bool → List Arrival → Run
main made arrivals = udp_echo (at_socket made arrivals)
