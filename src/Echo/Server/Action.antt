-- ===== src/Echo/Server/Action.antt =====
-- Lecture10/udp_echo_server_alarm/server_act.c: the same with `sigaction`, whose errors end the server.
use ece.Prelude.{List, [], ◌∷◌, take, Bool, if◌then◌else◌}
use ece.Echo.Server.{Arrival, Note, End, Run, note, maxline, at_socket}

-- The loop, with the interrupted `recvfrom` for a silence.
unfoldable pub loop : List Arrival → Run
loop [] = ([], End.waiting)
loop (Arrival.datagram msg cliaddr ∷ arrivals) =
    note (Note.echo (take maxline msg) cliaddr) (loop arrivals)
loop (Arrival.silence ∷ arrivals) = note Note.timeout (loop arrivals)
loop (Arrival.failed ∷ arrivals) = note Note.error (loop arrivals)

-- `got` and `set`: whether the two calls of `sigaction` succeed.
unfoldable pub udp_echo : Bool → Bool → List Arrival → Run
udp_echo got set arrivals =
    let served = loop arrivals in
    if got then if set then served else ([], End.exited 1) else ([], End.exited 1)

unfoldable pub main : Bool → Bool → Bool → List Arrival → Run
main made got set arrivals = udp_echo got set (at_socket made arrivals)
