-- ===== src/Echo/Client/Action.antt =====
-- Lecture10/udp_echo_server_alarm/client_act.c: the same with `sigaction`, whose errors end the client.
use ece.Prelude.{List, [], take, Bool, Bytes, if◌then◌else◌}
use ece.CString.{c_string}
use ece.Echo.Client.{Reply, Note, End, Run, note, loop, maxline, start}

unfoldable pub receive : Reply → Run → Run
receive (Reply.answer recvline) next = note (Note.print (c_string (take maxline recvline))) next
receive Reply.silence next = note Note.timeout next
receive Reply.failed next = note Note.error next

-- `got` and `set`: whether the two calls of `sigaction` succeed.
unfoldable pub echo_client : Bool → Bool → List Reply → Bytes → Run
echo_client got set replies text =
    if got
    then if set then loop receive replies text else ([], End.exited 1)
    else ([], End.exited 1)

unfoldable pub main : Bool → Bool → Bool → Bool → List Reply → Bytes → Run
main converted made got set replies text = start converted made (echo_client got set replies text)
