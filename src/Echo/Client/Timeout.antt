-- ===== src/Echo/Client/Timeout.antt =====
-- Lecture10/udp_echo_server_setsockopt/client.c: a receive time-out of the socket.
use ece.Prelude.{List, [], take, Bool, Bytes, if◌then◌else◌}
use ece.CString.{c_string}
use ece.Echo.Client.{Reply, Note, End, Run, note, loop, maxline, start}

unfoldable pub receive : Reply → Run → Run
receive (Reply.answer recvline) next = note (Note.print (c_string (take maxline recvline))) next
receive Reply.silence next = note Note.timeout next
receive Reply.failed next = note Note.timeout next

-- `set`: whether `setsockopt` succeeds.
unfoldable pub echo_client : Bool → List Reply → Bytes → Run
echo_client set replies text = if set then loop receive replies text else ([], End.exited 1)

unfoldable pub main : Bool → Bool → Bool → List Reply → Bytes → Run
main converted made set replies text = start converted made (echo_client set replies text)
