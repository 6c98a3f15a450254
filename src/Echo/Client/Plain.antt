-- ===== src/Echo/Client/Plain.antt =====
-- Lecture10/udp_echo_server/client.c: no limit to the wait.
use ece.Prelude.{List, [], take, Bool, Bytes}
use ece.CString.{c_string}
use ece.Echo.Client.{Reply, Note, End, Run, note, loop, maxline, start}

unfoldable pub receive : Reply → Run → Run
receive (Reply.answer recvline) next = note (Note.print (c_string (take maxline recvline))) next
receive Reply.silence next = ([], End.waiting)
receive Reply.failed next = ([], End.undefined)

unfoldable pub echo_client : List Reply → Bytes → Run
echo_client replies text = loop receive replies text

unfoldable pub main : Bool → Bool → List Reply → Bytes → Run
main converted made replies text = start converted made (echo_client replies text)
