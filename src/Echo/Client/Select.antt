-- ===== src/Echo/Client/Select.antt =====
-- Lecture10/udp_echo_server_select/client.c: `select` with a time limit in front of `recvfrom`.
use ece.Prelude.{List, [], take, Bool, Bytes}
use ece.CString.{c_string}
use ece.Echo.Client.{Reply, Note, End, Run, note, loop, maxline, start}

unfoldable pub receive : Reply → Run → Run
receive (Reply.answer recvline) next = note (Note.print (c_string (take maxline recvline))) next
receive Reply.silence next = note Note.timeout next
receive Reply.failed next = ([], End.undefined)

unfoldable pub echo_client : List Reply → Bytes → Run
echo_client replies text = loop receive replies text

unfoldable pub main : Bool → Bool → List Reply → Bytes → Run
main converted made replies text = start converted made (echo_client replies text)
