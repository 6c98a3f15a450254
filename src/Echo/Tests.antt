-- ===== src/Echo/Tests.antt =====
-- Short sessions, and the theorems at inputs that meet their hypotheses.
use ece.Prelude.{Bytes, ◌≡◌, refl, List, [], ◌∷◌, codes, length, ◌-◌, arith, true}
use ece.CString.Lines.{lines, fgets, get_line}
use ece.Echo.Server
use ece.Echo.Server.{Arrival}
use ece.Echo.Server.Answers.{
  checked-Answers, unchecked-Answers, echoes, datagrams, until_failure, end_of,
}
use ece.Echo.Client
use ece.Echo.Client.{Reply}
use ece.Echo.Client.Plain.{echo_client}
use ece.Echo.RoundTrip.{echo_client-text, served, sends, printed}

abbrev arrivals : List Arrival
arrivals =
    Arrival.datagram (codes "a") 7
    ∷ Arrival.silence
    ∷ Arrival.failed
    ∷ Arrival.datagram (codes "b") 8
    ∷ []

before_failure : datagrams (until_failure arrivals) ≡ (codes "a", 7) ∷ []
unfolding datagrams until_failure
before_failure = refl

abbrev text : Bytes
text = codes "one\ntwo"

two_lines : lines 4095 7 text ≡ codes "one\n" ∷ codes "two" ∷ []
unfolding lines fgets get_line
two_lines = refl

echo_client-text_example :
    let ls = lines (Client.maxline - 1) (length text) text in
    let run = echo_client (served 7 ls) text in
    (run.1 ≡ Client.End.returned) × (sends run.0 ≡ ls) × (printed run.0 ≡ text)
echo_client-text_example = echo_client-text 7 text (omega arith)

abbrev replies : List Reply
replies = Reply.silence ∷ Reply.failed ∷ []

checked-Answers_example :
    ((echoes (ece.Echo.Server.Alarm.udp_echo arrivals).0 ≡ datagrams arrivals)
      × ((ece.Echo.Server.Alarm.udp_echo arrivals).1 ≡ Server.End.waiting))
    × ((echoes (ece.Echo.Server.Timeout.udp_echo true arrivals).0 ≡ datagrams arrivals)
        × ((ece.Echo.Server.Timeout.udp_echo true arrivals).1 ≡ Server.End.waiting))
    × (ece.Echo.Server.Action.udp_echo true true arrivals ≡ ece.Echo.Server.Alarm.udp_echo arrivals)
checked-Answers_example = checked-Answers arrivals

unchecked-Answers_example :
    ((echoes (ece.Echo.Server.Plain.udp_echo arrivals).0 ≡ datagrams (until_failure arrivals))
      × ((ece.Echo.Server.Plain.udp_echo arrivals).1 ≡ end_of arrivals))
    × ((echoes (ece.Echo.Server.Select.udp_echo arrivals).0 ≡ datagrams (until_failure arrivals))
        × ((ece.Echo.Server.Select.udp_echo arrivals).1 ≡ end_of arrivals))
unchecked-Answers_example = unchecked-Answers arrivals
