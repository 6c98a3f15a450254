-- ===== src/Echo/RoundTrip.antt =====
-- A client and a server together, over a network that loses nothing.
use ece.Prelude.{
  ◌-◌, ◌∙◌, ℕ, zero, suc, ◌≤◌, ◌≡◌, refl, ap, List, [], ◌∷◌, ◌++◌, Bytes, length, arith, take,
  take_all,
}
use ece.CString.{c_string}
use ece.CString.Lines.{fgets, lines, get_line}
use ece.CString.Lines.Whole.{IsText, c_string-text, get_line-IsText}
use ece.Echo.Server
use ece.Echo.Server.Plain.{udp_echo}
use ece.Echo.Server.Answers.{echoes}
use ece.Echo.Client
use ece.Echo.Client.Plain.{receive, echo_client}

-- The lines that the client sends, as they arrive at the server from its address.
unfoldable pub from_client : ℕ → List Bytes → List Server.Arrival
from_client cliaddr [] = []
from_client cliaddr (line ∷ ls) = Server.Arrival.datagram line cliaddr ∷ from_client cliaddr ls

-- What the server sends, as it arrives at the client.
unfoldable pub to_client : List (Bytes × ℕ) → List Client.Reply
to_client [] = []
to_client ((msg, cliaddr) ∷ sent) = Client.Reply.answer msg ∷ to_client sent

unfoldable pub sends : List Client.Note → List Bytes
sends [] = []
sends (Client.Note.send line ∷ notes) = line ∷ sends notes
sends (Client.Note.print line ∷ notes) = sends notes
sends (Client.Note.timeout ∷ notes) = sends notes
sends (Client.Note.error ∷ notes) = sends notes

unfoldable pub printed : List Client.Note → Bytes
printed [] = []
printed (Client.Note.send line ∷ notes) = printed notes
printed (Client.Note.print line ∷ notes) = line ++ printed notes
printed (Client.Note.timeout ∷ notes) = printed notes
printed (Client.Note.error ∷ notes) = printed notes

-- The replies of the server to the lines.
abbrev pub served : ℕ → List Bytes → List Client.Reply
served cliaddr ls = to_client (echoes (udp_echo (from_client cliaddr ls)).0)

abbrev Whole : List Bytes → Bytes → Client.Run → Type 0
Whole ls text run = (run.1 ≡ Client.End.returned) × (sends run.0 ≡ ls) × (printed run.0 ≡ text)

served-cons :
    (cliaddr : ℕ) (line : Bytes) (ls : List Bytes)
    → served cliaddr (line ∷ ls)
      ≡ Client.Reply.answer (take Server.maxline line) ∷ served cliaddr ls
unfolding from_client udp_echo echoes to_client
served-cons cliaddr line ls = refl

one_line :
    (line rest text : Bytes) (ls : List Bytes) (next : Client.Run)
    → IsText line
    → length line ≤ Server.maxline
    → line ++ rest ≡ text
    → Whole ls rest next
    → Whole (line ∷ ls) text (
        Client.note
          (Client.Note.send (c_string line))
          (receive (Client.Reply.answer (take Server.maxline line)) next))
unfolding sends printed receive
one_line line rest text ls next plain fits e h =
    let whole : take Server.maxline line ≡ line = take_all Server.maxline line fits in
    let text_line : c_string line ≡ line = c_string-text line plain in
    rw (whole, whole, text_line) (h.0, ap (λ l. line ∷ l) h.1, ap (λ l. line ++ l) h.2 ∙ e)

session :
    (calls cliaddr : ℕ) (text : Bytes)
    → length text ≤ calls
    → IsText text
    → let ls = lines (Client.maxline - 1) calls text in
      Whole ls text (echo_client (served cliaddr ls) text)
unfolding lines fgets echo_client Client.loop from_client udp_echo echoes to_client sends printed
session zero cliaddr [] fits plain = (refl, refl, refl)
session zero cliaddr (c ∷ text) fits plain = ground arith
session (suc calls) cliaddr [] fits plain = (refl, refl, refl)
session (suc calls) cliaddr (c ∷ text) fits plain =
    let (line, rest) = get_line (Client.maxline - 1) (c ∷ text) in
    let cut = get_line-IsText (Client.maxline - 2) c text plain in
    let ls = lines (Client.maxline - 1) calls rest in
    one_line line rest (c ∷ text) ls (echo_client (served cliaddr ls) rest) cut.3
      (omega (arith, cut.1)) cut.0 (session calls cliaddr rest (omega (arith, cut.2)) cut.4)

-- For a text without NUL: when the server gets the lines that the client reads and the client gets what
-- the server sends back, the client sends just these lines, prints the whole text, unchanged, and comes
-- to an end.
pub echo_client-text :
    (cliaddr : ℕ) (text : Bytes)
    → IsText text
    → let ls = lines (Client.maxline - 1) (length text) text in
      let run = echo_client (served cliaddr ls) text in
      (run.1 ≡ Client.End.returned) × (sends run.0 ≡ ls) × (printed run.0 ≡ text)
echo_client-text cliaddr text plain = session (length text) cliaddr text (omega arith) plain
