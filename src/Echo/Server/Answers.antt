-- ===== src/Echo/Server/Answers.antt =====
-- What the servers answer.
use ece.Prelude.{ℕ, List, [], ◌∷◌, take, true, ◌≡◌, refl, Bytes, ap}
use ece.Echo.Server.{Arrival, Note, End, Run, note, maxline}
use ece.Echo.Server.Plain
use ece.Echo.Server.Select
use ece.Echo.Server.Alarm
use ece.Echo.Server.Action
use ece.Echo.Server.Timeout

-- The datagrams sent, in order.
unfoldable pub echoes : List Note → List (Bytes × ℕ)
echoes [] = []
echoes (Note.echo msg cliaddr ∷ notes) = (msg, cliaddr) ∷ echoes notes
echoes (Note.timeout ∷ notes) = echoes notes
echoes (Note.error ∷ notes) = echoes notes

-- The datagrams that arrive, each as far as MAXLINE.
unfoldable pub datagrams : List Arrival → List (Bytes × ℕ)
datagrams [] = []
datagrams (Arrival.datagram msg cliaddr ∷ arrivals) =
    (take maxline msg, cliaddr) ∷ datagrams arrivals
datagrams (Arrival.silence ∷ arrivals) = datagrams arrivals
datagrams (Arrival.failed ∷ arrivals) = datagrams arrivals

-- What arrives before the first error.
unfoldable pub until_failure : List Arrival → List Arrival
until_failure [] = []
until_failure (Arrival.datagram msg cliaddr ∷ arrivals) =
    Arrival.datagram msg cliaddr ∷ until_failure arrivals
until_failure (Arrival.silence ∷ arrivals) = Arrival.silence ∷ until_failure arrivals
until_failure (Arrival.failed ∷ arrivals) = []

-- How a server is left that does not look at the result of `recvfrom`.
unfoldable pub end_of : List Arrival → End
end_of [] = End.waiting
end_of (Arrival.datagram msg cliaddr ∷ arrivals) = end_of arrivals
end_of (Arrival.silence ∷ arrivals) = end_of arrivals
end_of (Arrival.failed ∷ arrivals) = End.undefined

-- The notes of a run answer what arrived, and the run ends so.
abbrev Answers : List Arrival → End → Run → Type 0
Answers arrivals end run = (echoes run.0 ≡ datagrams arrivals) × (run.1 ≡ end)

one_more :
    (msg : Bytes) (cliaddr : ℕ) (arrivals : List Arrival) (end : End) (run : Run)
    → Answers arrivals end run
    → Answers
        (Arrival.datagram msg cliaddr ∷ arrivals)
        end
        (note (Note.echo (take maxline msg) cliaddr) run)
unfolding echoes datagrams
one_more msg cliaddr arrivals end run h = (ap (λ l. (take maxline msg, cliaddr) ∷ l) h.0, h.1)

alarm-Answers : (arrivals : List Arrival) → Answers arrivals End.waiting (Alarm.udp_echo arrivals)
unfolding Alarm.udp_echo echoes datagrams
alarm-Answers [] = (refl, refl)
alarm-Answers (Arrival.datagram msg cliaddr ∷ arrivals) =
    one_more msg cliaddr arrivals _ (Alarm.udp_echo arrivals) (alarm-Answers arrivals)
alarm-Answers (Arrival.silence ∷ arrivals) = alarm-Answers arrivals
alarm-Answers (Arrival.failed ∷ arrivals) = alarm-Answers arrivals

timeout-Answers : (arrivals : List Arrival) → Answers arrivals End.waiting (Timeout.loop arrivals)
unfolding Timeout.loop echoes datagrams
timeout-Answers [] = (refl, refl)
timeout-Answers (Arrival.datagram msg cliaddr ∷ arrivals) =
    one_more msg cliaddr arrivals _ (Timeout.loop arrivals) (timeout-Answers arrivals)
timeout-Answers (Arrival.silence ∷ arrivals) = timeout-Answers arrivals
timeout-Answers (Arrival.failed ∷ arrivals) = timeout-Answers arrivals

action-alarm : (arrivals : List Arrival) → Action.loop arrivals ≡ Alarm.udp_echo arrivals
unfolding Action.loop Alarm.udp_echo
action-alarm [] = refl
action-alarm (Arrival.datagram msg cliaddr ∷ arrivals) = ap (note _) (action-alarm arrivals)
action-alarm (Arrival.silence ∷ arrivals) = ap (note _) (action-alarm arrivals)
action-alarm (Arrival.failed ∷ arrivals) = ap (note _) (action-alarm arrivals)

-- The servers that look at the result of `recvfrom` send back every datagram, to the address it came
-- from, in order, whatever fails between, and go on waiting; the two with SIGALRM do just the same.
pub checked-Answers :
    (arrivals : List Arrival)
    → Answers arrivals End.waiting (Alarm.udp_echo arrivals)
      × Answers arrivals End.waiting (Timeout.udp_echo true arrivals)
      × (Action.udp_echo true true arrivals ≡ Alarm.udp_echo arrivals)
unfolding Timeout.udp_echo Action.udp_echo
checked-Answers arrivals = (alarm-Answers arrivals, timeout-Answers arrivals, action-alarm arrivals)

plain-Answers :
    (arrivals : List Arrival)
    → Answers (until_failure arrivals) (end_of arrivals) (Plain.udp_echo arrivals)
unfolding Plain.udp_echo echoes datagrams until_failure end_of
plain-Answers [] = (refl, refl)
plain-Answers (Arrival.datagram msg cliaddr ∷ arrivals) =
    one_more msg cliaddr (until_failure arrivals) _ (Plain.udp_echo arrivals)
      (plain-Answers arrivals)
plain-Answers (Arrival.silence ∷ arrivals) = plain-Answers arrivals
plain-Answers (Arrival.failed ∷ arrivals) = (refl, refl)

select-Answers :
    (arrivals : List Arrival)
    → Answers (until_failure arrivals) (end_of arrivals) (Select.udp_echo arrivals)
unfolding Select.udp_echo echoes datagrams until_failure end_of
select-Answers [] = (refl, refl)
select-Answers (Arrival.datagram msg cliaddr ∷ arrivals) =
    one_more msg cliaddr (until_failure arrivals) _ (Select.udp_echo arrivals)
      (select-Answers arrivals)
select-Answers (Arrival.silence ∷ arrivals) = select-Answers arrivals
select-Answers (Arrival.failed ∷ arrivals) = (refl, refl)

-- The servers that do not look at it, without a time limit and with `select`, send back every datagram
-- that comes before the first error of `recvfrom`; at that error their behaviour is undefined.
pub unchecked-Answers :
    (arrivals : List Arrival)
    → Answers (until_failure arrivals) (end_of arrivals) (Plain.udp_echo arrivals)
      × Answers (until_failure arrivals) (end_of arrivals) (Select.udp_echo arrivals)
unchecked-Answers arrivals = (plain-Answers arrivals, select-Answers arrivals)
