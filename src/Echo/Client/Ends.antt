-- ===== src/Echo/Client/Ends.antt =====
-- The clients that look at the result of `recvfrom` come to an end.
use ece.Prelude.{◌⊎◌, ◌≡◌, List, [], ◌∷◌}
use ece.Echo.Client.{Reply, End, Run}
use ece.Echo.Client.Select
use ece.Echo.Client.Alarm
use ece.Echo.Client.Action
use ece.Echo.Client.Timeout

-- Some `recvfrom` fails.
abbrev pub HasFailure : List Reply → Type 0
HasFailure [] = ⊥
HasFailure (Reply.failed ∷ replies) = Unit
HasFailure (r ∷ replies) = HasFailure replies

-- An end of the client with `select`.
abbrev pub SelectEnd : List Reply → Run → Type 0
SelectEnd replies run = (run.1 ≡ End.returned) ⊎ ((run.1 ≡ End.undefined) × HasFailure replies)
