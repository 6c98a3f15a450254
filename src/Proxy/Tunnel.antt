-- ===== src/Proxy/Tunnel.antt =====
-- The CONNECT branch: bytes are passed both ways between the client and the server.
pub mod Balance
pub mod Carry
pub mod Endless
pub mod Flow
mod Tests
use Prim.Native.Nat.{bit_and}
use ece.Prelude.{
  Bytes, ℕ, zero, suc, ◌+◌, ◌%◌, ◌^◌, Option, none, some, Bool, [], ◌∷◌, ◌++◌, ◌==◌, length,
  if◌then◌else◌, not,
}
use ece.Sys.{Kernel, PollReply, Stop, M, pure, halt, ◌>>=◌, sys_read, sys_write, sys_poll}
use ece.Proxy.Upstream.{Caller, give_up}

-- `POLLIN`, `POLLERR`, and `POLL_HUP`: the last is a code of SIGPOLL, not the bit `POLLHUP` (0x10).
abbrev pub pollin : ℕ
pollin = 1

abbrev pub pollerr : ℕ
pollerr = 8

abbrev pub poll_hup : ℕ
poll_hup = 6

abbrev pub has : ℕ → ℕ → Bool
has events bit = not (bit_and events bit == 0)

-- `long total[2]`, as 64-bit patterns: bytes from the client, bytes from the server.
pub record Totals : Type 0 where
  pub from_client : ℕ
  pub from_server : ℕ

abbrev pub add64 : ℕ → ℕ → ℕ
add64 a b = (a + b) % 2 ^ 64

-- How a round over the two entries ends: with another round, or with `exitCondition` set.
pub data Round : Type 0 where
  again : Totals → Round
  hung_up : Totals → Round

-- The round after its second entry.
abbrev pub close_round : ℕ → ℕ → Option ℕ → Round
close_round sent recv none = hung_up (record { from_client = sent; from_server = recv })
close_round sent recv (some total) = again (record { from_client = sent; from_server = total })

module _ (k : Kernel) where
  unfoldable pub pass_on : ℕ → ℕ → Option Bytes → M (Option ℕ)
  pass_on to total none = pure (some total)
  pass_on to total (some []) = pure (some total)
  pass_on to total (some (b ∷ bs)) = do
    done ← sys_write k to (b ∷ bs)
    pure (some (add64 total (length (b ∷ bs))))

  -- `read` from one side, and `write` to the other what has come.
  unfoldable pub take_from : ℕ → ℕ → ℕ → M (Option ℕ)
  take_from from to total = do r ← sys_read k from 1024; pass_on to total r

module _ (k : Kernel) (who : Caller) (client_fd server_fd : ℕ) where
  -- One entry of `fds`: the new total, or `none` for a hang-up.
  unfoldable pub visit : ℕ → ℕ → ℕ → ℕ → M (Option ℕ)
  visit from to events total =
      if has events poll_hup
      then pure none
      else if has events pollerr
      then give_up (server_fd ∷ who.fds) who.verdict
      else if has events pollin
      then take_from k from to total
      else pure (some total)

  -- The `for` loop over the two entries.
  unfoldable pub after_client : ℕ → Totals → Option ℕ → M Round
  after_client server_events totals none = pure (hung_up totals)
  after_client server_events totals (some sent) = do
    b ← visit server_fd client_fd server_events totals.from_server
    pure (close_round sent totals.from_server b)

  unfoldable pub visit_both : ℕ → ℕ → Totals → M Round
  visit_both client_events server_events totals = do
    a ← visit client_fd server_fd client_events totals.from_client
    after_client server_events totals a

  -- The end of a round, and what follows a reply of `poll`; `next` is the loop itself.
  unfoldable pub on_round : (Totals → M Totals) → Round → M Totals
  on_round next (again totals) = next totals
  on_round next (hung_up totals) = pure totals

  unfoldable pub on_reply : (Totals → M Totals) → Totals → PollReply → M Totals
  on_reply next totals PollReply.failed = give_up (who.fds ++ server_fd ∷ []) who.verdict
  on_reply next totals PollReply.timed_out = pure totals
  on_reply next totals (PollReply.ready client_events server_events) = do
    round ← visit_both client_events server_events totals
    on_round next round

  -- The `while (1)` loop.
  unfoldable pub tunnel : ℕ → Totals → M Totals
  tunnel zero totals = halt Stop.running
  tunnel (suc fuel) totals = do reply ← sys_poll k; on_reply (tunnel fuel) totals reply
