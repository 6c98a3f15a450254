-- ===== src/Proxy/Tunnel/Tests.antt =====
-- Runs of the CONNECT loop.
use ece.Prelude.{◌≡◌, ◌%◌, ◌^◌, refl, [], ◌∷◌, Bytes, codes, arith, length, ltb, if◌then◌else◌}
use ece.Sys.{Kernel, PollReply, Stop, stop, sent}
use ece.Sys.After.{After}
use ece.Proxy.Upstream.{Caller}
use ece.Proxy.Relay.Read.{Passed}
use ece.Proxy.Tests.{quiet, client, server}
use ece.Proxy.Tunnel.{tunnel}
use ece.Proxy.Tunnel.Endless.{tunnel-endless}
use ece.Proxy.Tunnel.Flow.{tunnel-Passed, no_bytes}

-- Both peers have hung up: `POLLHUP` is reported for both, for ever.
abbrev hung : Kernel
hung = record quiet { poll = λ t. PollReply.ready 0x10 0x11 }

tunnel-endless_example :
    (tunnel hung
      (record { fds = client ∷ []; verdict = Stop.returned })
      client
      server
      9
      (record { from_client = 0; from_server = 0 })
      []).0
    ≡ stop Stop.running
tunnel-endless_example =
    tunnel-endless hung (record { fds = client ∷ []; verdict = Stop.returned }) client server 9
      (record { from_client = 0; from_server = 0 }) [] (λ u. (0x10, 0x11)) (λ u. refl)
      (λ u. ((refl, refl), (refl, refl)))

-- Both sides have data in the first round, and `poll` times out after it.
abbrev talking : Kernel
talking = record quiet {
  poll = λ t. if ltb (length t) 4 then PollReply.ready 1 1 else PollReply.timed_out;
}

abbrev caller : Caller
caller = record { fds = client ∷ []; verdict = Stop.returned }

tunnel_test : sent client (tunnel talking caller client server 9 no_bytes []).1 ≡ codes "answer"
unfolding tunnel ece.Proxy.Tunnel.on_reply ece.Proxy.Tunnel.on_round ece.Proxy.Tunnel.visit_both
    ece.Proxy.Tunnel.after_client ece.Proxy.Tunnel.visit ece.Proxy.Tunnel.take_from
    ece.Proxy.Tunnel.pass_on
tunnel_test = refl

tunnel-Passed_example :
    After
      (tunnel talking caller client server 9 no_bytes [])
      (λ totals t'.
        (up : Bytes) × (down : Bytes) × Passed server client [] t' up
        × Passed client server [] t' down
        × (totals.from_client ≡ length up % 2 ^ 64)
        × (totals.from_server ≡ length down % 2 ^ 64))
      (λ s t'.
        (up : Bytes) × (down : Bytes) × Passed server client [] t' up
        × Passed client server [] t' down)
tunnel-Passed_example = tunnel-Passed talking caller client server 9 [] (λ e. omega arith)
