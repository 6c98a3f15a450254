-- ===== src/Proxy/Tunnel/Carry.antt =====
-- How one entry of the CONNECT loop passes bytes on, and how the counts add up.
use ece.Prelude.{
  Bytes, ℕ, ◌+◌, ◌%◌, ◌^◌, ◌<◌, ◌≡◌, ◌≢◌, refl, Option, some, none, [], ◌∷◌, ◌++◌, List, length,
  arith, append-nil, length-append,
}
use ece.Sys.{Kernel, Event, Trace, sent, received, closed}
use ece.Sys.After.{After}
use ece.Proxy.Relay.Read.{Passed, Passed-trans}
use ece.Proxy.Tunnel.{Totals, pass_on, take_from}

pub sent-closed : (fd : ℕ) (fds : List ℕ) (t : Trace) → sent fd (closed fds t) ≡ sent fd t
sent-closed fd [] t = refl
sent-closed fd (d ∷ fds) t = sent-closed fd fds (Event.close d ∷ t)

pub received-closed :
    (fd : ℕ) (fds : List ℕ) (t : Trace) → received fd (closed fds t) ≡ received fd t
received-closed fd [] t = refl
received-closed fd (d ∷ fds) t = received-closed fd fds (Event.close d ∷ t)

-- The total after an entry: a hang-up leaves it.
abbrev pub total_after : ℕ → Option ℕ → ℕ
total_after total none = total
total_after total (some n) = n

-- Nothing passed.
abbrev pub Quiet : ℕ → ℕ → Trace → Trace → Type 0
Quiet c s t t' = (sent c t' ≡ sent c t) × (received s t' ≡ received s t)

pub Quiet-Passed : (c s : ℕ) (t t' : Trace) → Quiet c s t t' → Passed c s t t' []
Quiet-Passed c s t t' (p, q) =
    (rw (p, append-nil (sent c t)) refl, rw (q, append-nil (received s t)) refl)

-- One entry, from which `x` came: it is passed to the other side and counted.
pub record Visited (from to total : ℕ) (t : Trace) (o : Option ℕ) (t' : Trace) : Type 0 where
  pub x : Bytes
  pub passed : Passed to from t t' x
  pub quiet : Quiet from to t t'
  pub counted : total_after total o ≡ (total + length x) % 2 ^ 64

pub nothing-Visited :
    (from to total : ℕ) (t : Trace) (o : Option ℕ) (t' : Trace)
    → total < 2 ^ 64
    → total_after total o ≡ total
    → Quiet to from t t'
    → Quiet from to t t'
    → Visited from to total t o t'
nothing-Visited from to total t o t' small same p q = record {
  x = [];
  passed = Quiet-Passed to from t t' p;
  quiet = q;
  counted = omega arith;
}

pass_on-Visited :
    (k : Kernel) (from to total : ℕ) (r : Option Bytes) (t : Trace)
    → from ≢ to
    → total < 2 ^ 64
    → After (pass_on k to total r (Event.read from r ∷ t)) (Visited from to total t) (λ s t'. ⊥)
unfolding pass_on
pass_on-Visited k from to total none t ne small =
    nothing-Visited from to total t _ _ small refl (refl, refl) (refl, refl)
pass_on-Visited k from to total (some []) t ne small =
    nothing-Visited from to total t _ _ small refl
      (refl, ground (arith, append-nil (received from t)))
      (refl, ground (arith, append-nil (received to t)))
pass_on-Visited k from to total (some (b ∷ bs)) t ne small = record {
  x = b ∷ bs;
  passed = (ground arith, ground arith);
  quiet = (ground arith, ground arith);
  counted = refl;
}

pub take_from-Visited :
    (k : Kernel) (from to total : ℕ) (t : Trace)
    → from ≢ to
    → total < 2 ^ 64
    → After (take_from k from to total t) (Visited from to total t) (λ s t'. ⊥)
unfolding take_from
take_from-Visited k from to total t ne small =
    pass_on-Visited k from to total (k.read t from 1024) t ne small

-- The loop from totals `a` to totals `b`: `up` came from the client, `down` from the server, and they
-- went to the other side, and were added to the totals.
pub record Carried (client_fd server_fd : ℕ) (a : Totals) (t : Trace) (b : Totals) (t' : Trace)
    : Type 0 where
  pub up : Bytes
  pub down : Bytes
  pub up_passed : Passed server_fd client_fd t t' up
  pub down_passed : Passed client_fd server_fd t t' down
  pub up_counted : b.from_client ≡ (a.from_client + length up) % 2 ^ 64
  pub down_counted : b.from_server ≡ (a.from_server + length down) % 2 ^ 64

abbrev pub Small : Totals → Type 0
Small a = (a.from_client < 2 ^ 64) × (a.from_server < 2 ^ 64)

pub Carried-trans :
    (c s : ℕ) (a : Totals) (t : Trace) (b : Totals) (u : Trace) (d : Totals) (v : Trace)
    → Carried c s a t b u
    → Carried c s b u d v
    → Carried c s a t d v
Carried-trans c s a t b u d v f g = record {
  up = f.up ++ g.up;
  down = f.down ++ g.down;
  up_passed = Passed-trans s c t u v f.up g.up f.up_passed g.up_passed;
  down_passed = Passed-trans c s t u v f.down g.down f.down_passed g.down_passed;
  up_counted = omega (arith, length-append f.up g.up, f.up_counted, g.up_counted);
  down_counted = omega (arith, length-append f.down g.down, f.down_counted, g.down_counted);
}

-- The entry of the client, and that of the server.
pub up-Carried :
    (c s : ℕ) (a : Totals) (t : Trace) (o : Option ℕ) (t' : Trace)
    → Small a
    → Visited c s a.from_client t o t'
    → Carried c s a t
        (record { from_client = total_after a.from_client o; from_server = a.from_server })
        t'
up-Carried c s a t o t' small h = record {
  up = h.x;
  down = [];
  up_passed = h.passed;
  down_passed = Quiet-Passed c s t t' h.quiet;
  up_counted = h.counted;
  down_counted = omega (arith, small);
}

pub down-Carried :
    (c s : ℕ) (a : Totals) (t : Trace) (o : Option ℕ) (t' : Trace)
    → Small a
    → Visited s c a.from_server t o t'
    → Carried c s a t
        (record { from_client = a.from_client; from_server = total_after a.from_server o })
        t'
down-Carried c s a t o t' small h = record {
  up = [];
  down = h.x;
  up_passed = Quiet-Passed s c t t' h.quiet;
  down_passed = h.passed;
  up_counted = omega (arith, small);
  down_counted = h.counted;
}

pub Carried-quiet :
    (c s : ℕ) (a : Totals) (t t' : Trace)
    → Small a
    → Quiet c s t t'
    → Quiet s c t t'
    → Carried c s a t a t'
Carried-quiet c s a t t' small p q = record {
  up = [];
  down = [];
  up_passed = Quiet-Passed s c t t' q;
  down_passed = Quiet-Passed c s t t' p;
  up_counted = omega (arith, small);
  down_counted = omega (arith, small);
}
