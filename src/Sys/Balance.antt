-- ===== src/Sys/Balance.antt =====
-- Counting descriptors: what a run has closed, against what it was handed.
use ece.Prelude.{some, ℕ, ◌+◌, ◌≡◌, [], ◌∷◌, List, ◌==◌, if◌then◌else◌}
use ece.Sys.{connected, Stop, Trace, closes, opens}

abbrev pub tally : (ℕ → ℕ) → List ℕ → ℕ
tally w [] = 0
tally w (fd ∷ fds) = w fd + tally w fds

-- From `t` to `t'` as much was closed as was handed out, up to `paid` more and `owed` less.
abbrev pub Balance : (ℕ → ℕ) → Trace → Trace → ℕ → ℕ → Type 0
Balance w t t' paid owed = closes w t' + opens w t + owed ≡ closes w t + opens w t' + paid

-- As many were closed as were handed out, and no connection was made.
abbrev pub Quiet : (ℕ → ℕ) → Trace → Trace → Type 0
Quiet w t t' = Balance w t t' 0 0 × (connected t' ≡ connected t)

-- One descriptor more is open, and it is that of the latest connection.
abbrev pub Holding : (ℕ → ℕ) → Trace → Trace → ℕ → Type 0
Holding w t t' fd = Balance w t t' 0 (w fd) × (connected t' ≡ some fd)

-- The weight of one descriptor among all.
abbrev pub bit : ℕ → ℕ → ℕ
bit d fd = if fd == d then 1 else 0

-- What holds at an orderly end; undefined behaviour and a spent fuel are none.
abbrev pub Orderly : Stop → Type 0 → Type 0
Orderly Stop.returned P = P
Orderly (Stop.exited n) P = P
Orderly Stop.aborted P = P
Orderly Stop.undefined P = Unit
Orderly Stop.running P = Unit

pub Orderly-map : (s : Stop) (P Q : Type 0) → (P → Q) → Orderly s P → Orderly s Q
Orderly-map Stop.returned P Q f h = f h
Orderly-map (Stop.exited n) P Q f h = f h
Orderly-map Stop.aborted P Q f h = f h
Orderly-map Stop.undefined P Q f h = tt
Orderly-map Stop.running P Q f h = tt
