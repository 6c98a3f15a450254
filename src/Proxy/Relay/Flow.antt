-- ===== src/Proxy/Relay/Flow.antt =====
-- What `relay` passes on, and what it counts.
use ece.Prelude.{
  sym, Bool-cases, ◌==◌, ◌<◌, ℕ, zero, suc, ◌^◌, ◌≡◌, ◌≢◌, ◌⊎◌, inl, inr, refl, Option, some, none,
  [], ◌∷◌, ◌++◌, Bytes, arith, length, add32, append-nil, length-append,
}
use ece.Sys.{M, Event, Kernel, Stop, Trace, sent, received}
use ece.Sys.After.{After, After-map}
use ece.Proxy.Relay.Read.{
  Passed, Passed-trans, NoBytes, AtEnd, copied, Unfinished, planned, RestRead, AllRead,
}
use ece.Proxy.Relay.{
  after_read, follow, relay_rest, after_first, drain, relay, response_size, count,
}

module _ (k : Kernel) (client_fd server_fd : ℕ) where
  abbrev Relayed : Trace → ℕ → Trace → Type 0
  Relayed t total t' =
      (x : Bytes) × Passed client_fd server_fd t t' x × AllRead k client_fd server_fd t x total t'

  -- The loop: the bytes passed on are added to `total`, up to the end of the data.
  abbrev Drained : ℕ → Trace → ℕ → Trace → Type 0
  Drained total t total' t' =
      (x : Bytes) × Passed client_fd server_fd t t' x
      × (total' ≡ add32 total (length x))
      × AtEnd server_fd t'

  Drained-more :
      (total : ℕ) (y : Bytes) (t u v : Trace) (total' : ℕ)
      → Passed client_fd server_fd t u y
      → Drained (add32 total (length y)) u total' v
      → Drained total t total' v
  Drained-more total y t u v total' p (x, q, e, h) =
      (y ++ x, Passed-trans client_fd server_fd t u v y x p q, omega (arith, length-append y x), h)

  copied-Passed :
      (x : Bytes) (t : Trace) → Passed client_fd server_fd t (copied k client_fd server_fd x t) x
  copied-Passed x t = ground arith

  -- A `read` that brings nothing.
  nothing-Drained :
      (total : ℕ) (r : Option Bytes) (t : Trace)
      → total < 2 ^ 32
      → NoBytes r
      → Drained total t total (Event.read server_fd r ∷ t)
  nothing-Drained total none t small h = (
    [],
    (sym (append-nil (sent client_fd t)), sym (append-nil (received server_fd t))),
    omega arith,
    (t, none, refl, tt),
  )
  nothing-Drained total (some []) t small h = (
    [],
    ground (arith, append-nil (sent client_fd t), append-nil (received server_fd t)),
    omega arith,
    (t, some [], refl, tt),
  )
  nothing-Drained total (some (b ∷ bs)) t small h = absurd h

  -- `next` stands for the rest of the loop.
  after_read-Drained :
      (next : ℕ → M ℕ)
      → ((total : ℕ) (t : Trace)
          → total < 2 ^ 32
          → After (next total t) (Drained total t) Unfinished)
      → (total : ℕ) (r : Option Bytes) (t : Trace) → total < 2 ^ 32
      → After
          (after_read k next client_fd total r (Event.read server_fd r ∷ t))
          (Drained total t)
          Unfinished
  unfolding after_read
  after_read-Drained next h total none t small = nothing-Drained total none t small tt
  after_read-Drained next h total (some []) t small = nothing-Drained total (some []) t small tt
  after_read-Drained next h total (some (b ∷ bs)) t small =
      let u = copied k client_fd server_fd (b ∷ bs) t in
      After-map (next (add32 total (length (b ∷ bs))) u) _ _ _ _
        (λ total' v g. Drained-more total (b ∷ bs) t u v total' (copied-Passed (b ∷ bs) t) g)
        (λ s v g. g) (h (add32 total (length (b ∷ bs))) u (omega arith))

  drain-Drained :
      (fuel total : ℕ) (t : Trace)
      → total < 2 ^ 32
      → After (drain k fuel client_fd server_fd total t) (Drained total t) Unfinished
  unfolding drain
  drain-Drained zero total t small = inr refl
  drain-Drained (suc fuel) total t small =
      after_read-Drained (drain k fuel client_fd server_fd) (drain-Drained fuel) total
        (k.read t server_fd response_size) t small

  module _ (t : Trace) (y : Bytes) (full : length y ≡ response_size) where
    abbrev behind : Trace
    behind = copied k client_fd server_fd y t

    -- The rest of a response, behind its first 1024 bytes.
    abbrev RestPassed : ℕ → Trace → Type 0
    RestPassed total t' =
        (x : Bytes) × Passed client_fd server_fd t t' x
        × RestRead k client_fd server_fd t y x total t'

    -- One more `read`.
    one_more :
        (fuel n : ℕ) (r : Option Bytes)
        → planned k client_fd server_fd y t ≡ some (some n)
        → k.read behind server_fd n ≡ r
        → After
            (follow k fuel client_fd server_fd (count (some y)) (some n) behind)
            RestPassed
            Unfinished
    unfolding follow
    one_more fuel n none p e =
        rw e (y, copied-Passed y t, inr (n, p, inr (e, refl, omega (arith, full))))
    one_more fuel n (some z) p e = rw e (
      y ++ z,
      Passed-trans client_fd server_fd t behind (copied k client_fd server_fd z behind) y z
          (copied-Passed y t) (copied-Passed z behind),
      inr (n, p, inl (z, e, refl, omega (arith, full, length-append y z))),
    )

    to_end :
        (fuel : ℕ)
        → planned k client_fd server_fd y t ≡ some none
        → After (drain k fuel client_fd server_fd (count (some y)) behind) RestPassed Unfinished
    to_end fuel p =
        After-map (drain k fuel client_fd server_fd (count (some y)) behind) _ _ _ _
          (λ total v (x, q, e, h). (
            y ++ x,
            Passed-trans client_fd server_fd t behind v y x (copied-Passed y t) q,
            inl (p, omega (arith, e, full, length-append y x), h),
          ))
          (λ s v g. g) (drain-Drained fuel (count (some y)) behind (omega arith))

    rest-Passed :
        (fuel : ℕ) (plan : Option (Option ℕ))
        → planned k client_fd server_fd y t ≡ plan
        → After (relay_rest k fuel client_fd server_fd y behind) RestPassed Unfinished
    unfolding relay_rest follow
    rest-Passed fuel none p = rw p (inl refl)
    rest-Passed fuel (some none) p = rw p (to_end fuel p)
    rest-Passed fuel (some (some n)) p = rw p (one_more fuel n (k.read behind server_fd n) p refl)

  relay-Relayed :
      (fuel : ℕ) (t : Trace) (r : Option Bytes)
      → k.read t server_fd response_size ≡ r
      → After (relay k fuel client_fd server_fd t) (Relayed t) Unfinished
  unfolding relay after_first
  relay-Relayed fuel t none e = rw e (
    [],
    (sym (append-nil (sent client_fd t)), sym (append-nil (received server_fd t))),
    inl (e, refl, refl),
  )
  relay-Relayed fuel t (some y) e = elim (Bool-cases (length y == response_size)) [
    | inl f ↦
        let full : length y ≡ response_size = ground arith in
        rw (e, f)
          (After-map (relay_rest k fuel client_fd server_fd y (copied k client_fd server_fd y t)) _
            _ _ _ (λ total v (x, q, h). (x, q, inr (y, e, inr (full, h)))) (λ s v g. g)
            (rest-Passed t y full fuel (planned k client_fd server_fd y t) refl))
    | inr f ↦
        let short : length y ≢ response_size = (λ h. ground arith) in
        rw (e, f) (y, copied-Passed y t, inr (y, e, inl (short, refl, omega arith)))
  ]

-- When `relay` returns, the client has been sent just the bytes that came from the server, in their
-- order. These are: none, if the first `read` failed, and -1 is returned then; what the first `read`
-- brought, if that is not 1024 bytes; otherwise, if the array shows no length, all up to the end of the
-- data or to an error of `read`; and if it shows one, also what one `read` more brought, which may be
-- less than the rest. The number returned is that of the bytes, in an `int`, but 1023 where that last
-- `read` failed. Otherwise the run met undefined behaviour or is still going on.
pub relay-Passed :
    (k : Kernel) (client_fd server_fd fuel : ℕ) (t : Trace)
    → After
        (relay k fuel client_fd server_fd t)
        (λ total t'.
          (x : Bytes) × Passed client_fd server_fd t t' x
          × AllRead k client_fd server_fd t x total t')
        (λ s t'. (s ≡ Stop.undefined) ⊎ (s ≡ Stop.running))
relay-Passed k client_fd server_fd fuel t =
    relay-Relayed k client_fd server_fd fuel t (k.read t server_fd response_size) refl
