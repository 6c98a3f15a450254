-- ===== src/TcpServer/Threaded/Safe.antt =====
-- The threads of Lecture8/concurrent_server_thread/server.c.
use ece.Prelude.{ℕ, ◌≡◌, refl, arith, Bool, true, codes, Option-cases, inl, inr, some, ◌∷◌, ◌++◌}
use ece.CString.Decimal.{show_ℕ}
use ece.Sys.{Kernel, Event, Stop, Trace, value, continue}
use ece.Sys.After.{After}
use ece.Sys.Balance.{Balance}
use ece.TcpServer.{zeros}
use ece.TcpServer.Buffer.{
  Ends-zeros, ShortReads, answered, answer-Ends, Ends-read, c_string-fill-zeros, text_of,
}
use ece.TcpServer.Threaded.{thread_handle, start_thread}

module _ (k : Kernel) where
  -- What a thread has done that starts behind `t`.
  abbrev pub thread_trace : ℕ → ℕ → Trace → Trace
  thread_trace self fd t =
      let before = Event.print (codes "Entering the thread: " ++ show_ℕ self ++ codes "\n") ∷ t in
      Event.close fd
      ∷ Event.print (codes "Response msg sent from the thread: " ++ show_ℕ self ++ codes "\n")
      ∷ answered k (text_of (k.read before fd 1024)) fd before

  pub thread_handle-eq :
      (self fd : ℕ) (t : Trace)
      → ShortReads k
      → thread_handle k self fd t ≡ (value tt, thread_trace self fd t)
  unfolding thread_handle
  thread_handle-eq self fd t short =
      let u = Event.print (codes "Entering the thread: " ++ show_ℕ self ++ codes "\n") ∷ t in
      rw
        (
          answer-Ends k (zeros 1024) fd u (Ends-read k (zeros 1024) fd u short Ends-zeros),
          c_string-fill-zeros (k.read u fd 1024),
        )
        refl

-- As long as `malloc` and `pthread_create` succeed and no message fills the array, a round of `main`
-- and the run of the thread that it starts leave as many descriptors as there were; what the thread
-- prints of its client's message is just that message up to the first NUL.
pub thread-Balance :
    (k : Kernel) (malloc : Trace → Bool) (tid : Trace → ℕ) (w : ℕ → ℕ) (t : Trace)
    → ShortReads k
    → ((u : Trace) → malloc u ≡ true)
    → After
        (continue
          (start_thread k malloc (λ u. some (tid u)) t)
          (λ (self, fd). thread_handle k self fd))
        (λ _ v. ((self fd : ℕ) × (u : Trace) × (v ≡ thread_trace k self fd u)) × Balance w t v 0 0)
        (λ s v. (s ≡ Stop.exited 1) × Balance w t v 0 0)
unfolding start_thread
thread-Balance k malloc tid w t short h =
    let t1 =
      Event.print (codes "Waiting for a client to connect" ++ 226 ∷ 128 ∷ 166 ∷ codes "\n") ∷ t in
    elim (Option-cases (k.accept t1)) [
      | inl f ↦ rw (f, h t1) (refl, omega arith)
      | inr ((fd, s_addr), f) ↦
          let t2 = Event.opened fd ∷ t1 in
          let t3 =
            Event.print (codes "from main(): tid = " ++ show_ℕ (tid t2) ++ codes "\n")
            ∷ Event.spawned
            ∷ t2 in
          rw (f, h t1, thread_handle-eq k (tid t2) fd t3 short)
            ((tid t2, fd, t3, refl), omega arith)
    ]
