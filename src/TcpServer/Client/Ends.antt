-- ===== src/TcpServer/Client/Ends.antt =====
-- How the clients end.
use ece.Prelude.{Option, none, some, Bool, not, ◌≡◌, refl, ℕ, Bytes, codes, ◌∷◌, true, false}
use ece.Sys.{
  ◌>>=◌, ◌>>◌, require, when, log_opened, sys_server_socket, Kernel, Stop, Trace, M, ForkReply,
  Event,
}
use ece.Sys.After.{After, After-bind}
use ece.TcpServer.{zeros}
use ece.TcpServer.Buffer.{ShortReads, Ends-read, Ends-zeros, has-nul}
use ece.TcpServer.Client.{
  no_socket, no_server, loopback, hello1, hello2, sent1, sent2, open_sockets, join_server, greet,
  hear, show_behind, main_together, main_forked, after_fork,
}

-- An end with status 0 or 255.
abbrev Fine : {A : Type 0} → M A → Type 0
Fine {A} m = (t : Trace) → After (m t) (λ _ v. Unit) (λ s v. s ≡ Stop.exited 255)

Fine-bind :
    {A B : Type 0} (m : M A) (f : A → M B) → Fine m → ((a : A) → Fine (f a)) → Fine (m >>= f)
Fine-bind m f h g t = After-bind (m t) f _ _ _ _ (h t) (λ s v e. e) (λ a v u. g a v)

Fine-then : {B : Type 0} (m : M (Unit {0})) (n : M B) → Fine m → Fine n → Fine (m >> n)
Fine-then m n h g = Fine-bind m (λ u. n) h (λ u. g)

Fine-require : {A : Type 0} (o : Option A) (failed : M A) → Fine failed → Fine (require o failed)
Fine-require none failed h t = h t
Fine-require (some a) failed h t = tt

Fine-when : (b : Bool) (failed : M (Unit {0})) → Fine failed → Fine (when b failed)
Fine-when true failed h t = h t
Fine-when false failed h t = tt

Fine-log : (o : Option ℕ) → Fine (log_opened o)
Fine-log none t = tt
Fine-log (some fd) t = tt

module _ (k : Kernel) where
  sockets-Fine : (failed : M ℕ) → Fine failed → Fine (open_sockets k failed)
  unfolding open_sockets
  sockets-Fine failed h =
      Fine-bind (sys_server_socket k) _ (λ t. Fine-log (k.server_socket t) t)
        (λ o. Fine-bind (require o failed) _ (Fine-require o failed h) (λ sock1.
          Fine-bind (sys_server_socket k) _ (λ t. Fine-log (k.server_socket t) t)
            (λ o'. Fine-bind (require o' failed) _ (Fine-require o' failed h) (λ sock2 t. tt))))

  join-Fine : (sock : ℕ) (failed : M (Unit {0})) → Fine failed → Fine (join_server k sock failed)
  unfolding join_server
  join-Fine sock failed h t =
      let r = k.connect t sock loopback in
      Fine-when (not r) failed h (Event.connect sock loopback r ∷ t)

  greet-Fine : (sock : ℕ) (hello line : Bytes) → Fine (greet k sock hello line)
  unfolding greet
  greet-Fine sock hello line t = tt

  hear-Fine : (sock : ℕ) (text : Bytes) → ShortReads k → Fine (hear k sock text)
  unfolding hear show_behind
  hear-Fine sock text short t =
      rw (has-nul 1023 _ (Ends-read k (zeros 1024) sock t short Ends-zeros)) tt

  -- A connection with its greeting and its answer.
  talk-Fine :
      (sock : ℕ) (failed : M (Unit {0})) (hello line text : Bytes)
      → ShortReads k
      → Fine failed
      → Fine (join_server k sock failed >> (greet k sock hello line >> hear k sock text))
  talk-Fine sock failed hello line text short h =
      Fine-then (join_server k sock failed) _ (join-Fine sock failed h) (
        Fine-then (greet k sock hello line) (hear k sock text) (greet-Fine sock hello line)
          (hear-Fine sock text short))

  fork-Fine : (socks : ℕ × ℕ) (reply : ForkReply) → ShortReads k → Fine (after_fork k socks reply)
  unfolding after_fork
  fork-Fine (sock1, sock2) ForkReply.in_child short = talk-Fine sock2 _ _ _ _ short (λ t. refl)
  fork-Fine (sock1, sock2) ForkReply.in_parent short = talk-Fine sock1 _ _ _ _ short (λ t. refl)
  fork-Fine (sock1, sock2) ForkReply.no_fork short = talk-Fine sock1 _ _ _ _ short (λ t. refl)

  -- As long as no message fills the array of 1024 bytes, the client of Lecture7 ends with status 0 or, where
  -- a socket or a connection fails, with 255, in both processes.
  pub main_forked-Fine : ShortReads k → Fine (main_forked k)
  unfolding main_forked
  main_forked-Fine short =
      Fine-bind (open_sockets k no_socket) _ (sockets-Fine no_socket (λ t. refl))
        (λ socks t. fork-Fine socks (k.fork t) short t)

  -- The same for the first client.c of Lecture8, which makes both connections before it greets.
  pub main_together-Fine : ShortReads k → Fine (main_together k)
  unfolding main_together
  main_together-Fine short =
      Fine-bind (open_sockets k no_socket) _ (sockets-Fine no_socket (λ t. refl)) (λ (sock1, sock2).
        Fine-then (join_server k sock1 no_server) _ (join-Fine sock1 no_server (λ t. refl)) (
          Fine-then (join_server k sock2 no_server) _ (join-Fine sock2 no_server (λ t. refl)) (
            Fine-then (greet k sock1 hello1 sent1) _ (greet-Fine sock1 hello1 sent1) (
              Fine-then (greet k sock2 hello2 sent2) _ (greet-Fine sock2 hello2 sent2) (
                Fine-then (hear k sock1 (codes "Client 1 received: ")) _
                  (hear-Fine sock1 (codes "Client 1 received: ") short)
                  (hear-Fine sock2 (codes "Client 2 received: ") short))))))
