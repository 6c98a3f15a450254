-- ===== src/TcpServer/Tests.antt =====
-- Runs of the servers, and the theorems at them.
use ece.Prelude.{
  ℕ, ◌≡◌, ◌==◌, ◌++◌, if◌then◌else◌, refl, arith, true, false, some, none, [], ◌∷◌, Bytes, codes,
}
use ece.CString.{c_string}
use ece.Sys.{Kernel, Event, ForkReply, PollReply, Stop, Trace, opens}
use ece.Sys.After.{After}
use ece.Sys.Balance.{Balance, bit}
use ece.TcpServer.{show, answer, zeros}
use ece.TcpServer.Buffer.{Ends, Ends-zeros, ShortReads}
use ece.TcpServer.Sequential.{serve_client, serve}
use ece.TcpServer.Sequential.Safe.{serve-Safe}
use ece.TcpServer.Forked.{accept_rounds}
use ece.TcpServer.Forked.Safe.{accept_rounds-Ending, Ending}

abbrev how_many : Trace → ℕ
how_many t = opens (λ fd. 1) t

-- Each client gets the descriptor 4. The first says "hello, server", the others "hi". The second `fork`
-- returns in the child.
abbrev two_clients : Kernel
two_clients = record {
  read = λ t fd n. some (if how_many t == 1 then codes "hello, server" else codes "hi");
  write = λ t fd bytes. true;
  getaddrinfo = λ t host service. none;
  socket = λ t addr. none;
  connect = λ t fd addr. false;
  open_file = λ t path. none;
  poll = λ t. PollReply.failed;
  server_socket = λ t. some 3;
  bind = λ t fd port. true;
  listen = λ t fd. true;
  accept = λ t. if how_many t == 2 then none else some (4, 0x0100007f);
  waitpid = λ t. false;
  fork = λ t. if how_many t == 1 then ForkReply.in_parent else ForkReply.in_child;
  time_str = λ t. [];
  beyond = λ t. [];
}

two_clients-ShortReads : ShortReads two_clients
two_clients-ShortReads t fd m e = ground arith

-- The end of the first client's message is printed behind the second client's.
abbrev texts : Trace → Bytes
texts [] = []
texts (Event.print text ∷ t) = texts t ++ text
texts (e ∷ t) = texts t

prints_rest :
    texts ((serve two_clients 3 (zeros 30) 2 []).1)
    ≡ codes "hello, server\nResponse msg sent\nhillo, server\nResponse msg sent\n"
unfolding serve serve_client answer show c_string
prints_rest = refl

serve-Safe_example :
    After
      (serve two_clients 3 (zeros 1024) 3 [])
      (λ b v. Ends b × Balance (bit 4) [] v 0 0)
      (λ s v. (s ≡ Stop.exited 1) × Balance (bit 4) [] v 0 0)
serve-Safe_example =
    serve-Safe two_clients (bit 4) 3 3 (zeros 1024) [] two_clients-ShortReads Ends-zeros

accept_rounds-Ending_example :
    After
      (accept_rounds two_clients 3 (zeros 1024) 2 [])
      (λ _ v. Balance (bit 4) [] v 0 0)
      (Ending two_clients (bit 4) 3 [])
accept_rounds-Ending_example =
    accept_rounds-Ending two_clients (bit 4) 3 2 [] two_clients-ShortReads
