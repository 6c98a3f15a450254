-- ===== src/Proxy/Tests.antt =====
-- Runs of the proxies against small kernels, and the theorems at inputs that meet their hypotheses.
use ece.Prelude.{
  ◌⊎◌, ℕ, ◌+◌, ◌≡◌, refl, some, none, true, false, [], ◌∷◌, ◌++◌, Bytes, codes, if◌then◌else◌, ◌==◌,
  arith, pos,
}
use ece.Sys.{connected, Kernel, Trace, PollReply, ForkReply, sent}
use ece.Sys.After.{After}
use ece.Sys.Balance.{Balance, Orderly, bit}
use ece.Sys.{Stop}
use ece.CString.{strstr}
use ece.CString.Decimal.{show_ℕ}
use ece.Proxy.Url.{parse_url, parse_authority}
use ece.Proxy.Url.RoundTrip.{parse_url-path, parse_url-port}
use ece.Proxy.Request.{
  scan_request, keep_alive, connection_close, get_line, rewrite_request, put_headers,
}
use ece.Proxy.Request.Rewrite.{rewrite-keep_alive, rewrite_in_bounds, first_line}
use ece.Proxy.Exchange.Balance.{Unlogged}
use ece.Proxy.Relay.{relay}
use ece.Proxy.Relay.Read.{Passed, AllRead}
use ece.Proxy.Relay.Flow.{relay-Passed}
use ece.Proxy.Log.{quad_of}
use ece.Proxy.Child.{child}
use ece.Proxy.Child.Balance.{child-Balance}
use ece.Proxy.Sequential.{serve_client, serve_rounds}
use ece.Proxy.Sequential.Balance.{serve_client-Balance, serve_rounds-leak}
use ece.Proxy.Thread.{thread_handle}
use ece.Proxy.Thread.Balance.{thread_handle-Balance}

abbrev pub client : ℕ
client = 4

abbrev pub server : ℕ
server = 5

abbrev log_fd : ℕ
log_fd = 6

abbrev request_text : Bytes
request_text = codes "GET http://h/x HTTP/1.0\r\nConnection: keep-alive\r\n\r\n"

-- The client sends one request, the server one short answer, and `poll` times out.
abbrev pub quiet : Kernel
quiet = record {
  read = λ t fd n. some (if fd == client then request_text else codes "answer");
  write = λ t fd bytes. true;
  getaddrinfo = λ t host service. some 1;
  socket = λ t addr. some server;
  connect = λ t fd addr. true;
  open_file = λ t path. some log_fd;
  poll = λ t. PollReply.timed_out;
  server_socket = λ t. some 3;
  bind = λ t fd port. true;
  listen = λ t fd. true;
  accept = λ t. some (client, 0x0100007f);
  waitpid = λ t. false;
  fork = λ t. ForkReply.in_child;
  time_str = λ t. codes "now";
  beyond = λ t. [];
}

-- The trace of a thread; a test unfolds this alone.
thread_trace : Kernel → Trace
unfolding ece.Proxy.Thread.thread_handle ece.Proxy.Thread.serve ece.Proxy.Thread.dispatch
    ece.Proxy.Request.scan_request ece.CString.scan_word ece.CString.c_string
    ece.Proxy.Thread.by_method ece.CString.strncasecmp_eq ece.Proxy.Thread.handle_get
    ece.Proxy.Exchange.fetch ece.Proxy.Url.parse_url ece.Proxy.Url.scan_full ece.CString.scan_host
    ece.Proxy.Url.scan_short ece.Proxy.Exchange.fetch_from ece.Proxy.Upstream.connect_server
    ece.Proxy.Exchange.forward ece.Proxy.Request.rewrite_request ece.CString.Decimal.show_int
    ece.CString.span ece.CString.strchr ece.CString.strip_prefix ece.CString.strstr
    ece.Proxy.Exchange.send ece.Proxy.Log.format_log_entry ece.Proxy.Relay.after_first
    ece.Proxy.Relay.relay ece.Proxy.Request.put_headers ece.Proxy.Thread.log_entry
thread_trace k = (thread_handle k 9 client 0x0100007f []).1

thread_sends :
    sent server (thread_trace quiet) ≡ codes "GET /x HTTP/1.0\r\nConnection: close\r\n\r\n"
unfolding thread_trace
thread_sends = refl

thread_answers : sent client (thread_trace quiet) ≡ codes "answer"
unfolding thread_trace
thread_answers = refl

thread_logs : sent log_fd (thread_trace quiet) ≡ codes "now: 127.0.0.1 http://h/x 6\n"
unfolding thread_trace
thread_logs = refl

thread_handle-Balance_example :
    After
      (thread_handle quiet 9 client 0x0100007f [])
      (λ _ t'. Balance (bit server) [] t' (bit server client) 0)
      (λ s t'. Orderly s (
        Balance (bit server) [] t' (bit server client) 0
        ⊎ Unlogged quiet (codes "proxy.log") (client ∷ []) (bit server) [] t'))
thread_handle-Balance_example = thread_handle-Balance quiet 9 client 0x0100007f (bit server) []

child-Balance_example :
    After
      (child quiet 9 3 client 0x0100007f [])
      (λ _ t'.
        (fd : ℕ) × (connected t' ≡ some fd)
        × Balance (bit server) [] t' (bit server client) (bit server fd))
      (λ s t'. Orderly s (
        Balance (bit server) [] t' (bit server client + bit server 3) 0
        ⊎ Unlogged quiet (codes "proxy.log") (client ∷ 3 ∷ []) (bit server) [] t'))
child-Balance_example = child-Balance quiet 9 3 client 0x0100007f (bit server) []

serve_client-Balance_example :
    After
      (serve_client quiet 9 3 client 0x0100007f [])
      (λ _ t'.
        (fd : ℕ) × (connected t' ≡ some fd)
        × Balance (bit server) [] t' (bit server client) (bit server fd))
      (λ s t'. Orderly s (
        Balance (bit server) [] t' (bit server client + bit server 3) 0
        ⊎ Unlogged quiet (codes "logfile.txt") (client ∷ 3 ∷ []) (bit server) [] t'))
serve_client-Balance_example = serve_client-Balance quiet 9 3 client 0x0100007f (bit server) []

serve_rounds-leak_example :
    After (serve_rounds quiet 9 3 2 []) (λ _ t'. Balance (λ _. 1) [] t' 0 2) (λ s t'. Unit {0})
serve_rounds-leak_example = serve_rounds-leak quiet 9 3 2 []

relay-Passed_example :
    After
      (relay quiet 9 client server [])
      (λ total t'.
        (x : Bytes) × Passed client server [] t' x × AllRead quiet client server [] x total t')
      (λ s t'. (s ≡ Stop.undefined) ⊎ (s ≡ Stop.running))
relay-Passed_example = relay-Passed quiet client server 9 []

parse_url-port_example :
    parse_url (codes "http://" ++ (codes "h.org" ++ b':' ∷ (show_ℕ 8080 ++ b'/' ∷ codes "a")))
    ≡ some (record {
      host = some (codes "h.org");
      port = pos 8080;
      resource = some (b'/' ∷ codes "a");
    })
parse_url-port_example =
    parse_url-port (codes "h.org") (codes "a") 8080 ((λ e. ground arith), omega arith) (refl, tt)
      (omega arith)

two_headers :
    strstr (codes "A: b\r\nConnection: keep-alive\r\nC: d\r\n") keep_alive
    ≡ some (codes "A: b\r\n", codes "C: d\r\n")
unfolding strstr
two_headers = refl

rewrite-keep_alive_example :
    (codes "A: b\r\nConnection: keep-alive\r\nC: d\r\n"
      ≡ codes "A: b\r\n" ++ (keep_alive ++ codes "C: d\r\n"))
    × (rewrite_request
          (codes "GET" ++ b'\n' ∷ codes "A: b\r\nConnection: keep-alive\r\nC: d\r\n")
          (codes "/x")
          (codes "v")
        ≡ some (
            get_line (codes "/x") (codes "v")
            ++ (codes "A: b\r\n" ++ (connection_close ++ codes "C: d\r\n"))))
rewrite-keep_alive_example =
    rewrite-keep_alive (codes "GET") (codes "A: b\r\nConnection: keep-alive\r\nC: d\r\n")
      (codes "/x") (codes "v") (codes "A: b\r\n") (codes "C: d\r\n") (omega arith) two_headers
      (omega arith)

no_header : strstr (codes "Host: h\r\n\r\n") keep_alive ≡ none
unfolding strstr
no_header = refl

parses :
    parse_url (codes "http://h/x")
    ≡ some (record { host = some (codes "h"); port = pos 80; resource = some (codes "/x") })
parses = parse_url-path (codes "h") (codes "x") ((λ e. ground arith), omega arith) (refl, tt)

rewrite_in_bounds_example :
    rewrite_request
      (first_line (codes "GET") (codes "http://h/x") (codes "v") ++ b'\n' ∷ codes "\r\n")
      (codes "/x")
      (codes "v")
    ≡ some (put_headers (get_line (codes "/x") (codes "v")) (codes "\r\n"))
rewrite_in_bounds_example =
    rewrite_in_bounds (codes "GET") (codes "http://h/x") (codes "v") (codes "\r\n") _ (codes "/x")
      (omega arith) parses refl (omega arith) (omega arith)
