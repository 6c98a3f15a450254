-- ===== src/Lib.antt =====
-- Programs of the repository ECE456: the three web proxies, the substring counter, the summing
-- processes and threads, two queues between threads, processes that share stdout or memory, the UDP
-- echo programs, TCP servers with their clients, and several small programs of the lectures, with
-- the theorems that hold of them.
--
-- The proxies, `Assignment2/jwh139-proxy/proxy.c` and `Assignment3/jwh139-concurrent-proxy/proxy.c`,
-- accept a browser's connection, read one request, connect to the web server that its URL names,
-- pass the response on and write a line to a log. The first serves one client after the other; the
-- second makes a thread (`thread_handle`) or a process (the branch of `main` behind `fork`) for
-- each, and serves CONNECT requests too, with a loop around `poll` that passes bytes both ways.
-- `Assignment1/jwh139-p01/p01.c` counts substrings of a file, by system calls or by <stdio.h>.
-- `Homework1/main.c` adds up 1 .. n in child processes that report through a pipe.
-- `Homework2/main.c` adds up squares in threads under a mutex. `Homework2/level3.c` does so with a
-- queue: a producer puts 1 .. n into a circular buffer of eight entries, consumers take them out,
-- and two semaphores and a mutex keep them in order. `Lecture9/cond_variable/main.c` is a linked
-- queue of messages with a condition variable. `readnbytes` of `Lecture6/readnbytes/server.c` reads
-- a full count from a socket; its client sends a file. Of `ipc_code`, two processes print, or write
-- to shared memory, under a semaphore; in `Lecture7/race_condition` they print without one. In
-- `Lecture8`, two threads count in one variable, with a mutex and without. The programs
-- `Lecture10/udp_echo_server*` send datagrams back. `Lecture3/process_control` is a small shell. TCP
-- servers of `Lecture6`, `Lecture7` and `Lecture8` answer one client after the other, in a process
-- each, or in a thread each. In `ipc_code/pipe` a parent counts a child's messages.
--
-- Files.
--   Prelude, Prelude/Lists, Prelude/Int, Prelude/Partial, Prelude/Positions: names of the library passed
--     on; lists over the native numbers with `length`, `take` and `drop`; `int` arithmetic by bit patterns;
--     integers; what holds of the value of an `Option`.
--   CString: the functions of the C library that the programs call, on strings as lists of bytes:
--     `strchr`, `strstr`, `strncasecmp`, the conversions of `sscanf`, `atoi`. Below it: Search, Scan,
--     Bounds and Decimal (what `%d` prints, and that `%d` reads it again).
--   Sys: the system calls. The kernel is a record of replies, a parameter of every definition; each
--     reply may depend on all the calls made before. A run gives a value or the way it stopped (it
--     returned early, ended the process, met undefined behaviour, or is still in a loop), and the trace
--     of its calls. Sys/After: postconditions of a run. Sys/Balance: counting descriptors.
--   Proxy/Url, Proxy/Request: the `sscanf` calls on the request line and the URL, and the new request.
--   Proxy/Upstream: `getaddrinfo`, `socket` and `connect`. Proxy/Relay: the response of a GET request; Proxy/Relay/Read, Flow:
--     how far it is read, and its theorem.
--   Proxy/Tunnel: the loop around `poll`; below it Balance, Endless, Carry and Flow, its theorems.
--   Proxy/Log: the entries of the log.
--   Proxy/Exchange: the steps of a request in their order, which the three proxies have in common. What
--     they do not have in common is the record `Caller`: which sockets an error closes, and whether it
--     returns or exits.
--   Proxy/Thread: `thread_handle`. Proxy/Child: the forked process. Proxy/Sequential: the proxy of
--     Assignment2 with its `main`. Below each of these stand its theorems.
--   Proxy/Concurrent: the options and the loop of `main` of Assignment3, with its threads and processes.
--   Proxy/Handoff: how `main` hands a client to its thread.
--   Substrings: p01.c, with `countSubstrings` and both implementations. Substrings/Count, Agree: its
--     theorems.
--   PartialSums: Homework1/main.c. PartialSums/Total: its theorems.
--   BoundedBuffer: Homework2/level3.c. BoundedBuffer/Invariant, Progress, Result: its theorems.
--     BoundedBuffer/Queue: a bounded FIFO queue, of which BoundedBuffer/Refine shows it a refinement.
--   ThreadSums: Homework2/main.c. ThreadSums/Total: its theorems.
--   WorkQueue: Lecture9/cond_variable/main.c, the queue and its threads. WorkQueue/Program: `main`.
--     WorkQueue/Order, Stages, Moves, Ends: the theorems.
--   Echo: Lecture10, the UDP echo servers (Echo/Server, one module for each) and their clients
--     (Echo/Client); Echo/Server/Answers, Echo/Client/Ends and Echo/RoundTrip: their theorems.
--   Printers: ipc_code/named_semaphore and unnamed_semaphore, two processes that print under a semaphore.
--     Printers/Order, Progress: its theorems. Printers/Race: Lecture7/race_condition, without one.
--   Printers/Unnamed: the mains of ipc_code/unnamed_semaphore.
--   Squares: MidtermPractice/q13.
--   GetsExample: Lecture9/gets_example. GetsExample/Fits: its theorem.
--   Pipe: ipc_code/pipe/pipe.c. Pipe/Reads, Counted, Ends, Length: its theorems.
--   TcpServer: the TCP servers of Lecture6/multipleclient (TcpServer/Sequential), of
--     Lecture7/concurrent_server (TcpServer/Forked) and of Lecture8/concurrent_server_thread
--     (TcpServer/Threaded); TcpServer/Buffer: what they print of a message; the modules Safe below each:
--     its theorems. TcpServer/Client: their clients, with Ends, its theorems.
--   Counter: two threads that count in one variable. Counter/Locked: Lecture8/mutex, with Counted and Ends,
--     its theorems. Counter/Unlocked: Lecture8/non_mutex, with Range and Reach, its theorems.
--   SharedMemory: ipc_code/process_semaphore. SharedMemory/Filled, Written, Ends: its theorems.
--   ErrMsg: the error messages of Lecture3/process_control, Lecture4/directory and Lecture5/daytime.
--     ErrMsg/Fits: its theorem. ErrMsg/Shell: `main` of process_control, with ErrMsg/Shell/Runs, its
--     theorem. ErrMsg/Directory, ErrMsg/Daytime: the mains of directory and of daytimetcpcli.c.
--   ReadBytes: Lecture6/readnbytes/server.c. ReadBytes/Whole: its theorems. ReadBytes/Client:
--     Lecture6/readnbytes/client.c. ReadBytes/RoundTrip: both together.
--   Files named Tests hold runs at concrete inputs.
--
-- How the code is modelled. The state of a run is the trace; a `write` is an event with the bytes that
-- were offered, and a descriptor is a number. Errors that close sockets and return are values of `Stop`.
-- What C leaves undefined and the code can reach is `Stop.undefined`: an array that was never written, a
-- request or a log entry longer than its array, an array of a size that is not positive. The array
-- `response` has no terminator when it is full; the memory behind it is the parameter `beyond`.
--
-- The threads of Homework2 and of Lecture9, and the processes of ipc_code, are atomic steps on the state
-- that they share; a schedule is a list of steps. Each printed character is a step of its own, and so are
-- `strlen` and the write in shared memory. The arrivals at the socket of readnbytes are a list of segments,
-- interruptions and errors.
--
-- Bounds and fuel. The loop that passes on a response without a length, and the loop around `poll`, have
-- no bound in the code, since the peers decide when they end: they take fuel, and a run that spends it
-- stops with `Stop.running`, which no theorem counts as an orderly end. The loop that fills the file of
-- readnbytes takes fuel too, and so does the loop of its client: one more than the bytes that come, or
-- than the file has, is enough. All other loops are recursion on a number of rounds or on a list.
-- `int` is 32 bits, written out where a value can reach its limit, as the size of a file can in p01.c, and so are the 64 bits of the totals
-- of the CONNECT loop. Descriptors are numbers without a bound.
--
-- Not modelled. A `%s` or `%[` that is longer than its array of 1024 bytes, except that the words of
-- the request line are tested by `overflows`; a `%d` above the range of `int`. What is printed to
-- stdout and stderr by the proxies. The interleaving of the calls of several threads or processes of
-- the proxy, except for the variable `client` that `main` hands to them. csapp.c, which is a copy of
-- another project's file and which the proxies do not call. The release of shared memory and
-- semaphores, except for its place in named_semaphore.c. ipc_code/unnamed_semaphore/main.c behind
-- its second call of sem_init on one semaphore, which is undefined. The interleaving of the threads
-- of the TCP server and of its client; a signal SIGPIPE, except in Pipe. The other programs of the
-- lectures and of ipc_code, which are calls of the C library in a row.
pub mod Prelude
pub mod CString
pub mod Sys
pub mod GetsExample
pub mod Pipe
pub mod Printers
pub mod SharedMemory
pub mod Proxy
pub mod Squares
pub mod Substrings
pub mod PartialSums
pub mod BoundedBuffer
pub mod ReadBytes
pub mod TcpServer
pub mod ThreadSums
pub mod WorkQueue
pub mod Echo
pub mod ErrMsg
pub mod Counter
