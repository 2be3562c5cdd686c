-- ===== src/Lib.antt =====
-- Verification of the load-balancing test bed: two distributors that pass requests of clients on to
-- inner servers, the inner servers themselves, and the programs around them.
--
-- Sys models the operating system as a process sees it. A run is a function of the replies that the
-- kernel gives to its system calls (`script`), and records the calls with their replies (`trace`).
-- A run returns or halts: by exit, by a failed assertion, because the next reply never comes, or at
-- a step that C++ leaves undefined.
-- Sys/Loop has the loops; `loop` takes one turn more than there are replies as its fuel, which is
-- enough because every turn makes a call (Sys/Consumes). Sys/Keeps and Sys/Hoare have the rules for
-- predicates over runs, Sys/Steady those for programs that leave a part of the state alone. Sys/Rows
-- cuts a run into moves between which other threads can move. Sys/Simulates has the rules for two
-- programs that make the same calls on states of different types, and Sys/Erases those for two of
-- which one looks at the clock besides: Sys/Follows goes from the first to the second, Sys/Inserts
-- back.
--
-- Net: the socket helpers `setNonblock` to `CloseConnect` of servers/algorithm_distributor.cc.
-- Numbers: `double`, the random engine and `discrete_distribution`, as a parameter.
-- Wire: `struct message`, which distributor and inner servers exchange.
-- Algorithm: servers/algorithm_distributor.cc. Its globals are the record `Vars`; Choose has
-- `set_distribution` and `get_curSelectedServer_fd`, Serve has `threadFunc`, Monitor has
-- `mainThreadFunc`, Startup has `init_inner_mon`. The two threads of the program are two runs over
-- `Vars`: each holds the lock wherever they share `d`, so a use of `d` is one step. Algorithm/Threads
-- has the two at once, as a relation between the steps that they take in turn: the serving thread is
-- free to take any call, any store into `mess` and any choice, the monitor goes through its round.
-- Inner: servers/inner_server.cc, `threadFunc`, and in Inner/Monitor `mainThreadFunc`. Inner/Threads has
-- its threads at once, that of `pm` included, with `threadFunc` free to make any call.
-- Procmon: servers/pm.h, the parsers; Ticks has `readProcFile`, `tick`, `getStat` and the thread.
-- The loop of `IoData::parse` makes no calls: its fuel is one more than the length of the text. That is
-- enough (Procmon/Needs and Procmon/Fuel): a turn takes a character, ends the stream or fails, and
-- what goes on after a failure goes on for ever, which is how the run then halts.
-- Procmon/Disks and Procmon/Printed have the texts that the kernel prints into the files, Procmon/Sums
-- and Procmon/Readings what the parsers and a tick make of them.
-- Feedback: the samples of four inner servers, their reports, and the weights that the distributor
-- makes of them.
-- RoundTrip: a request through the distributor and an inner server and back.
-- Promon: procmon/promon_all.cc, which takes the parsers from Procmon; Process: procmon/procmon.cc.
-- RoundRobin: servers/round_robin_distributor.cc. RoundRobin/Spec serves from a queue of servers that
-- has neither an array nor an index; it says what the program promises.
-- Bench: test_bench/someip_bench/someip_bench.c: `main` and `build_request`; Core has
-- `someip_socket` and `benchcore`, Parent has `bench`. The look at `timerexpired` is a call whose
-- reply says whether the alarm has come.
-- TestBench: test_bench/someip_bench/test_bench.c, where it differs: its array for the request,
-- `benchcore` with the clock in TestBench/Client, `bench` in TestBench/Parent. What someone who
-- watches the calls of a client knows of its answers is in TestBench/Seen; TestBench/Agrees compares it
-- with the client of Bench.
-- Capture: tcpdump_my/my_grub.c, the tests of a packet and the loop that splits it into messages.
-- Load: procmon/load_test.cc, which fills a file.
-- Eventfd: eventfd_test/epollexclusive_exp.cc, `main` and its threads.
-- Reuseport: server_reuseport.cc of reuseport_test/: `main` and `do_work`. The objects of the events
-- stand in a heap; the allocator is a parameter, which never gives an address that is in use.
-- Streams: `>>` of an `istringstream`, for the programs that read numbers.
--
-- Not modelled: what is printed to the terminal; the byte order and layout of `sockaddr_in`; the
-- allocation of the buffer of the load generator. The socket helpers and parsers that a program has
-- as copies of another's are modelled once, where the first of them stands.
pub mod Base
pub mod Sys
pub mod Net
pub mod Numbers
pub mod Wire
pub mod Algorithm
pub mod Inner
pub mod RoundTrip
pub mod Feedback
pub mod RoundRobin
pub mod Bench
pub mod TestBench
pub mod Streams
pub mod Procmon
pub mod Promon
pub mod Process
pub mod Capture
pub mod Reuseport
pub mod Load
pub mod Eventfd
mod Tests
