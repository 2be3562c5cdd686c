-- ===== src/Sys.antt =====
-- The operating system as the programs see it: system calls, their replies, and the monad of a
-- process. The replies are the input of a run (`script`), the calls made with their replies are
-- its record (`trace`, newest first). A blocking call whose reply never comes halts the run.
pub mod Loop
pub mod Keeps
pub mod Consumes
pub mod Endless
pub mod Hoare
pub mod Steady
pub mod Simulates
pub mod Rows
pub mod Erases
pub mod Seen
pub mod Follows
pub mod Inserts
use Prim.Native.Char.{code}
use Prim.Native.String.{String}
use gra_project.Base.{ℕ, ◌-◌, ◌^◌, Bool, true, false, List, [], ◌∷◌, take, length, Bytes, min}

-- One entry of the array that `epoll_wait` fills: `data.fd` and `events`.
pub record Event : Type 0 where
  pub fd : ℕ
  pub events : ℕ

pub data Opt : Type 0 where
  tcp_nodelay reuse_port reuse_addr : Opt

-- The system calls that the programs make, with the arguments that matter.
pub data Call : Type 0 where
  socket : Call
  raw_socket : Call  -- of the kind PF_PACKET
  connect : ℕ → ℕ → ℕ → Call  -- fd, port, address
  bind : ℕ → ℕ → Call  -- fd, port
  listen : ℕ → ℕ → Call  -- fd, backlog
  accept : ℕ → Call
  setsockopt : ℕ → Opt → ℕ → Call
  fcntl_getfd : ℕ → Call
  fcntl_setfl : ℕ → ℕ → Call
  ioctl_getflags : ℕ → Call  -- SIOCGIFFLAGS
  ioctl_setflags : ℕ → ℕ → Call  -- SIOCSIFFLAGS
  epoll_create : ℕ → Call
  epoll_add : ℕ → ℕ → ℕ → Call  -- epoll fd, fd, events
  epoll_del : ℕ → ℕ → Call
  epoll_wait : ℕ → ℕ → Call  -- epoll fd, capacity of the array
  read : ℕ → ℕ → Call  -- fd, capacity of the buffer
  recvfrom : ℕ → ℕ → Call  -- fd, capacity of the buffer
  write : ℕ → Bytes → Call
  close : ℕ → Call
  sleep : ℕ → Call
  usleep : ℕ → Call
  open_file : Bytes → Call
  save : Bytes → Bytes → Call  -- an output file written whole: name, content
  inet_addr : Bytes → Call
  gethostbyname : Bytes → Call
  shutdown : ℕ → Call
  sigaction : Call
  alarm : ℕ → Call
  timer_expired : Call  -- a look at the flag that the handler of the alarm sets
  pipe : Call
  fork : Call
  waitpid : Call  -- any child
  fdopen : Call
  report : ℕ → ℕ → Call  -- `fprintf` of two numbers
  scan : Call  -- `fscanf` of two numbers
  clock : Call  -- `gettimeofday`; the reply is the time in microseconds
  report_times : ℕ → ℕ → ℕ → Call  -- `fprintf` of three numbers
  scan_times : Call  -- `fscanf` of three numbers
  write_same : ℕ → ℕ → Call  -- fd; a write of so many times the same byte
  lseek : ℕ → ℕ → Call  -- fd, position
  eventfd : ℕ → Call  -- the count at the start
  getchar : Call

-- A reply: the result, and what the call stored through its pointers.
pub data Reply : Type 0 where
  done : ℕ → Reply  -- a result that is not negative
  failed : ℕ → Reply  -- -1, with this errno
  accepted : ℕ → ℕ → Reply  -- the new fd and the peer's address
  input : Bytes → Reply  -- what `read` stored; the result is its length
  ready : List Event → Reply  -- what `epoll_wait` stored; the result is its length
  scanned : ℕ → ℕ → Reply  -- the two numbers that `fscanf` found
  flags : ℕ → Reply  -- the flags that `ioctl` stored
  scanned_times : ℕ → ℕ → ℕ → Reply  -- the three numbers that `fscanf` found

-- An `int` that a call returns: the programs only tell -1 from the rest.
pub data Outcome : Type 0 where
  ok : ℕ → Outcome
  error : ℕ → Outcome

abbrev pub result : Reply → Outcome
result (done n) = ok n
result (failed e) = error e
result (accepted fd address) = ok fd
result (input bytes) = ok (length bytes)
result (ready events) = ok (length events)
result (scanned a b) = ok 2
result (flags f) = ok 0
result (scanned_times a b c) = ok 3

-- The bits of an `int` result: those of -1 on failure.
abbrev pub bits : Outcome → ℕ
bits (ok n) = n
bits (error e) = 2 ^ 32 - 1

abbrev pub peer : Reply → ℕ
peer (accepted fd address) = address
peer _ = 0

abbrev pub stored : Reply → Bytes
stored (input bytes) = bytes
stored _ = []

abbrev pub flags_of : Reply → ℕ
flags_of (flags f) = f
flags_of _ = 0

abbrev pub delivered : Reply → List Event
delivered (ready events) = events
delivered _ = []

-- The code points of a text, which are its bytes.
abbrev pub text : String → Bytes
text String.[] = []
text (String.◌∷◌ c s) = code c ∷ text s

abbrev pub eagain : ℕ
eagain = 11

abbrev pub epollin : ℕ
epollin = 1

-- Why a run ends.
pub data Halt : Type 0 where
  exited : ℕ → Halt  -- exit(n)
  aborted : Halt  -- an assertion fails
  waiting : Halt  -- the process waits for a reply
  unfinished : Halt  -- the fuel of a loop is used up
  undefined : Halt  -- a step that the language leaves undefined
  hanging : Halt  -- a loop without system calls goes on for ever

abbrev pub Trace : Type 0
Trace = List (Call × Reply)

pub record World (S : Type 0) : Type 0 where
  pub vars : S
  pub script : List Reply
  pub trace : Trace

pub data Run (S A : Type 0) : Type 0 where
  returns : A → World S → Run S A
  halts : Halt → World S → Run S A

abbrev pub final : {S A : Type 0} → Run S A → World S
final (returns a w) = w
final (halts h w) = w

abbrev pub M : Type 0 → Type 0 → Type 0
M S A = World S → Run S A

-- The kernel writes no more than it was asked to.
abbrev pub written : ℕ → Outcome → Reply
written count (ok n) = done (min n count)
written count (error e) = failed e

-- What the kernel guarantees of the size of a reply: it fits the buffer or the array.
abbrev pub fit : Call → Reply → Reply
fit (read fd capacity) (input bytes) = input (take capacity bytes)
fit (recvfrom fd capacity) (input bytes) = input (take capacity bytes)
fit (epoll_wait ep capacity) (ready events) = ready (take capacity events)
fit (write_same fd count) r = written count (result r)
fit _ r = r

module _ {S : Type 0} where
  abbrev pub and_then : {A B : Type 0} → Run S A → (A → M S B) → Run S B
  and_then (returns a w) f = f a w
  and_then (halts h w) f = halts h w

  infixl 5 ◌>>=◌ ◌>>◌
  abbrev pub ◌>>=◌ : {A B : Type 0} → M S A → (A → M S B) → M S B
  ◌>>=◌ m f w = and_then (m w) f

  abbrev pub ◌>>◌ : {B : Type 0} → M S (Unit {0}) → M S B → M S B
  ◌>>◌ m k w = and_then (m w) (λ _. k)

  abbrev pub pure : {A : Type 0} → A → M S A
  pure a w = returns a w

  abbrev pub stop : {A : Type 0} → Halt → M S A
  stop h w = halts h w

  abbrev pub get : M S S
  get w = returns w.vars w

  abbrev pub modify : (S → S) → M S (Unit {0})
  modify f w = returns tt (record w { vars = f w.vars })

  abbrev pub assert : Bool → M S (Unit {0})
  assert true = pure tt
  assert false = stop aborted

  abbrev pub answer : Call → World S → List Reply → Run S Reply
  answer c w [] = halts waiting w
  answer c w (r ∷ rest) =
      let r' = fit c r in returns r' (record w { script = rest; trace = (c, r') ∷ w.trace })

  -- A system call takes the next reply, and is recorded.
  unfoldable pub syscall : Call → M S Reply
  syscall c w = answer c w w.script

  -- A call whose result the program drops.
  abbrev pub run_call : Call → M S (Unit {0})
  run_call c = do r ← syscall c; pure tt

  -- A call whose failure ends the program with exit(1), as after `perror`.
  abbrev pub ok_or_exit : Outcome → M S ℕ
  ok_or_exit (ok n) = pure n
  ok_or_exit (error e) = stop (exited 1)

  -- A call whose failure is caught by an assertion.
  abbrev pub ok_or_abort : Outcome → M S ℕ
  ok_or_abort (ok n) = pure n
  ok_or_abort (error e) = stop aborted
