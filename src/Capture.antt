-- ===== src/Capture.antt =====
-- tcpdump_my/my_grub.c: packets are captured, and the SOME/IP messages in them are sent on to the
-- distributor. The locals that outlive a call are the state: the buffer and `cur`, an offset in it.
-- A `char` is signed here, as it is with gcc on x86.
pub mod Split
pub mod Faults
pub mod Termination
use Prim.Native.Nat.{bit_or}
use gra_project.Base.{
  ℕ, zero, suc, ◌+◌, ◌-◌, ◌*◌, ◌/◌, ◌%◌, Bool, true, false, not, ◌&&◌, ◌||◌, Option, none, some,
  List, [], ◌∷◌, ◌++◌, Bytes, length, take, drop, get_or, ltb, leb, ◌==◌, if◌then◌else◌,
}
use gra_project.Sys.{
  socket, raw_socket, connect, ioctl_getflags, ioctl_setflags, fcntl_setfl, recvfrom, write, close,
  Reply, Outcome, ok, error, result, stored, flags_of, eagain, exited, undefined, M, ◌>>=◌, ◌>>◌,
  pure, stop, get, modify, syscall, run_call, bits, ok_or_exit,
}
use gra_project.Sys.Loop.{loop, forever}
use gra_project.Net.{o_nonblock, zero_or_exit}
use gra_project.Wire.{overwrite}

abbrev pub buffer_size : ℕ
buffer_size = 2048

-- 127.0.0.1
abbrev pub distributor_ip : ℕ
distributor_ip = 0x7f000001

abbrev pub distributor_port : ℕ
distributor_port = 9527

abbrev pub iff_promisc : ℕ
iff_promisc = 0x100

-- The headers of Ethernet, IP and TCP: the offset of the first message.
abbrev pub headers_len : ℕ
headers_len = 54

pub record Vars : Type 0 where
  pub buffer : Bytes
  pub cur : ℕ

abbrev pub byte_at : Bytes → ℕ → ℕ
byte_at buffer i = get_or buffer i 0

-- `(b[i] << 8) + b[i + 1]` of unsigned characters
abbrev pub word_at : Bytes → ℕ → ℕ
word_at buffer i = 256 * byte_at buffer i + byte_at buffer (i + 1)

-- The three tests of a packet: `iphead` is at 14. `someip_len > 0` is written without subtraction.
unfoldable pub is_wanted : Bytes → Bool
is_wanted buffer =
    not (byte_at buffer 26 == 127)
    && byte_at buffer 14 == 0x45
    && ltb (20 + byte_at buffer 46 / 16 * 4) (word_at buffer 16)
    && word_at buffer 36 == 9527

-- What a signed character is short of its eight bits.
abbrev pub sign_debt : ℕ → ℕ
sign_debt b = if leb 128 b then 256 else 0

-- `8 + length_int`, with `length_int` of the two signed characters; `none` is a negative number.
unfoldable pub piece_length : ℕ → ℕ → Option ℕ
piece_length hi lo =
    let up = 8 + 256 * hi + lo in
    let down = 256 * sign_debt hi + sign_debt lo in if leb down up then some (up - down) else none

-- The bytes that `write` is given; `none` if their number is negative or they leave the buffer.
unfoldable pub found_at : Bytes → ℕ → Option ℕ → Option Bytes
found_at buffer cur none = none
found_at buffer cur (some n) =
    if leb (cur + n) (length buffer) && ltb (cur + 7) (length buffer)
    then some (take n (drop cur buffer))
    else none

unfoldable pub message_at : Bytes → ℕ → Option Bytes
message_at buffer cur =
    found_at buffer cur (piece_length (byte_at buffer (cur + 6)) (byte_at buffer (cur + 7)))

unfoldable pub advance : ℕ → Vars → Vars
advance n s = record s { cur = s.cur + n }

-- The end of the turn of `while (cur < buffer + n)`, after the write; `false` is `break`.
unfoldable pub after_write : ℕ → Outcome → M Vars Bool
unfolding advance
after_write n (ok k) = do modify (advance n); pure true
after_write n (error e) = if e == eagain then pure false else stop (exited 1)

unfoldable pub send_found : ℕ → Option Bytes → M Vars Bool
send_found fd none = stop undefined
send_found fd (some m) = do r ← syscall (write fd m); after_write (length m) (result r)

-- A turn of `while (cur < buffer + n)`.
unfoldable pub send_one : ℕ → ℕ → M Vars Bool
send_one fd n = do
  s ← get
  if ltb s.cur n then send_found fd (message_at s.buffer s.cur) else pure false

unfoldable pub send_messages : ℕ → ℕ → M Vars (Unit {0})
send_messages fd n = do modify (λ s. record s { cur = headers_len }); loop (send_one fd n)

-- `n` is -1 after a failure; `buffer + n` is then as good as `buffer`.
abbrev pub received : Outcome → ℕ
received (ok n) = n
received (error e) = 0

unfoldable pub store_packet : Bytes → Vars → Vars
store_packet bytes s = record s { buffer = overwrite bytes s.buffer }

-- A turn of `while (1)`.
unfoldable pub capture_turn : ℕ → ℕ → M Vars (Unit {0})
unfolding store_packet
capture_turn fd sock = do
  r ← syscall (recvfrom sock buffer_size)
  modify (store_packet (stored r))
  s ← get
  if is_wanted s.buffer then send_messages fd (received (result r)) else pure tt

-- `if (ioctl(...) == -1) { close(sock); exit(1); }`
abbrev pub ok_or_close : ℕ → Outcome → M Vars (Unit {0})
ok_or_close sock (ok n) = pure tt
ok_or_close sock (error e) = do run_call (close sock); stop (exited 1)

unfoldable pub be_promiscuous : ℕ → M Vars (Unit {0})
be_promiscuous sock = do
  r ← syscall (ioctl_getflags sock)
  ok_or_close sock (result r)
  t ← syscall (ioctl_setflags sock (bit_or (flags_of r) iff_promisc))
  ok_or_close sock (result t)

unfoldable pub main : M Vars (Unit {0})
main = do
  r ← syscall socket
  c ← syscall (connect (bits (result r)) distributor_port distributor_ip)
  zero_or_exit (result c)
  run_call (fcntl_setfl (bits (result r)) o_nonblock)
  s ← syscall raw_socket
  sock ← ok_or_exit (result s)
  be_promiscuous sock
  forever (capture_turn (bits (result r)) sock)
