-- ===== src/Bench.antt =====
-- test_bench/someip_bench/someip_bench.c: the options, and the request that is sent. The numbers of
-- an `int` are its 32 bits.
pub mod Core
pub mod Parent
pub mod Layout
pub mod Accounting
pub mod Termination
pub mod Answers
use gra_project.Base.{
  ℕ, zero, suc, ◌+◌, ◌-◌, ◌*◌, ◌/◌, ◌%◌, ◌^◌, Bool, true, false, ◌&&◌, ◌||◌, Option, none, some,
  List, [], ◌∷◌, ◌++◌, take, drop, length, replicate, Bytes, ltb, leb, ◌==◌, if◌then◌else◌,
}
use gra_project.Wire.{overwrite}

abbrev pub maxhostnamelen : ℕ
maxhostnamelen = 64

abbrev pub request_size : ℕ
request_size = 2048

pub record Settings : Type 0 where
  pub service_id : ℕ
  pub method_id : ℕ
  pub client_id : ℕ
  pub session_id : ℕ
  pub message_type : ℕ
  pub port : ℕ
  pub benchtime : ℕ
  pub clients : ℕ
  pub host : Bytes
  pub request : Bytes

abbrev pub defaults : Settings
defaults = record {
  service_id = 1;
  method_id = 2;
  client_id = 3;
  session_id = 4;
  message_type = 1;
  port = 9999;
  benchtime = 30;
  clients = 1;
  host = [];
  request = [];
}

-- `atoi`: blanks, a sign, digits. A number that does not fit an `int` is undefined in C.
abbrev pub is_digit : ℕ → Bool
is_digit c = leb b'0' c && leb c b'9'

unfoldable pub digits : ℕ → Bytes → ℕ
digits n [] = n
digits n (c ∷ rest) = let more = digits (10 * n + (c - b'0')) rest in if is_digit c then more else n

abbrev pub is_blank : ℕ → Bool
is_blank c = c == b' ' || leb 9 c && leb c 13

unfoldable pub signed : Bytes → ℕ
unfolding digits
signed [] = 0
signed (c ∷ rest) =
    if c == b'-'
    then (2 ^ 32 - digits 0 rest) % 2 ^ 32
    else if c == b'+'
    then digits 0 rest
    else digits 0 (c ∷ rest)

unfoldable pub atoi : Bytes → ℕ
unfolding signed
atoi [] = 0
atoi (c ∷ rest) = let skipped = atoi rest in if is_blank c then skipped else signed (c ∷ rest)

-- What a part of `main` comes to. `undefined` is a step that C leaves undefined.
pub data Setup : Type 0 where
  ready : Settings → Setup
  quits : ℕ → Setup
  undefined : Setup

-- An option that `getopt_long` found: its letter and its argument.
unfoldable pub parse_option : ℕ → Bytes → Settings → Setup
parse_option opt optarg s =
    if opt == 0
    then ready s
    else if opt == b'V'
    then quits 0
    else if opt == b't'
    then ready (record s { benchtime = atoi optarg })
    else if opt == b'S'
    then ready (record s { service_id = atoi optarg % 2 ^ 16 })
    else if opt == b'M'
    then ready (record s { method_id = atoi optarg % 2 ^ 16 })
    else if opt == b'C'
    then ready (record s { client_id = atoi optarg % 2 ^ 16 })
    else if opt == b'E'
    then ready (record s { session_id = atoi optarg % 2 ^ 16 })
    else if opt == b':' || opt == b'?' || opt == b'h'
    then quits 2
    else if opt == b'c'
    then ready (record s { clients = atoi optarg })
    else ready s

abbrev pub and_with : Setup → (Settings → Setup) → Setup
and_with (ready s) f = f s
and_with (quits n) f = quits n
and_with undefined f = undefined

unfoldable pub parse_options : List (ℕ × Bytes) → Settings → Setup
parse_options [] s = ready s
parse_options ((opt, optarg) ∷ rest) s = and_with (parse_option opt optarg s) (parse_options rest)

unfoldable pub htons : ℕ → ℕ
htons n = n % 256 * 256 + n / 256 % 256

-- A halfword in memory, on a machine that stores the low byte first.
abbrev pub halfword : ℕ → Bytes
halfword n = (n % 256) ∷ (n / 256 % 256) ∷ []

-- The ten halfwords that `cur` writes; the cast of `cur` to `char *` does not change its type.
unfoldable pub header : Settings → Bytes
header s =
    halfword s.service_id
    ++ halfword s.method_id
    ++ halfword (htons 0)
    ++ halfword (htons 8)
    ++ halfword s.client_id
    ++ halfword s.session_id
    ++ halfword 1
    ++ halfword 1
    ++ halfword s.message_type
    ++ halfword 0

-- `strchr`: how far the character is.
unfoldable pub index_of : ℕ → Bytes → Option ℕ
index_of c [] = none
index_of c (x ∷ xs) =
    let later = index_of c xs in
    if x == c then some 0 else elim later [ none ↦ none | some i ↦ some (suc i) ]

-- The host before the colon and the port between colon and slash, if both fit their buffers.
unfoldable pub parse_url : Bytes → ℕ → ℕ → Settings → Setup
parse_url url colon slash s =
    if ltb colon maxhostnamelen && ltb colon slash && leb (slash - colon - 1) 9
    then ready (record s {
      host = take colon url;
      port = atoi (take (slash - colon - 1) (drop (colon + 1) url));
    })
    else undefined

unfoldable pub network_order : Settings → Settings
network_order s = record s {
  service_id = htons s.service_id;
  method_id = htons s.method_id;
  client_id = htons s.client_id;
  session_id = htons s.session_id;
}

unfoldable pub lay_out : Settings → Settings
lay_out s = record s { request = overwrite (header s) (replicate request_size 0) }

-- The three ways from the places of the first slash and the first colon.
unfoldable pub request_at : Bytes → Settings → Option ℕ → Option ℕ → Setup
request_at url s none colon = quits 2
request_at url s (some slash) none = undefined
request_at url s (some slash) (some colon) =
    and_with (parse_url url colon slash s) (λ s. ready (lay_out (network_order s)))

unfoldable pub build_request : Bytes → Settings → Setup
build_request url s = request_at url s (index_of b'/' url) (index_of b':' url)

abbrev pub or_default : ℕ → ℕ → ℕ
or_default n d = if n == 0 then d else n

-- `main` up to the call of `bench`; no argument at all is a missing URL as well.
unfoldable pub main_setup : List (ℕ × Bytes) → Option Bytes → Setup
main_setup options none = and_with (parse_options options defaults) (λ s. quits 2)
main_setup options (some url) = and_with (parse_options options defaults) (λ s.
    build_request url
      (record s { clients = or_default s.clients 1; benchtime = or_default s.benchtime 30 }))
