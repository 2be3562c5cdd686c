-- ===== src/Bench/Layout.antt =====
-- test_bench/someip_bench/someip_bench.c: the bytes of the request, and the address out of the URL.
use mathlib.Core.Bool.{false≢true}
use gra_project.Base.{
  lt→ltb, le→leb, Bool-cases, inl, inr, ◌||◌, eq→==, append_assoc, take-append, drop-append,
  length-append, ℕ, suc, ◌+◌, ◌-◌, ◌/◌, ◌%◌, ◌^◌, ◌≤◌, ◌<◌, ◌≡◌, refl, sym, ap, ◌∙◌, false, [], ◌∷◌,
  ◌++◌, arith, take, drop, length, Bytes, ◌==◌, contains, some,
}
use gra_project.Wire.{overwrite}
use gra_project.Bench.{
  Settings, ready, and_with, maxhostnamelen, htons, header, index_of, parse_url, network_order,
  lay_out, build_request, request_at, atoi,
}

-- A halfword as SOME/IP has it: the high byte first.
abbrev pub big_endian : ℕ → Bytes
big_endian n = (n / 256) ∷ (n % 256) ∷ []

htons-low : (n : ℕ) → n < 2 ^ 16 → htons n % 256 ≡ n / 256
unfolding htons
htons-low n h = omega arith

htons-high : (n : ℕ) → n < 2 ^ 16 → htons n / 256 % 256 ≡ n % 256
unfolding htons
htons-high n h = omega arith

-- The settings' four numbers fit a halfword.
pub record Fit (s : Settings) : Type 0 where
  pub service : s.service_id < 2 ^ 16
  pub method : s.method_id < 2 ^ 16
  pub client : s.client_id < 2 ^ 16
  pub session : s.session_id < 2 ^ 16

-- The bytes that a client sends of the request.
abbrev pub sent : Settings → Bytes
sent s = take 16 s.request

header_lem :
    (s : Settings)
    → Fit s
    → sent (lay_out (network_order s))
      ≡ big_endian s.service_id
        ++ big_endian s.method_id
        ++ (0 ∷ 0 ∷ 0 ∷ 8 ∷ [])
        ++ big_endian s.client_id
        ++ big_endian s.session_id
        ++ (1 ∷ 0 ∷ 1 ∷ 0 ∷ [])
unfolding lay_out network_order header overwrite
header_lem s f = simp (
  htons-low s.service_id f.service,
  htons-high s.service_id f.service,
  htons-low s.method_id f.method,
  htons-high s.method_id f.method,
  htons-low 0 (omega arith),
  htons-high 0 (omega arith),
  htons-low 8 (omega arith),
  htons-high 8 (omega arith),
  htons-low s.client_id f.client,
  htons-high s.client_id f.client,
  htons-low s.session_id f.session,
  htons-high s.session_id f.session,
)

index_of_lem :
    (c : ℕ) (xs ys : Bytes) → contains xs c ≡ false → index_of c (xs ++ (c ∷ ys)) ≡ some (length xs)
unfolding index_of
index_of_lem c [] ys h = simp (eq→== c c refl)
index_of_lem c (x ∷ xs) ys h = elim (Bool-cases (x == c)) [
  | inl e ↦ absurd (false≢true (sym h ∙ ap (λ b. b || contains xs c) e))
  | inr n ↦ simp (n, index_of_lem c xs ys (sym (ap (λ b. b || contains xs c) n) ∙ h))
]

-- The address before the slash of a URL.
abbrev pub address : Bytes → Bytes → Bytes
address host port = host ++ (b':' ∷ port)

length-address : (host port : Bytes) → length (address host port) ≡ suc (length host + length port)
length-address host port = omega (arith, length-append host (b':' ∷ port))

take-host :
    (host port rest : Bytes) → take (length host) (address host port ++ (b'/' ∷ rest)) ≡ host
take-host host port rest =
    ap (take (length host)) (append_assoc host (b':' ∷ port) (b'/' ∷ rest))
    ∙ take-append host (b':' ∷ (port ++ (b'/' ∷ rest))) (length host) refl

drop-host :
    (host port rest : Bytes)
    → drop (length host + 1) (address host port ++ (b'/' ∷ rest)) ≡ port ++ (b'/' ∷ rest)
drop-host host port rest =
    ap (λ xs. drop (length host + 1) (xs ++ (b'/' ∷ rest)))
      (sym (append_assoc host (b':' ∷ []) port))
    ∙ (ap (drop (length host + 1)) (append_assoc (host ++ (b':' ∷ [])) port (b'/' ∷ rest))
        ∙ drop-append (host ++ (b':' ∷ [])) (port ++ (b'/' ∷ rest)) (length host + 1)
            (length-append host (b':' ∷ [])))

parse_url_lem :
    (host port rest : Bytes) (s : Settings)
    → length host < maxhostnamelen
    → length port ≤ 9
    → parse_url (address host port ++ (b'/' ∷ rest)) (length host) (length (address host port)) s
      ≡ ready (record s { host = host; port = atoi port })
unfolding parse_url
parse_url_lem host port rest s h p =
    let n : length (address host port) - length host - 1 ≡ length port =
      omega (arith, length-address host port) in
    simp (
      n,
      lt→ltb (length host) 64 h,
      lt→ltb (length host) (length (address host port)) (omega (arith, length-address host port)),
      le→leb (length port) 9 p,
      take-host host port rest,
      drop-host host port rest,
      take-append port (b'/' ∷ rest) (length port) refl,
    )

colon_lem :
    (host port rest : Bytes)
    → contains host b':' ≡ false
    → index_of b':' (address host port ++ (b'/' ∷ rest)) ≡ some (length host)
colon_lem host port rest h =
    ap (index_of b':') (append_assoc host (b':' ∷ port) (b'/' ∷ rest))
    ∙ index_of_lem b':' host (port ++ (b'/' ∷ rest)) h

-- For a URL host:port/rest whose host and port fit their buffers, and numbers that fit halfwords,
-- the request is built: the host and the number of the port are those of the URL, and what a client
-- sends is the header in network order, of length eight, and behind it a one, a zero, a one and a zero.
pub build_request_header :
    (host port rest : Bytes) (s : Settings)
    → length host < maxhostnamelen
    → length port ≤ 9
    → contains host b':' ≡ false
    → contains (address host port) b'/' ≡ false
    → Fit s
    → (t : Settings) × (build_request (address host port ++ (b'/' ∷ rest)) s ≡ ready t)
      × (t.host ≡ host)
      × (t.port ≡ atoi port)
      × (sent t
          ≡ big_endian s.service_id
            ++ big_endian s.method_id
            ++ (0 ∷ 0 ∷ 0 ∷ 8 ∷ [])
            ++ big_endian s.client_id
            ++ big_endian s.session_id
            ++ (1 ∷ 0 ∷ 1 ∷ 0 ∷ []))
unfolding build_request request_at lay_out network_order
build_request_header host port rest s h p colon slash f =
    let url : Bytes = address host port ++ (b'/' ∷ rest) in
    let u : Settings = record s { host = host; port = atoi port } in
    (
      lay_out (network_order u),
      ap (λ o. request_at url s o (index_of b':' url))
            (index_of_lem b'/' (address host port) rest slash)
          ∙ (ap (request_at url s (some (length (address host port))))
                (colon_lem host port rest colon)
              ∙ ap (λ r. and_with r (λ s. ready (lay_out (network_order s))))
                  (parse_url_lem host port rest s h p)),
      refl,
      refl,
      header_lem u (record {
        service = f.service;
        method = f.method;
        client = f.client;
        session = f.session;
      }),
    )
