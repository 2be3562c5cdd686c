-- ===== src/TestBench.antt =====
-- test_bench/someip_bench/test_bench.c: the variant of the someip bench that also measures how long
-- the answers take. Options, URL and sockets are copies of those of someip_bench.c (Bench).
pub mod Client
pub mod Parent
pub mod Seen
pub mod Times
pub mod Outside
pub mod Agrees
use gra_project.Base.{
  ℕ, ◌+◌, Option, none, some, List, [], ◌∷◌, ◌++◌, take, drop, length, replicate, Bytes, leb,
  if◌then◌else◌,
}
use gra_project.Bench.{
  Settings, Setup, ready, quits, undefined, and_with, defaults, parse_options, parse_url, index_of,
  network_order, htons, halfword, or_default,
}

-- The global `request` of this program has sixteen bytes.
abbrev pub request_size : ℕ
request_size = 16

-- `*cur++ = h` for each of the halfwords, from the byte `at` on; `none` is a store outside the array.
unfoldable pub store_halfwords : List ℕ → ℕ → Bytes → Option Bytes
store_halfwords [] at request = some request
store_halfwords (h ∷ hs) at request =
    let rest =
      store_halfwords hs (at + 2) (take at request ++ halfword h ++ drop (at + 2) request) in
    if leb (at + 2) (length request) then rest else none

-- What `cur` writes; the cast of `cur` to `char *` does not change its type.
unfoldable pub fields : Settings → List ℕ
fields s =
    s.service_id
    ∷ s.method_id
    ∷ htons 0
    ∷ htons 8
    ∷ s.client_id
    ∷ s.session_id
    ∷ 1
    ∷ 1
    ∷ s.message_type
    ∷ 0
    ∷ []

unfoldable pub with_request : Settings → Option Bytes → Setup
with_request s none = undefined
with_request s (some request) = ready (record s { request = request })

unfoldable pub lay_out : Settings → Setup
unfolding store_halfwords fields with_request
lay_out s = with_request s (store_halfwords (fields s) 0 (replicate request_size 0))

-- The three ways from the places of the first slash and the first colon.
unfoldable pub request_at : Bytes → Settings → Option ℕ → Option ℕ → Setup
request_at url s none colon = quits 2
request_at url s (some slash) none = undefined
request_at url s (some slash) (some colon) =
    and_with (parse_url url colon slash s) (λ s. lay_out (network_order s))

unfoldable pub build_request : Bytes → Settings → Setup
unfolding index_of
build_request url s = request_at url s (index_of b'/' url) (index_of b':' url)

-- `main` up to the call of `bench`; no argument at all is a missing URL as well.
unfoldable pub main_setup : List (ℕ × Bytes) → Option Bytes → Setup
main_setup options none = and_with (parse_options options defaults) (λ s. quits 2)
main_setup options (some url) = and_with (parse_options options defaults) (λ s.
    build_request url
      (record s { clients = or_default s.clients 1; benchtime = or_default s.benchtime 30 }))
