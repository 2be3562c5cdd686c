-- ===== src/TestBench/Outside.antt =====
-- test_bench/someip_bench/test_bench.c: the request does not fit its array.
use gra_project.Base.{ℕ, ◌≡◌, ◌≢◌, refl, sym, ◌∙◌, Option, none, some, List, Bytes}
use gra_project.Bench.{
  Settings, Setup, ready, quits, undefined, and_with, defaults, parse_options, parse_url,
  network_order, index_of,
}
use gra_project.TestBench.{lay_out, request_at, build_request, main_setup}

-- The ninth halfword would stand behind the sixteen bytes.
lay_out_outside : (s : Settings) → lay_out s ≡ undefined
unfolding lay_out
lay_out_outside s = refl

-- A setup that does not get to `bench`.
abbrev Fails : Setup → Type 0
Fails r = (s : Settings) → r ≢ ready s

Fails-and_with :
    (r : Setup) (f : Settings → Setup) → ((s : Settings) → Fails (f s)) → Fails (and_with r f)
Fails-and_with (ready t) f h s e = h t s e
Fails-and_with (quits n) f h s e = cc
Fails-and_with undefined f h s e = cc

undefined≢ready : {s : Settings} → undefined ≢ ready s
undefined≢ready e = cc

Fails-lay_out : (t : Settings) → Fails (lay_out t)
Fails-lay_out t s e = undefined≢ready (sym (lay_out_outside t) ∙ e)

Fails-request_at :
    (url : Bytes) (t : Settings) (slash colon : Option ℕ) → Fails (request_at url t slash colon)
unfolding request_at
Fails-request_at url t none colon s e = cc
Fails-request_at url t (some slash) none s e = cc
Fails-request_at url t (some slash) (some colon) s e =
    Fails-and_with (parse_url url colon slash t) _ (λ u. Fails-lay_out (network_order u)) s e

-- Whatever the options and the URL, the test bench does not come to its benchmark: `main` ends before,
-- or takes a step that C leaves undefined, as the store of the request's ninth halfword is, which lies
-- behind the array.
pub main_setup_fails :
    (options : List (ℕ × Bytes)) (url : Option Bytes) (s : Settings)
    → main_setup options url ≢ ready s
unfolding main_setup build_request
main_setup_fails options none s e =
    Fails-and_with (parse_options options defaults) _ (λ t u e. cc) s e
main_setup_fails options (some url) s e =
    Fails-and_with (parse_options options defaults) _
      (λ t. Fails-request_at url _ (index_of b'/' url) (index_of b':' url)) s e
