-- ===== src/Authn/Examples/Exchange.antt =====
-- The exchange of tokens, by example.
use mathlib.Core.List.Perm
use authlib.Prelude.{true, ◌≡◌, ◌≢◌, ◌↔◌, refl, none, some, List, [], ◌∷◌, ◌++◌, ◌||◌, arith}
use authlib.Prelude.Int.{pos, negsuc, lt_ℤ, ◌-ℤ◌, saturate, wrap_int64, signed64, word64}
use authlib.Errors.{ok, err, plain}
use authlib.Cache.{Duration}
use authlib.Cache.Sample.{sample_cache, empty_cache, sample_cache-IsKeeping}
use authlib.Text.Bytes.{Str, codes}
use authlib.Cache.Local.{item_bytes}
use authlib.Text.Sort.{str_le}
use authlib.Authn.TokenExchange.{
  TokenExchangeRequest, TokenExchangeResponse, Environment, hash, read_response, request_token,
  get_cache, set_cache, fetch, flight, exchange_valid, exchange, cache_leeway, time_to_live, until,
}
use authlib.Authn.TokenExchange.Key.{hash_ambiguous}
use authlib.Authn.TokenExchange.Caching.{
  CachedOrServed, IsFetched, exchange_iff, exchange_again, set_cache_duration, least_life,
}

hash_ambiguous_example :
    hash (record { namespace = codes "stacks" ++ (b'-' ∷ codes "1"); audiences = codes "a" ∷ [] })
    ≡ hash (record { namespace = codes "stacks"; audiences = codes "1" ∷ codes "a" ∷ [] })
hash_ambiguous_example =
    hash_ambiguous (codes "stacks") (codes "1") (codes "a") [] (unfold str_le in (refl, tt))

abbrev response : TokenExchangeResponse
response = record { token = codes "at"; status = codes "success"; error = [] }

-- A server that gives the token `at`, which expires at 30 seconds.
abbrev pub sample_server : Environment
sample_server = record {
  marshal = λ r. ok [];
  new_request = λ body. ok body;
  post = λ req. ok (record { status_code = 200; body = [] });
  decode = λ body. ok response;
  parse_signed = λ token. ok (some (pos 30_000_000_000));
  date_time = λ expiry. elim expiry [ none ↦ pos 0 | some t ↦ t ];
}

abbrev pub exchange_request : TokenExchangeRequest
exchange_request = record { namespace = codes "stacks-1"; audiences = codes "a" ∷ [] }

exchange_iff_example :
    ((exchange sample_cache sample_server (pos 0) none empty_cache exchange_request).0
      ≡ ok (codes "at"))
    ↔ ((exchange_request.namespace ≢ [])
        × (exchange_request.audiences ≢ [])
        × CachedOrServed sample_cache sample_server
            (pos 0)
            empty_cache
            exchange_request
            (codes "at"))
exchange_iff_example =
    exchange_iff sample_cache sample_server (pos 0) empty_cache exchange_request (codes "at")

exchanged :
    (exchange sample_cache sample_server (pos 0) none empty_cache exchange_request).0
    ≡ ok (codes "at")
unfolding exchange exchange_valid flight fetch request_token read_response get_cache item_bytes
exchanged = refl

set_cache_duration_example :
    (d : Duration) × (set_cache sample_cache sample_server
        (pos 0)
        empty_cache
        (codes "at")
        (codes "key")
      ≡ sample_cache.set empty_cache (codes "key") (codes "at") d)
    × (lt_ℤ (pos 0) d ≡ (
        lt_ℤ cache_leeway (sample_server.date_time (some (pos 30_000_000_000)) -ℤ pos 0)
        || lt_ℤ (sample_server.date_time (some (pos 30_000_000_000)) -ℤ pos 0) least_life))
set_cache_duration_example =
    set_cache_duration sample_cache sample_server (pos 0) empty_cache (codes "at") (codes "key")
      (some (pos 30_000_000_000)) refl

-- 2026-01-01 and the zero time of Go, in nanoseconds of Unix: what a token without an expiry is kept
-- for is positive.
kept_without_expiry :
    lt_ℤ (pos 0) (time_to_live (pos 1_767_225_600_000_000_000) (negsuc 62_135_596_799_999_999_999))
    ≡ true
unfolding time_to_live until saturate wrap_int64 signed64 word64 ◌-ℤ◌ lt_ℤ
kept_without_expiry = refl

abbrev two_audiences : List Str
two_audiences = codes "b" ∷ codes "a" ∷ []

abbrev two_request : TokenExchangeRequest
two_request = record { namespace = codes "stacks-1"; audiences = two_audiences }

two_IsFetched :
    IsFetched sample_cache sample_server
      (pos 0)
      empty_cache
      two_request
      response
      (some (pos 30_000_000_000))
unfolding get_cache item_bytes read_response
two_IsFetched = record {
  miss = refl;
  served = ([], [], record { status_code = 200; body = [] }, refl, refl, refl, refl, refl);
  parsed = refl;
  kept = refl;
}

-- A server that is down.
abbrev no_server : Environment
no_server = record sample_server { post = λ req. err plain }

exchange_again_example :
    let s' = (exchange sample_cache sample_server (pos 0) none empty_cache two_request).1 in
    exchange sample_cache no_server
      (pos 5)
      none
      s'
      (record { namespace = codes "stacks-1"; audiences = codes "a" ∷ codes "b" ∷ [] })
    ≡ (ok (codes "at"), s')
exchange_again_example =
    exchange_again sample_cache sample_server no_server (pos 0) (pos 5) none empty_cache
      (codes "stacks-1") two_audiences (codes "a" ∷ codes "b" ∷ []) response
      (some (pos 30_000_000_000)) sample_cache-IsKeeping (ground arith) (ground arith)
      (ground arith) (Perm.swap (codes "a") (codes "b") []) two_IsFetched
