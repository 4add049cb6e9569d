-- ===== src/Authn/TokenExchange.antt =====
-- authn/token_exchange.go: `TokenExchangeClient`. The cache, the HTTP client, the JSON decoder and
-- go-jose are parameters; a call takes the state of the cache and returns the state that it leaves.
pub mod Key
pub mod Caching
pub mod Client
use authlib.Prelude.{
  ℕ, ◌+◌, ◌*◌, ◌≤◌, ◌<◌, Bool, true, false, not, Option, none, some, List, [], ◌∷◌, ◌++◌, ltb, ◌==◌,
  if◌then◌else◌, is_nil,
}
use authlib.Prelude.Int.{ℤ, pos, ◌-ℤ◌, saturate, wrap_int64}
use authlib.Errors.{
  Error, Result, ok, err, authn, plain, wrap, wrap_both, missing_namespace, missing_audiences,
  invalid_exchange_response, ◌>>=◌,
}
use authlib.Cache.{Cache, Bytes, Duration}
use authlib.Text.Bytes.{Str, codes}
use authlib.Text.Sort.{sort}
use authlib.Text.Split.{join}
use authlib.Claims.Token.{Time}

-- `TokenExchangeRequest`
pub record TokenExchangeRequest : Type 0 where
  pub namespace : Str
  pub audiences : List Str

-- `tokenExchangeResponse`, with the token of its data.
pub record TokenExchangeResponse : Type 0 where
  pub token : Str
  pub status : Str
  pub error : Str

-- An HTTP response: its status code and its body.
pub record HttpResponse : Type 0 where
  pub status_code : ℕ
  pub body : Bytes

-- `hash` sorts the audiences in place, so the request that is sent afterwards has them sorted too.
unfoldable pub sorted : TokenExchangeRequest → TokenExchangeRequest
sorted r = record r { audiences = sort r.audiences }

-- `hash`
unfoldable pub hash : TokenExchangeRequest → Str
hash r = r.namespace ++ (b'-' ∷ join (codes "-") (sort r.audiences))

-- 15 seconds in nanoseconds.
abbrev pub cache_leeway : Duration
cache_leeway = pos 15_000_000_000

-- What the client calls: the building of the request with its JSON body, the HTTP client, the JSON
-- decoder, and go-jose for the expiry of a token.
pub record Environment : Type 0 where
  pub marshal : TokenExchangeRequest → Result Bytes
  pub new_request : Bytes → Result Bytes
  pub post : Bytes → Result HttpResponse
  pub decode : Bytes → Result TokenExchangeResponse
  pub parse_signed : Str → Result (Option ℤ)
  pub date_time : Option ℤ → Time

-- The tests on the response.
unfoldable pub read_response :
    (Bytes → Result TokenExchangeResponse) → HttpResponse → Result TokenExchangeResponse
read_response decode res =
    if not (ltb res.status_code 500)
    then err (wrap (authn invalid_exchange_response))
    else elim (decode res.body) [
      | err e ↦ err e
      | ok response ↦
          if not (res.status_code == 200)
          then err (wrap (authn invalid_exchange_response))
          else ok response
    ]

-- The calls of the function that `Exchange` hands to `singleflight`, up to the response.
unfoldable pub request_token : Environment → TokenExchangeRequest → Result TokenExchangeResponse
request_token env r = elim (env.marshal r) [
  | err e ↦ err (wrap_both (authn invalid_exchange_response) e)
  | ok body ↦ elim (env.new_request body) [
    | err e ↦ err (wrap e)
    | ok req ↦ elim (env.post req) [
      | err e ↦ err (wrap_both (authn invalid_exchange_response) e)
      | ok res ↦ read_response env.decode res
    ]
  ]
]

-- `time.Until`, which holds the difference to the range of an `int64`.
unfoldable pub until : Time → Time → Duration
until now t = saturate (t -ℤ now)

-- How long `setCache` keeps a token; the subtraction of an `int64` wraps around.
unfoldable pub time_to_live : Time → Time → Duration
time_to_live now expiry = wrap_int64 (until now expiry -ℤ cache_leeway)

module _ (c : Cache) (env : Environment) (now : Time) where
  -- `getCache`
  unfoldable pub get_cache : c.State → Str → Option Str
  get_cache s key = elim (c.get s key) [ ok token ↦ some token | err e ↦ none ]

  -- `setCache`, whose error `Exchange` ignores.
  unfoldable pub set_cache : c.State → Str → Str → Option Error × c.State
  set_cache s token key = elim (env.parse_signed token) [
    | err e ↦ (some plain, s)
    | ok expiry ↦ c.set s key token (time_to_live now (env.date_time expiry))
  ]

  -- The function that `Exchange` hands to `singleflight`.
  unfoldable pub fetch :
      c.State → TokenExchangeRequest → Str → Result TokenExchangeResponse × c.State
  fetch s r key = elim (request_token env r) [
    | err e ↦ (err e, s)
    | ok response ↦ (ok response, (set_cache s response.token key).1)
  ]

  -- `singleflight.Do`: a call for the same key that is under way, with its result and the state it
  -- leaves, is shared; otherwise the function is called.
  unfoldable pub flight :
      Option (Result TokenExchangeResponse × c.State)
      → Result TokenExchangeResponse × c.State
      → Result TokenExchangeResponse × c.State
  flight none own = own
  flight (some shared) own = shared

  -- `Exchange` for a request that has a namespace and audiences.
  unfoldable pub exchange_valid :
      Option (Result TokenExchangeResponse × c.State)
      → c.State
      → TokenExchangeRequest
      → Result Str × c.State
  exchange_valid shared s r = elim (get_cache s (hash r)) [
    | some token ↦ (ok token, s)
    | none ↦
        let (resp, s') = flight shared (fetch s (sorted r) (hash r)) in
        (resp >>= λ response. ok response.token, s')
  ]

  -- `Exchange`: the token or the error.
  unfoldable pub exchange :
      Option (Result TokenExchangeResponse × c.State)
      → c.State
      → TokenExchangeRequest
      → Result Str × c.State
  exchange shared s r =
      if is_nil r.namespace
      then (err (authn missing_namespace), s)
      else if is_nil r.audiences
      then (err (authn missing_audiences), s)
      else exchange_valid shared s r
