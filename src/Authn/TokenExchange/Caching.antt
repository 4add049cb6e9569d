-- ===== src/Authn/TokenExchange/Caching.antt =====
-- What `Exchange` returns, and what it leaves in the cache.
use mathlib.Core.List.{Perm}
use authlib.Prelude.{
  ◌||◌, ◌^◌, ◌-◌, ◌≡◌, ◌≢◌, ◌↔◌, ◌⊎◌, inl, inr, refl, sym, ap, ◌∙◌, Option, none, some, List, [],
  arith, Option-cases,
}
use authlib.Prelude.Int.{ℤ, pos, negsuc, lt_ℤ, ◌-ℤ◌, sub_ℕ, saturate, wrap_int64, signed64, word64}
use authlib.Errors.{Result, ok, ◌>>=◌, first_succeeds, Result-cases, ok_injective}
use authlib.Cache.{Cache, Bytes, Duration, IsKeeping}
use authlib.Text.Bytes.{Str}
use authlib.Claims.Token.{Time}
use authlib.Authn.TokenExchange.{
  TokenExchangeRequest, TokenExchangeResponse, HttpResponse, Environment, sorted, hash,
  read_response, request_token, cache_leeway, until, time_to_live, get_cache, set_cache, fetch,
  flight, exchange_valid, exchange,
}
use authlib.Authn.TokenExchange.Key.{hash_perm}

-- The exchange succeeded over HTTP: the status is 200 and the body is the response.
abbrev pub Served : Environment → TokenExchangeRequest → TokenExchangeResponse → Type 0
Served env r response =
    (body req : Bytes) × (res : HttpResponse) × (env.marshal r ≡ ok body)
    × (env.new_request body ≡ ok req)
    × (env.post req ≡ ok res)
    × (res.status_code ≡ 200)
    × (env.decode res.body ≡ ok response)

read_response_iff :
    (decode : Bytes → Result TokenExchangeResponse) (res : HttpResponse)
    (response : TokenExchangeResponse)
    → (read_response decode res ≡ ok response)
      ↔ ((res.status_code ≡ 200) × (decode res.body ≡ ok response))
unfolding read_response
read_response_iff decode res response = (λ h. ground arith, λ h. ground arith)

request_token_iff :
    (env : Environment) (r : TokenExchangeRequest) (response : TokenExchangeResponse)
    → (request_token env r ≡ ok response) ↔ Served env r response
unfolding request_token
request_token_iff env r response = (fwd, bwd)
  where
    fwd : request_token env r ≡ ok response → Served env r response
    fwd h = elim (Result-cases (env.marshal r)) [
      | inr (e, m) ↦ absurd (ground arith)
      | inl (body, m) ↦ elim (Result-cases (env.new_request body)) [
        | inr (e, n) ↦ absurd (ground arith)
        | inl (req, n) ↦ elim (Result-cases (env.post req)) [
          | inr (e, p) ↦ absurd (ground arith)
          | inl (res, p) ↦
              let read : read_response env.decode res ≡ ok response = ground arith in
              let (status, d) = (read_response_iff env.decode res response).0 read in
              (body, req, res, m, n, p, status, d)
        ]
      ]
    ]

    bwd : Served env r response → request_token env r ≡ ok response
    bwd (body, req, res, m, n, p, status, d) =
        rw (m, request_token, n, p) ((read_response_iff env.decode res response).1 (status, d))

-- The least difference from which the leeway can be subtracted: the leeway less 2 ^ 63.
abbrev pub least_life : Duration
least_life = negsuc (2 ^ 63 - 15_000_000_001)

kept_for_sign :
    (d : Duration)
    → lt_ℤ (pos 0) (wrap_int64 (saturate d -ℤ cache_leeway))
      ≡ (lt_ℤ cache_leeway d || lt_ℤ d least_life)
unfolding lt_ℤ ◌-ℤ◌ sub_ℕ saturate wrap_int64 signed64 word64
kept_for_sign (pos n) = ground arith
kept_for_sign (negsuc n) = ground arith

-- `setCache` stores a token that go-jose can parse, and the duration that it hands to the cache is
-- positive exactly if the token lives for more than the leeway of 15 seconds, or its expiry lies so
-- far back that the time to it, in nanoseconds, is below the leeway less 2 ^ 63. In between the cache
-- is asked for a duration that is 0 or negative.
pub set_cache_duration :
    (c : Cache) (env : Environment) (now : Time) (s : c.State) (token k : Str) (expiry : Option ℤ)
    → env.parse_signed token ≡ ok expiry
    → (d : Duration) × (set_cache c env now s token k ≡ c.set s k token d)
      × (lt_ℤ (pos 0) d ≡ (
          lt_ℤ cache_leeway (env.date_time expiry -ℤ now)
          || lt_ℤ (env.date_time expiry -ℤ now) least_life))
unfolding set_cache time_to_live until
set_cache_duration c env now s token k expiry parsed = (
  time_to_live now (env.date_time expiry),
  rw (parsed, set_cache),
  kept_for_sign (env.date_time expiry -ℤ now),
)

module _ (c : Cache) (env : Environment) (now : Time) (s : c.State) (r : TokenExchangeRequest) where
  -- The token is in the cache, or it is not and the exchange over HTTP gives it.
  abbrev pub CachedOrServed : Str → Type 0
  CachedOrServed token =
      (get_cache c env now s (hash r) ≡ some token)
      ⊎ ((get_cache c env now s (hash r) ≡ none)
          × ((response : TokenExchangeResponse) × Served env (sorted r) response
              × (response.token ≡ token)))

  fetch_result : (fetch c env now s (sorted r) (hash r)).0 ≡ request_token env (sorted r)
  unfolding fetch
  fetch_result = elim (Result-cases (request_token env (sorted r))) [
    | inl (x, q) ↦ ground arith
    | inr (e, q) ↦ ground arith
  ]

  exchange_valid_eq :
      get_cache c env now s (hash r) ≡ none
      → (exchange_valid c env now none s r).0
        ≡ (request_token env (sorted r) >>= λ response. ok response.token)
  unfolding exchange_valid flight
  exchange_valid_eq miss = rw (miss, exchange_valid, fetch_result) refl

  exchange_miss_iff :
      get_cache c env now s (hash r) ≡ none
      → (token : Str)
      → ((exchange_valid c env now none s r).0 ≡ ok token) ↔ (
          (response : TokenExchangeResponse) × Served env (sorted r) response
          × (response.token ≡ token))
  exchange_miss_iff miss token = (fwd, bwd)
    where
      fwd :
          (exchange_valid c env now none s r).0 ≡ ok token
          → (response : TokenExchangeResponse) × Served env (sorted r) response
            × (response.token ≡ token)
      fwd h =
          let (response, q, t) =
            first_succeeds (request_token env (sorted r)) (λ response. ok response.token)
              (sym (exchange_valid_eq miss) ∙ h) in
          (response, (request_token_iff env (sorted r) response).0 q, ok_injective t)

      bwd :
          (response : TokenExchangeResponse) × Served env (sorted r) response
            × (response.token ≡ token)
          → (exchange_valid c env now none s r).0 ≡ ok token
      bwd (response, served, t) =
          exchange_valid_eq miss
          ∙ rw ((request_token_iff env (sorted r) response).1 served) (ap ok t)

  exchange_valid_hit :
      (t : Str)
      → get_cache c env now s (hash r) ≡ some t
      → (exchange_valid c env now none s r).0 ≡ ok t
  unfolding exchange_valid
  exchange_valid_hit t hit = rw (hit, exchange_valid) refl

  exchange_valid_iff :
      (token : Str) → ((exchange_valid c env now none s r).0 ≡ ok token) ↔ CachedOrServed token
  exchange_valid_iff token = elim (Option-cases (get_cache c env now s (hash r))) [
    | inr (t, hit) ↦ (
      λ h. inl (hit ∙ ap some (ok_injective (sym (exchange_valid_hit t hit) ∙ h))),
      λ w. elim w [
        | inl found ↦ exchange_valid_hit token found
        | inr (miss, served) ↦ absurd (ground arith)
      ],
    )
    | inl miss ↦ (
      λ h. inr (miss, (exchange_miss_iff miss token).0 h),
      λ w. elim w [
        | inl found ↦ absurd (ground arith)
        | inr (miss', served) ↦ (exchange_miss_iff miss token).1 served
      ],
    )
  ]

module _ (c : Cache) (env : Environment) (now : Time) (s : c.State) (r : TokenExchangeRequest) where
  exchange_guards :
      (token : Str)
      → (exchange c env now none s r).0 ≡ ok token
      → (r.namespace ≢ []) × (r.audiences ≢ []) × ((exchange_valid c env now none s r).0 ≡ ok token)
  unfolding exchange
  exchange_guards token h = ground arith

  exchange_past_guards :
      r.namespace ≢ []
      → r.audiences ≢ []
      → exchange c env now none s r ≡ exchange_valid c env now none s r
  unfolding exchange
  exchange_past_guards n a = ground arith

-- With no other call under way, `Exchange` returns a token exactly if the request has a namespace
-- and audiences, and the cache has the token under the key of the request, or has nothing there and
-- the server answers with status 200 and a response that holds the token.
pub exchange_iff :
    (c : Cache) (env : Environment) (now : Time) (s : c.State) (r : TokenExchangeRequest)
    (token : Str)
    → ((exchange c env now none s r).0 ≡ ok token)
      ↔ ((r.namespace ≢ []) × (r.audiences ≢ []) × CachedOrServed c env now s r token)
exchange_iff c env now s r token = (fwd, bwd)
  where
    fwd :
        (exchange c env now none s r).0 ≡ ok token
        → (r.namespace ≢ []) × (r.audiences ≢ []) × CachedOrServed c env now s r token
    fwd h =
        let (n, a, v) = exchange_guards c env now s r token h in
        (n, a, (exchange_valid_iff c env now s r token).0 v)

    bwd :
        (r.namespace ≢ []) × (r.audiences ≢ []) × CachedOrServed c env now s r token
        → (exchange c env now none s r).0 ≡ ok token
    bwd (n, a, w) =
        ap (λ (p : Result Str × c.State). p.0) (exchange_past_guards c env now s r n a)
        ∙ (exchange_valid_iff c env now s r token).1 w

-- An exchange whose key was not in the cache, which the server answered, and whose token could be
-- parsed and was cached.
pub record IsFetched (c : Cache) (env : Environment) (now : Time) (s : c.State)
    (r : TokenExchangeRequest) (response : TokenExchangeResponse) (expiry : Option ℤ) : Type 0 where
  pub miss : get_cache c env now s (hash r) ≡ none
  pub served : Served env (sorted r) response
  pub parsed : env.parse_signed response.token ≡ ok expiry
  pub kept : (c.set s (hash r) response.token (time_to_live now (env.date_time expiry))).0 ≡ none

module _ (c : Cache) (env : Environment) (now : Time) (s : c.State) (r : TokenExchangeRequest)
    (response : TokenExchangeResponse) (expiry : Option ℤ)
    (fetched : IsFetched c env now s r response expiry) where
  -- The state behind the fetch.
  fetch_state :
      (exchange_valid c env now none s r).1
      ≡ (c.set s (hash r) response.token (time_to_live now (env.date_time expiry))).1
  unfolding exchange_valid flight fetch set_cache
  fetch_state =
      rw
        (
          fetched.miss,
          exchange_valid,
          (request_token_iff env (sorted r) response).1 fetched.served,
          fetch,
          fetched.parsed,
          set_cache,
        )
        refl

  fetch_found :
      IsKeeping c
      → (env' : Environment) (now' : Time) (key : Str) → hash r ≡ key
      → get_cache c env' now' (exchange_valid c env now none s r).1 key ≡ some response.token
  unfolding get_cache
  fetch_found keeping env' now' key same =
      rw
        (
          fetch_state,
          ← same,
          keeping.get-set s (hash r) response.token (time_to_live now (env.date_time expiry))
              fetched.kept,
          get_cache,
        )
        refl

found_exchange :
    (c : Cache) (env : Environment) (now : Time)
    (shared : Option (Result TokenExchangeResponse × c.State)) (s : c.State)
    (r : TokenExchangeRequest) (token : Str)
    → r.namespace ≢ []
    → r.audiences ≢ []
    → get_cache c env now s (hash r) ≡ some token
    → exchange c env now shared s r ≡ (ok token, s)
unfolding exchange exchange_valid
found_exchange c env now shared s r token n a found = ground arith

-- With a keeping cache: after an exchange that was not answered from the cache, and whose token could
-- be parsed and was cached, an exchange for the same namespace and the same
-- audiences in any order returns that token from the cache, whatever the server would answer and
-- whichever call is under way, and leaves the cache as it is.
pub exchange_again :
    (c : Cache) (env env' : Environment) (now now' : Time)
    (shared : Option (Result TokenExchangeResponse × c.State)) (s : c.State) (namespace : Str)
    (xs ys : List Str) (response : TokenExchangeResponse) (expiry : Option ℤ)
    → IsKeeping c
    → namespace ≢ []
    → xs ≢ []
    → ys ≢ []
    → Perm xs ys
    → IsFetched c env now s (record { namespace = namespace; audiences = xs }) response expiry
    → let s' = (exchange c env now none s (record { namespace = namespace; audiences = xs })).1 in
      exchange c env' now' shared s' (record { namespace = namespace; audiences = ys })
      ≡ (ok response.token, s')
exchange_again c env env' now now' shared s namespace xs ys response expiry keeping n x y perm
      fetched =
    let r : TokenExchangeRequest = record { namespace = namespace; audiences = xs } in
    let r' : TokenExchangeRequest = record { namespace = namespace; audiences = ys } in
    rw (exchange_past_guards c env now s r n x) (
      found_exchange c env' now' shared (exchange_valid c env now none s r).1 r' response.token n y
        (fetch_found c env now s r response expiry fetched keeping env' now' (hash r')
          (hash_perm namespace perm)))
