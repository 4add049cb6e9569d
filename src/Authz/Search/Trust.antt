-- ===== src/Authz/Search/Trust.antt =====
-- Whose permissions `Search` returns.
use mathlib.Core.Path.{subst}
use authlib.Prelude.{
  Bool, true, false, ◌||◌, ◌≡◌, ◌⊎◌, inl, inr, refl, sym, ap, ◌∙◌, Option, none, some, [], arith,
  is_nil, Bool-cases,
}
use authlib.Errors.{Error, Result, ok, err, wrap, is_not_found, Result-cases, ok_injective}
use authlib.Cache.{Cache, Bytes, IsHonest, default_expiration}
use authlib.Text.Bytes.{Str, codes, has_prefix}
use authlib.Authn.Claims.{Claims}
use authlib.Authn.Authenticator.{Verifier}
use authlib.Authz.Enforcement.{SearchQuery, PermissionsById}
use authlib.Authz.Search.{
  SearchEnvironment, search_cache_key, search_request, with_subject, process_id_token,
  request_permissions, read_item, kept_value, cache_value, ask_server, search_valid,
}
use authlib.Authz.Search.Key.{IsUtf8, IsJson, same_search_request}

-- The query that is sent: without an id token it is the given one, and with one its subject is that
-- of the verified token, which is a user or a service account.
abbrev pub IsFor : Verifier (Unit {0}) → SearchQuery → SearchQuery → Type 0
IsFor verifier query prepared =
    ((query.id_token ≡ []) × (prepared ≡ query))
    ⊎ ((claims : Claims (Unit {0})) × (verifier query.id_token ≡ ok claims)
        × (prepared ≡ record query { namespaced_id = claims.jwt.subject })
        × ((has_prefix claims.jwt.subject (codes "service-account")
              || has_prefix claims.jwt.subject (codes "user"))
            ≡ true))

with_subject_ok :
    (query prepared : SearchQuery) (subject : Str)
    → with_subject query subject ≡ ok prepared
    → ((has_prefix subject (codes "service-account") || has_prefix subject (codes "user")) ≡ true)
      × (record query { namespaced_id = subject } ≡ prepared)
unfolding with_subject
with_subject_ok query prepared subject h = ground arith

no_token :
    (verifier : Verifier (Unit {0})) (query prepared : SearchQuery)
    → process_id_token verifier query ≡ ok prepared
    → (is_nil query.id_token ≡ true) ⊎ ((e : Error) × (verifier query.id_token ≡ err e))
    → (query.id_token ≡ []) × (prepared ≡ query)
unfolding process_id_token
no_token verifier query prepared h none_or_bad = ground arith

with_token :
    (verifier : Verifier (Unit {0})) (query prepared : SearchQuery) (claims : Claims (Unit {0}))
    → process_id_token verifier query ≡ ok prepared
    → is_nil query.id_token ≡ false
    → verifier query.id_token ≡ ok claims
    → with_subject query claims.jwt.subject ≡ ok prepared
unfolding process_id_token
with_token verifier query prepared claims h n q = ground arith

pub process_id_token-IsFor :
    (verifier : Verifier (Unit {0})) (query prepared : SearchQuery)
    → process_id_token verifier query ≡ ok prepared
    → IsFor verifier query prepared
process_id_token-IsFor verifier query prepared h = elim (Result-cases (verifier query.id_token)) [
  | inr bad ↦ inl (no_token verifier query prepared h (inr bad))
  | inl (claims, q) ↦ elim (Bool-cases (is_nil query.id_token)) [
    | inl n ↦ inl (no_token verifier query prepared h (inl n))
    | inr n ↦
        let (typ, same) =
          with_subject_ok query prepared claims.jwt.subject
            (with_token verifier query prepared claims h n q) in
        inr (claims, q, sym same, typ)
  ]
]

-- gob gives back the permissions, up to a relation: the order of maps is not kept.
pub record IsItemCodec (env : SearchEnvironment) (Same : PermissionsById → PermissionsById → Type 0)
    : Type 0 where
  pub same_refl : (perms : PermissionsById) → Same perms perms
  pub decode-encode :
      (perms perms' : PermissionsById) (b : Bytes)
      → env.encode_item perms ≡ ok b
      → env.decode_item b ≡ ok perms'
      → Same perms' perms

module _ (env : SearchEnvironment) (Same : PermissionsById → PermissionsById → Type 0) where
  -- The server answers the query with these permissions.
  abbrev pub AnswersQuery : SearchQuery → PermissionsById → Type 0
  AnswersQuery query perms =
      (perms' : PermissionsById) × (request_permissions env query ≡ ok perms') × Same perms perms'

module _ (env : SearchEnvironment) (valid_utf8 : Str → Bool)
    (Same : PermissionsById → PermissionsById → Type 0) where
  -- What is cached for a query whose strings are valid UTF-8 is what the server answers to it.
  abbrev pub HoldsAnswers : (c : Cache) → c.State → Type 0
  HoldsAnswers c s =
      (query : SearchQuery) (b : Bytes) (perms : PermissionsById)
      → IsUtf8 valid_utf8 query
      → c.get s (search_cache_key env query) ≡ ok b
      → env.decode_item b ≡ ok perms
      → AnswersQuery env Same query perms

-- A result of a search for a prepared query: permissions are the server's answer, and so is all that
-- is cached for queries whose strings are valid UTF-8.
pub record IsAnswered (c : Cache) (env : SearchEnvironment) (valid_utf8 : Str → Bool)
    (Same : PermissionsById → PermissionsById → Type 0) (query : SearchQuery)
    (p : Result PermissionsById × c.State) : Type 0 where
  pub answer : (perms : PermissionsById) → p.0 ≡ ok perms → AnswersQuery env Same query perms
  pub holds : HoldsAnswers env valid_utf8 Same c p.1

same_answer :
    (env : SearchEnvironment) (q r : SearchQuery)
    → search_request env q ≡ search_request env r
    → request_permissions env q ≡ request_permissions env r
unfolding request_permissions
same_answer env q r e = rw (e, request_permissions) refl

read_item_ok :
    (env : SearchEnvironment) (b : Bytes) (perms : PermissionsById)
    → read_item env b ≡ ok perms
    → env.decode_item b ≡ ok perms
unfolding read_item
read_item_ok env b perms h = elim (Result-cases (env.decode_item b)) [
  | inl (perms', e) ↦ ground arith
  | inr (x, e) ↦ absurd (ground arith)
]

module _ (c : Cache) (env : SearchEnvironment) (valid_utf8 : Str → Bool)
    (Same : PermissionsById → PermissionsById → Type 0) (honest : IsHonest c)
    (json : IsJson env valid_utf8) (codec : IsItemCodec env Same) (s : c.State)
    (holds : HoldsAnswers env valid_utf8 Same c s) where
  pub failed-IsAnswered :
      (query : SearchQuery) (e : Error) → IsAnswered c env valid_utf8 Same query (err e, s)
  failed-IsAnswered query e = record { answer = λ perms h. cc h; holds = holds }

  set-HoldsAnswers :
      (query : SearchQuery) (perms : PermissionsById) (b : Bytes)
      → IsUtf8 valid_utf8 query
      → request_permissions env query ≡ ok perms
      → env.encode_item perms ≡ ok b
      → HoldsAnswers env valid_utf8 Same c
          (c.set s (search_cache_key env query) b default_expiration).1
  set-HoldsAnswers query perms b utf8 asked encoded r w perms' utf8' found decoded =
      elim (honest.get-set s (search_cache_key env query) (search_cache_key env r) b w
        default_expiration found) [
          | inl (key, same) ↦ (
            perms,
            sym (
                  same_answer env query r
                    (same_search_request env valid_utf8 json query r utf8 utf8' key))
                ∙ asked,
            codec.decode-encode perms perms' w (encoded ∙ ap ok same) decoded,
          )
          | inr old ↦ holds r w perms' utf8' old decoded
        ]

  kept-IsAnswered :
      (query : SearchQuery) (perms : PermissionsById) (r : Option Error × c.State)
      → request_permissions env query ≡ ok perms
      → HoldsAnswers env valid_utf8 Same c r.1
      → IsAnswered c env valid_utf8 Same query (kept_value perms r)
  unfolding kept_value
  kept-IsAnswered query perms (none, s') asked good = record {
    answer = λ perms' h.
        (perms, asked, subst (λ x. Same x perms) (ok_injective h) (codec.same_refl perms));
    holds = good;
  }
  kept-IsAnswered query perms (some e, s') asked good = record {
    answer = λ perms' h. cc h;
    holds = good;
  }

  cache_value-IsAnswered :
      (query : SearchQuery) (perms : PermissionsById)
      → IsUtf8 valid_utf8 query
      → request_permissions env query ≡ ok perms
      → IsAnswered c env valid_utf8 Same query
          (cache_value c env s perms (search_cache_key env query))
  unfolding cache_value
  cache_value-IsAnswered query perms utf8 asked = elim (Result-cases (env.encode_item perms)) [
    | inl (b, e) ↦
        rw (e, cache_value)
          (kept-IsAnswered query perms _ asked (set-HoldsAnswers query perms b utf8 asked e))
    | inr (x, e) ↦ rw (e, cache_value) (failed-IsAnswered query (wrap x))
  ]

  ask_server-IsAnswered :
      (query : SearchQuery)
      → IsUtf8 valid_utf8 query
      → IsAnswered c env valid_utf8 Same query (ask_server c env s query)
  unfolding ask_server
  ask_server-IsAnswered query utf8 = elim (Result-cases (request_permissions env query)) [
    | inl (perms, e) ↦ rw (e, ask_server) (cache_value-IsAnswered query perms utf8 e)
    | inr (x, e) ↦ rw (e, ask_server) (failed-IsAnswered query x)
  ]

  pub search_valid-IsAnswered :
      (query : SearchQuery)
      → IsUtf8 valid_utf8 query
      → IsAnswered c env valid_utf8 Same query (search_valid c env s query)
  unfolding search_valid
  search_valid-IsAnswered query utf8 = elim (Result-cases (c.get s (search_cache_key env query))) [
    | inl (b, e) ↦
        rw (e, search_valid)
          (record {
            answer = λ perms h. holds query b perms utf8 e (read_item_ok env b perms h);
            holds = holds;
          })
    | inr (x, e) ↦ elim (Bool-cases (is_not_found x)) [
      | inl n ↦ rw (e, search_valid, n) (ask_server-IsAnswered query utf8)
      | inr n ↦ rw (e, search_valid, n) (failed-IsAnswered query x)
    ]
  ]
