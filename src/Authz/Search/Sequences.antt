-- ===== src/Authz/Search/Sequences.antt =====
-- Sequences of searches: what is returned, and what stays in the cache.
use mathlib.Core.Path.{subst}
use authlib.Authn.Claims.{Claims}
use authlib.Prelude.{Bool, true, All, sym, ◌≡◌, ◌≢◌, inl, inr, none, List, [], ◌∷◌, Option-cases}
use authlib.Errors.{Error, Result, ok, err, Result-cases}
use authlib.Cache.{Cache, Bytes, IsHonest}
use authlib.Text.Bytes.{Str}
use authlib.Authn.Authenticator.{Verifier}
use authlib.Authz.Enforcement.{SearchQuery, PermissionsById}
use authlib.Authz.Search.{
  SearchEnvironment, search_cache_key, process_resource, process_id_token, validate_query,
  search_prepared, search,
}
use authlib.Authz.Search.Key.{IsUtf8, IsJson}
use authlib.Authz.Search.Trust.{
  IsFor, process_id_token-IsFor, IsItemCodec, AnswersQuery, HoldsAnswers, search_valid-IsAnswered,
}

-- A result of `Search`: permissions are the server's answer to a valid query for the subject of the
-- verified id token, if there is one; and all that is cached for queries with valid UTF-8 strings is
-- the server's answer.
pub record IsSearched (c : Cache) (env : SearchEnvironment) (valid_utf8 : Str → Bool)
    (Same : PermissionsById → PermissionsById → Type 0) (verifier : Verifier (Unit {0}))
    (query : SearchQuery) (p : Result PermissionsById × c.State) : Type 0 where
  pub answer :
      (perms : PermissionsById)
      → p.0 ≡ ok perms
      → (prepared : SearchQuery) × IsFor verifier (process_resource query) prepared
        × (validate_query prepared ≡ none)
        × AnswersQuery env Same prepared perms
  pub holds : HoldsAnswers env valid_utf8 Same c p.1

module _ (c : Cache) (env : SearchEnvironment) (verifier : Verifier (Unit {0})) where
  -- The cache behind the searches, in their order.
  unfoldable pub search_all : c.State → List SearchQuery → c.State
  search_all s [] = s
  search_all s (query ∷ queries) = search_all (search c env verifier s query).1 queries

-- The strings of a query that are sent are valid UTF-8, the subject aside where an id token gives it.
abbrev pub IsUtf8Query : (Str → Bool) → SearchQuery → Type 0
IsUtf8Query valid_utf8 query = IsUtf8 valid_utf8 (process_resource query)

-- The subjects of verified id tokens are valid UTF-8: encoding/json decodes strings to such.
abbrev pub GivesUtf8 : (Str → Bool) → Verifier (Unit {0}) → Type 0
GivesUtf8 valid_utf8 verifier =
    (token : Str) (claims : Claims (Unit {0}))
    → verifier token ≡ ok claims
    → valid_utf8 claims.jwt.subject ≡ true

prepared-IsUtf8 :
    (valid_utf8 : Str → Bool) (verifier : Verifier (Unit {0}))
    → GivesUtf8 valid_utf8 verifier
    → (query prepared : SearchQuery) → IsUtf8 valid_utf8 query
    → IsFor verifier query prepared
    → IsUtf8 valid_utf8 prepared
prepared-IsUtf8 valid_utf8 verifier gives query prepared utf8 (inl (n, same)) =
    subst (IsUtf8 valid_utf8) (sym same) utf8
prepared-IsUtf8 valid_utf8 verifier gives query prepared utf8 (inr (claims, q, same, typ)) =
    subst (IsUtf8 valid_utf8) (sym same) (record {
      action_prefix = utf8.action_prefix;
      action = utf8.action;
      scope = utf8.scope;
      namespaced_id = gives query.id_token claims q;
    })

module _ (c : Cache) (env : SearchEnvironment) (valid_utf8 : Str → Bool)
    (Same : PermissionsById → PermissionsById → Type 0) (verifier : Verifier (Unit {0}))
    (honest : IsHonest c) (json : IsJson env valid_utf8) (gives : GivesUtf8 valid_utf8 verifier)
    (codec : IsItemCodec env Same) where
  refused-IsSearched :
      (s : c.State)
      → HoldsAnswers env valid_utf8 Same c s
      → (query : SearchQuery) (e : Error)
      → IsSearched c env valid_utf8 Same verifier query (err e, s)
  refused-IsSearched s h query e = record { answer = λ perms q. cc q; holds = h }

  prepared-IsSearched :
      (s : c.State)
      → HoldsAnswers env valid_utf8 Same c s
      → (query prepared : SearchQuery) → IsFor verifier (process_resource query) prepared
      → IsUtf8 valid_utf8 prepared
      → IsSearched c env valid_utf8 Same verifier query (search_prepared c env s prepared)
  unfolding search_prepared
  prepared-IsSearched s h query prepared for utf8 = elim (Option-cases (validate_query prepared)) [
    | inr (e, q) ↦ rw (q, search_prepared) (refused-IsSearched s h query e)
    | inl q ↦
        let answered =
          search_valid-IsAnswered c env valid_utf8 Same honest json codec s h prepared utf8 in
        rw (q, search_prepared)
          (record {
            answer = λ perms found. (prepared, for, q, answered.answer perms found);
            holds = answered.holds;
          })
  ]

  search-IsSearched :
      (s : c.State)
      → HoldsAnswers env valid_utf8 Same c s
      → (query : SearchQuery) → IsUtf8Query valid_utf8 query
      → IsSearched c env valid_utf8 Same verifier query (search c env verifier s query)
  unfolding search
  search-IsSearched s h query utf8 =
      elim (Result-cases (process_id_token verifier (process_resource query))) [
        | inr (e, q) ↦ rw (q, search) (refused-IsSearched s h query e)
        | inl (prepared, q) ↦
            let for = process_id_token-IsFor verifier (process_resource query) prepared q in
            rw (q, search)
              (prepared-IsSearched s h query prepared for (
                prepared-IsUtf8 valid_utf8 verifier gives (process_resource query) prepared utf8
                  for))
      ]

  search_all-HoldsAnswers :
      (queries : List SearchQuery) (s : c.State)
      → All (IsUtf8Query valid_utf8) queries
      → HoldsAnswers env valid_utf8 Same c s
      → HoldsAnswers env valid_utf8 Same c (search_all c env verifier s queries)
  unfolding search_all
  search_all-HoldsAnswers [] s all h = h
  search_all-HoldsAnswers (query ∷ queries) s (utf8, others) h =
      search_all-HoldsAnswers queries (search c env verifier s query).1 others
        (search-IsSearched s h query utf8).holds

-- With an honest cache, a codec that gives back what it encoded, up to a relation, a JSON encoder that
-- writes objects of valid UTF-8 strings injectively, and id tokens with valid UTF-8 subjects: from an
-- empty cache and after any searches for queries with valid UTF-8 strings, a search for such a query
-- returns permissions only if the prepared query is valid and the server answers it with them, up to
-- the relation, and for each query with valid UTF-8 strings the cache then holds only such answers.
-- The prepared query is the given one, with the scope of its resource, if it has no id token, and
-- otherwise has the subject of the verified token, which is a user's or a service account's.
pub search_all-IsSearched :
    (c : Cache) (env : SearchEnvironment) (valid_utf8 : Str → Bool)
    (Same : PermissionsById → PermissionsById → Type 0) (verifier : Verifier (Unit {0}))
    → IsHonest c
    → (json : IsJson env valid_utf8) → GivesUtf8 valid_utf8 verifier
    → (codec : IsItemCodec env Same) → (s : c.State) → ((k : Str) (b : Bytes) → c.get s k ≢ ok b)
    → (queries : List SearchQuery) → All (IsUtf8Query valid_utf8) queries
    → (query : SearchQuery) → IsUtf8Query valid_utf8 query
    → IsSearched c env valid_utf8 Same verifier query
        (search c env verifier (search_all c env verifier s queries) query)
search_all-IsSearched c env valid_utf8 Same verifier honest json gives codec s empty queries all
      query utf8 =
    search-IsSearched c env valid_utf8 Same verifier honest json gives codec _
      (search_all-HoldsAnswers c env valid_utf8 Same verifier honest json gives codec queries s all
        (λ r b perms u found d. absurd (empty (search_cache_key env r) b found)))
      query utf8
