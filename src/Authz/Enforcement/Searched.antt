-- ===== src/Authz/Enforcement/Searched.antt =====
-- The enforcement client over the search client.
use mathlib.Core.Path.{subst}
use authlib.Prelude.{
  Bool, All, true, ◌≡◌, ◌≢◌, ap, ◌∙◌, inl, inr, Option, none, some, List, [], ◌∷◌, arith,
}
use authlib.Prelude.Int.{ℤ}
use authlib.Errors.{Result, ok, ◌>>=◌, Result-cases, first_succeeds, ok_injective}
use authlib.Cache.{Cache, Bytes, IsHonest}
use authlib.GoMap.{get}
use authlib.Authn.Authenticator.{Verifier}
use authlib.Authz.Scope.{Resource, Permissions}
use authlib.Authz.Checker.{compile_checker}
use authlib.Authz.Checker.Meaning.{Grants, compile_checker_iff}
use authlib.Authz.Search.{SearchEnvironment, process_resource, validate_query, search}
use authlib.Authz.Search.Key.{IsJson}
use authlib.Text.Bytes.{Str}
use authlib.Authz.Search.Trust.{IsFor, IsItemCodec, AnswersQuery}
use authlib.Authz.Search.Sequences.{IsUtf8Query, GivesUtf8, search_all, search_all-IsSearched}
use authlib.Authz.Enforcement.{
  SearchQuery, PermissionsById, resources_kind, build_query, only_permissions, fetch_permissions,
  has_access,
}

-- The search client in a state of its cache, as the enforcement client calls it.
abbrev pub searching :
    (c : Cache) (env : SearchEnvironment)
    → Verifier (Unit {0})
    → c.State
    → SearchQuery
    → Result (Option PermissionsById)
searching c env verifier s query = (search c env verifier s query).0 >>= λ perms. ok (some perms)

-- The one entry of the data, if the permissions have the action.
only_entry :
    (data_of : PermissionsById) (permissions : Permissions) (action : Str) (scopes : List Str)
    → only_permissions (some data_of) ≡ ok permissions
    → get permissions action ≡ some scopes
    → (id : ℤ) × (data_of ≡ (id, permissions) ∷ [])
unfolding only_permissions get
only_entry [] permissions action scopes h found =
    let nil : [] ≡ permissions = ok_injective h in cc (ap (λ p. get p action) nil ∙ found)
only_entry ((id, perms) ∷ []) permissions action scopes h found =
    (id, ap (λ p. (id, p) ∷ []) (ok_injective h))
only_entry (p ∷ q ∷ others) permissions action scopes h found = cc h

module _ (c : Cache) (env : SearchEnvironment) (valid_utf8 : Str → Bool)
    (Same : PermissionsById → PermissionsById → Type 0) (verifier : Verifier (Unit {0}))
    (honest : IsHonest c) (json : IsJson env valid_utf8) (gives : GivesUtf8 valid_utf8 verifier)
    (codec : IsItemCodec env Same) (s : c.State) (empty : (k : Str) (b : Bytes) → c.get s k ≢ ok b)
    (queries : List SearchQuery) (all : All (IsUtf8Query valid_utf8) queries)
    (template : Option SearchQuery) (id_token action : Str) (resources : List Resource) where
  -- What lies behind an answer yes.
  pub record IsEntitled : Type 0 where
    pub prepared : SearchQuery
    pub is_for :
        IsFor verifier
          (process_resource
            (record (build_query template action resources) { id_token = id_token }))
          prepared
    pub valid : validate_query prepared ≡ none
    pub id : ℤ
    pub permissions : Permissions
    pub answered : AnswersQuery env Same prepared ((id, permissions) ∷ [])
    pub scopes : List Str
    pub found : get permissions action ≡ some scopes
    pub grants : Grants scopes (resources_kind resources) resources

  abbrev search_now : SearchQuery → Result (Option PermissionsById)
  search_now = searching c env verifier (search_all c env verifier s queries)

  granted_permissions :
      has_access search_now template id_token action resources ≡ (true, none)
      → (permissions : Permissions) × (fetch_permissions search_now template id_token action
            resources
          ≡ ok permissions)
        × (compile_checker permissions action (resources_kind resources) resources ≡ true)
  unfolding has_access
  granted_permissions h =
      elim (Result-cases (fetch_permissions search_now template id_token action resources)) [
        | inr (e, f) ↦ absurd (ground arith)
        | inl (permissions, f) ↦ (permissions, f, ground arith)
      ]

  -- With an honest cache, a codec that gives back what it encoded, up to a relation, a JSON encoder
  -- that writes objects of valid UTF-8 strings injectively, and id tokens with valid UTF-8 subjects:
  -- from an empty cache and after any searches for queries with valid UTF-8 strings, `HasAccess` over
  -- the search client, where the query that it makes has such strings too, answers yes only if the
  -- server answers the prepared query, up to the relation, with the permissions of one id, which have
  -- scopes for the action that grant access to the resources. With an id token the prepared query is
  -- for the subject of the verified token.
  pub has_access-IsEntitled :
      IsUtf8Query valid_utf8
        (record (build_query template action resources) { id_token = id_token })
      → has_access search_now template id_token action resources ≡ (true, none)
      → IsEntitled
  unfolding fetch_permissions
  has_access-IsEntitled utf8 h =
      let query = record (build_query template action resources) { id_token = id_token } in
      let (permissions, fetched, accepted) = granted_permissions h in
      let (scopes, found, grants) =
        (compile_checker_iff permissions action (resources_kind resources) resources).0 accepted in
      let (data_of, searched, only) = first_succeeds (search_now query) only_permissions fetched in
      let (perms, answer, whole) =
        first_succeeds (search c env verifier (search_all c env verifier s queries) query).0 _
          searched in
      let (id, entry) =
        only_entry perms permissions action scopes (ap only_permissions (ok_injective whole) ∙ only)
          found in
      let (prepared, is_for, valid, answered) =
        (search_all-IsSearched c env valid_utf8 Same verifier honest json gives codec s empty
            queries all query utf8).answer
          perms answer in
      record {
        prepared = prepared;
        is_for = is_for;
        valid = valid;
        id = id;
        permissions = permissions;
        answered = subst (AnswersQuery env Same prepared) entry answered;
        scopes = scopes;
        found = found;
        grants = grants;
      }
