-- ===== src/Authz/Search/Examples.antt =====
-- The search client, by example.
mod Objects
use authlib.Authz.Search.Examples.Objects.{write_string, write_object, write_object_injective}
use authlib.GoMap.{get}
use authlib.Authz.Checker.{compile_checker, compile_scopes}
use authlib.Authz.Enforcement.{
  has_access, fetch_permissions, build_query, action_query, only_permissions, resources_kind,
  collect_kinds,
}
use authlib.Authz.Enforcement.Searched.{searching, IsEntitled, has_access-IsEntitled}
use Prim.Native.Nat.{suc}
use authlib.Prelude.{arith, Bool, List, ◌≡◌, ◌≢◌, refl, sym, ap, ◌∙◌, true, none, [], ◌∷◌}
use authlib.Prelude.Int.{pos, negsuc}
use authlib.Errors.{Result, ok, err, plain, is_not_found, ok_injective}
use authlib.Cache.{Bytes}
use authlib.Cache.Local.{item_bytes}
use authlib.Cache.Sample.{sample_cache, empty_cache, sample_cache-IsHonest}
use authlib.Text.Bytes.{Str, codes, str_eq, has_prefix, cut_prefix}
use authlib.Authn.Authenticator.{Verifier}
use authlib.Authz.Enforcement.{SearchQuery, PermissionsById, empty_query}
use authlib.Authz.Search.{
  SearchEnvironment, process_id_token, process_resource, with_subject, search_prepared,
  validate_query, search_valid, ask_server, cache_value, kept_value, request_permissions,
  read_search_response, read_item, search, search_request, search_cache_key, json_fields,
  omit_empty,
}
use authlib.Authz.Search.Trust.{IsItemCodec}
use authlib.Authz.Search.Key.{IsJson}
use authlib.Authz.Search.Sequences.{
  IsUtf8Query, GivesUtf8, IsSearched, search_all, search_all-IsSearched,
}

-- The user 1 has one action, without a scope.
abbrev user_permissions : PermissionsById
user_permissions = (pos 1, (codes "teams:read", []) ∷ []) ∷ []

-- An encoding of such permissions.
encode_action : PermissionsById → Result Bytes
encode_action ((pos n, (action, []) ∷ []) ∷ []) = ok (n ∷ action)
encode_action _ = err plain

decode_action : Bytes → Result PermissionsById
decode_action [] = err plain
decode_action (n ∷ action) = ok ((pos n, (action, []) ∷ []) ∷ [])

abbrev any_string : Str → Bool
any_string s = true

abbrev one_user : SearchEnvironment
one_user = record {
  api_url = codes "http://localhost/";
  token = codes "t";
  marshal = write_object;
  encode_values = write_object;
  new_request = λ url body headers. ok url;
  send = λ req. ok (record { status_code = 200; body = req });
  decode = λ body. ok user_permissions;
  encode_item = encode_action;
  decode_item = decode_action;
}

decode-encode_action :
    (perms perms' : PermissionsById) (b : Bytes)
    → encode_action perms ≡ ok b
    → decode_action b ≡ ok perms'
    → perms' ≡ perms
unfolding encode_action decode_action
decode-encode_action ((pos n, (action, []) ∷ []) ∷ []) perms' b e d =
    sym (ok_injective (ap decode_action (ok_injective e) ∙ d))
decode-encode_action [] perms' b e d = cc e
decode-encode_action ((negsuc n, m) ∷ l) perms' b e d = cc e
decode-encode_action ((pos n, []) ∷ l) perms' b e d = cc e
decode-encode_action ((pos n, (action, x ∷ xs) ∷ m) ∷ l) perms' b e d = cc e
decode-encode_action ((pos n, (action, []) ∷ x ∷ m) ∷ l) perms' b e d = cc e
decode-encode_action ((pos n, (action, []) ∷ []) ∷ x ∷ l) perms' b e d = cc e

one_user-IsItemCodec : IsItemCodec one_user (λ p q. p ≡ q)
one_user-IsItemCodec = record { same_refl = λ p. refl; decode-encode = decode-encode_action }

-- Each id token is the user's.
abbrev user_token : Verifier (Unit {0})
user_token token = ok (record {
  jwt = record {
    issuer = [];
    subject = codes "user:1";
    audience = [];
    expiry = none;
    not_before = none;
    issued_at = none;
    id = [];
  };
  rest = tt;
  token = token;
})

one_user-IsJson : IsJson one_user any_string
one_user-IsJson = record {
  ascii = λ s a. refl;
  injective = λ fields others f o e. write_object_injective fields others e;
}

user_token-GivesUtf8 : GivesUtf8 any_string user_token
user_token-GivesUtf8 token claims q = refl

abbrev query : SearchQuery
query = record empty_query { id_token = codes "token"; action = codes "teams:read" }

query-IsUtf8Query : IsUtf8Query any_string query
query-IsUtf8Query = record {
  action_prefix = refl;
  action = refl;
  scope = refl;
  namespaced_id = refl;
}

searched :
    (search sample_cache one_user user_token
      (search sample_cache one_user user_token empty_cache query).1
      query).0
    ≡ ok user_permissions
unfolding search process_id_token process_resource with_subject search_prepared validate_query
    search_valid ask_server cache_value kept_value request_permissions search_request
    read_search_response read_item search_cache_key json_fields omit_empty write_object write_string
    encode_action decode_action item_bytes is_not_found str_eq has_prefix cut_prefix
searched = refl

nothing_cached : (k : Str) (b : Bytes) → sample_cache.get empty_cache k ≢ ok b
unfolding item_bytes
nothing_cached k b h = cc h

search_all-IsSearched_example :
    IsSearched sample_cache one_user any_string
      (λ p q. p ≡ q)
      user_token
      query
      (search sample_cache one_user user_token
        (search_all sample_cache one_user user_token empty_cache (query ∷ []))
        query)
search_all-IsSearched_example =
    search_all-IsSearched sample_cache one_user any_string (λ p q. p ≡ q) user_token
      sample_cache-IsHonest one_user-IsJson user_token-GivesUtf8 one_user-IsItemCodec empty_cache
      nothing_cached (query ∷ []) (query-IsUtf8Query, tt) query query-IsUtf8Query

entitled :
    has_access
      (searching sample_cache one_user user_token
        (search_all sample_cache one_user user_token empty_cache (query ∷ [])))
      none
      (codes "token")
      (codes "teams:read")
      []
    ≡ (true, none)
unfolding has_access fetch_permissions build_query action_query only_permissions resources_kind
    collect_kinds compile_checker compile_scopes get search_all search process_id_token
    process_resource with_subject search_prepared validate_query search_valid ask_server cache_value
    kept_value request_permissions search_request read_search_response read_item search_cache_key
    json_fields omit_empty write_object write_string encode_action decode_action item_bytes
    is_not_found str_eq has_prefix cut_prefix
entitled = refl

asked-IsUtf8Query :
    IsUtf8Query any_string
      (record (build_query none (codes "teams:read") []) { id_token = codes "token" })
asked-IsUtf8Query = record {
  action_prefix = refl;
  action = refl;
  scope = refl;
  namespaced_id = refl;
}

has_access-IsEntitled_example :
    IsEntitled sample_cache one_user any_string
      (λ p q. p ≡ q)
      user_token
      sample_cache-IsHonest
      one_user-IsJson
      user_token-GivesUtf8
      one_user-IsItemCodec
      empty_cache
      nothing_cached
      (query ∷ [])
      (query-IsUtf8Query, tt)
      none
      (codes "token")
      (codes "teams:read")
      []
has_access-IsEntitled_example =
    has_access-IsEntitled sample_cache one_user any_string (λ p q. p ≡ q) user_token
      sample_cache-IsHonest one_user-IsJson user_token-GivesUtf8 one_user-IsItemCodec empty_cache
      nothing_cached (query ∷ []) (query-IsUtf8Query, tt) none (codes "token") (codes "teams:read")
      [] asked-IsUtf8Query entitled
