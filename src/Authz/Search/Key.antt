-- ===== src/Authz/Search/Key.antt =====
-- The key of a query in the cache of the search client: `searchCacheKey`, and the tags of
-- `searchQuery`.
use authlib.Prelude.{
  Bool, true, ◌&&◌, ◌≡◌, refl, sym, ap, ◌∙◌, List, [], ◌∷◌, ◌++◌, ltb, is_nil, if◌then◌else◌,
}
use authlib.Text.Bytes.{Str, codes}
use authlib.Authz.Enforcement.{SearchQuery}
use authlib.Authz.Search.{
  SearchEnvironment, omit_empty, json_fields, url_fields, search_cache_key, search_request,
}

unfoldable pub is_ascii : Str → Bool
is_ascii [] = true
is_ascii (b ∷ s) = ltb b 128 && is_ascii s

module _ (valid_utf8 : Str → Bool) where
  -- The names and the values of the fields are valid UTF-8.
  unfoldable pub are_valid : List (Str × Str) → Bool
  are_valid [] = true
  are_valid ((name, value) ∷ fields) = valid_utf8 name && valid_utf8 value && are_valid fields

  -- The strings of a query that are sent are valid UTF-8.
  pub record IsUtf8 (query : SearchQuery) : Type 0 where
    pub action_prefix : valid_utf8 query.action_prefix ≡ true
    pub action : valid_utf8 query.action ≡ true
    pub scope : valid_utf8 query.scope ≡ true
    pub namespaced_id : valid_utf8 query.namespaced_id ≡ true

-- encoding/json writes objects with different fields differently, where their strings are valid UTF-8,
-- as ASCII strings are. It replaces the other bytes by U+FFFD.
pub record IsJson (env : SearchEnvironment) (valid_utf8 : Str → Bool) : Type 0 where
  pub ascii : (s : Str) → is_ascii s ≡ true → valid_utf8 s ≡ true
  pub injective :
      (fields others : List (Str × Str))
      → are_valid valid_utf8 fields ≡ true
      → are_valid valid_utf8 others ≡ true
      → env.marshal fields ≡ env.marshal others
      → fields ≡ others

-- The fields that are not empty.
unfoldable drop_empty : List (Str × Str) → List (Str × Str)
drop_empty [] = []
drop_empty ((name, value) ∷ fields) =
    let rest = drop_empty fields in if is_nil value then rest else (name, value) ∷ rest

drop_empty-omit_empty :
    (name value : Str) (fields : List (Str × Str))
    → drop_empty (omit_empty name value ++ fields) ≡ omit_empty name value ++ drop_empty fields
unfolding drop_empty omit_empty
drop_empty-omit_empty name [] fields = refl
drop_empty-omit_empty name (b ∷ value) fields = refl

drop_empty_last : (name value : Str) → drop_empty ((name, value) ∷ []) ≡ omit_empty name value
unfolding drop_empty omit_empty
drop_empty_last name [] = refl
drop_empty_last name (b ∷ value) = refl

-- The tags for URLs name the same fields as those for JSON.
url_fields-drop_empty : (query : SearchQuery) → drop_empty (json_fields query) ≡ url_fields query
unfolding json_fields url_fields
url_fields-drop_empty query =
    rw (drop_empty-omit_empty, drop_empty-omit_empty, drop_empty-omit_empty, drop_empty_last) refl

module _ (env : SearchEnvironment) (valid_utf8 : Str → Bool) (json : IsJson env valid_utf8) where
  are_valid-omit_empty :
      (name value : Str) (fields : List (Str × Str))
      → is_ascii name ≡ true
      → valid_utf8 value ≡ true
      → are_valid valid_utf8 fields ≡ true
      → are_valid valid_utf8 (omit_empty name value ++ fields) ≡ true
  unfolding are_valid omit_empty
  are_valid-omit_empty name [] fields n v f = f
  are_valid-omit_empty name (b ∷ value) fields n v f = rw (json.ascii name n, v) f

  are_valid-json_fields :
      (query : SearchQuery)
      → IsUtf8 valid_utf8 query
      → are_valid valid_utf8 (json_fields query) ≡ true
  unfolding json_fields is_ascii are_valid
  are_valid-json_fields query utf8 =
      are_valid-omit_empty _ query.action_prefix _ refl utf8.action_prefix (
        are_valid-omit_empty _ query.action _ refl utf8.action (
          are_valid-omit_empty _ query.scope _ refl utf8.scope
            (rw (json.ascii (codes "namespacedId") refl, utf8.namespaced_id) refl)))

  same_url_fields :
      (q r : SearchQuery)
      → IsUtf8 valid_utf8 q
      → IsUtf8 valid_utf8 r
      → search_cache_key env q ≡ search_cache_key env r
      → url_fields q ≡ url_fields r
  unfolding search_cache_key
  same_url_fields q r uq ur key =
      let fields =
        json.injective (json_fields q) (json_fields r) (are_valid-json_fields q uq)
          (are_valid-json_fields r ur) key in
      sym (url_fields-drop_empty q) ∙ ap drop_empty fields ∙ url_fields-drop_empty r

  -- The key of a query determines the request that is sent for it.
  pub same_search_request :
      (q r : SearchQuery)
      → IsUtf8 valid_utf8 q
      → IsUtf8 valid_utf8 r
      → search_cache_key env q ≡ search_cache_key env r
      → search_request env q ≡ search_request env r
  unfolding search_request
  same_search_request q r uq ur key = rw (key, search_request, same_url_fields q r uq ur key) refl
