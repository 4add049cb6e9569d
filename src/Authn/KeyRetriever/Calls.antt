-- ===== src/Authn/KeyRetriever/Calls.antt =====
-- authn/jwks.go: concurrent calls of `Get`, interleaved in any order. Between two accesses to the
-- cache or to the server any other call may go on. What is used of singleflight is what its
-- documentation says of `Do`: one execution of the function is under way at a time, and a call that
-- comes in meanwhile waits for it and receives its result.
pub mod Asked
pub mod Changes
pub mod Invariant
pub mod Safety
pub mod Progress
pub mod Termination
use authlib.Prelude.{ℕ, ◌<◌, Bool, true, false, ◌≡◌, Option, none, some, List, [], ◌∷◌}
use authlib.Prelude.Families.{update}
use authlib.Errors.{Error, Result, ok, err, authn, invalid_signing_key}
use authlib.Cache.{Cache}
use authlib.Text.Bytes.{Str}
use authlib.Authn.KeyRetriever.{
  KeyCodec, KeyServer, fetch_jwks, found_key, get_cached_item, set_cached_item,
  set_empty_cache_item,
}

-- Where a call stands, with the id that it asks for.
pub data Caller (Jwk : Type 0) : Type 0 where
  start : Str → Caller Jwk  -- before the first look into the cache
  missed : Str → Caller Jwk  -- before `Do`
  fetching : Str → Caller Jwk  -- in the function, before `fetchJWKS`
  storing : Str → List Jwk → Caller Jwk  -- in the loop, with the keys that are left
  waiting : Str → Caller Jwk  -- in `Do`, for the call that runs the function
  returned : Str → Option Error → Caller Jwk  -- behind `Do`
  unknown : Str → Caller Jwk  -- before `setEmptyCacheItem`
  done : Str → Result Jwk → Caller Jwk

-- A call that runs the function.
abbrev pub leads : {Jwk : Type 0} → Caller Jwk → Bool
leads (fetching _) = true
leads (storing _ _) = true
leads _ = false

-- The id that a call asks for.
abbrev pub asked : {Jwk : Type 0} → Caller Jwk → Str
asked (start id) = id
asked (missed id) = id
asked (fetching id) = id
asked (storing id _) = id
asked (waiting id) = id
asked (returned id _) = id
asked (unknown id) = id
asked (done id _) = id

abbrev pub is_done : {Jwk : Type 0} → Caller Jwk → Bool
is_done (done _ _) = true
is_done _ = false

-- The result of the function reaches a call that waits.
abbrev pub wake : {Jwk : Type 0} → Option Error → Caller Jwk → Caller Jwk
wake e (waiting id) = returned id e
wake e call = call

module _ (c : Cache) (codec : KeyCodec) where
  -- The cache, whether a function is under way, and the calls; an index from `n` on names no call.
  pub record System : Type 0 where
    pub mem : c.State
    pub busy : Bool
    pub call : ℕ → Caller codec.Jwk

  -- One step of one call. The servers that a call may meet are those with a property.
  pub data Step (IsServer : KeyServer codec.Jwk → Type 0) (n : ℕ) (s : System)
      : System → Type 0 where
    look_hit :
        (i : ℕ) {id : Str} {o : Option codec.Jwk}
        → i < n
        → s.call i ≡ start id
        → get_cached_item c codec s.mem id ≡ some o
        → Step IsServer n s (record s { call = update s.call i (done id (found_key o)) })
    look_miss :
        (i : ℕ) {id : Str}
        → i < n
        → s.call i ≡ start id
        → get_cached_item c codec s.mem id ≡ none
        → Step IsServer n s (record s { call = update s.call i (missed id) })
    lead :
        (i : ℕ) {id : Str}
        → i < n
        → s.call i ≡ missed id
        → s.busy ≡ false
        → Step IsServer n s (record s { busy = true; call = update s.call i (fetching id) })
    join :
        (i : ℕ) {id : Str}
        → i < n
        → s.call i ≡ missed id
        → s.busy ≡ true
        → Step IsServer n s (record s { call = update s.call i (waiting id) })
    fetch_err :
        (i : ℕ) {id : Str} {e : Error} (server : KeyServer codec.Jwk)
        → i < n
        → s.call i ≡ fetching id
        → IsServer server
        → fetch_jwks server ≡ err e
        → Step IsServer n s (record s {
          busy = false;
          call = λ j. wake (some e) (update s.call i (returned id (some e)) j);
        })
    fetch_ok :
        (i : ℕ) {id : Str} {jwks : List codec.Jwk} (server : KeyServer codec.Jwk)
        → i < n
        → s.call i ≡ fetching id
        → IsServer server
        → fetch_jwks server ≡ ok jwks
        → Step IsServer n s (record s { call = update s.call i (storing id jwks) })
    store :
        (i : ℕ) {id : Str} {jwk : codec.Jwk} {jwks : List codec.Jwk}
        → i < n
        → s.call i ≡ storing id (jwk ∷ jwks)
        → Step IsServer n s (record s {
          mem = set_cached_item c codec s.mem jwk;
          call = update s.call i (storing id jwks);
        })
    finish :
        (i : ℕ) {id : Str}
        → i < n
        → s.call i ≡ storing id []
        → Step IsServer n s (record s {
          busy = false;
          call = λ j. wake none (update s.call i (returned id none) j);
        })
    give_up :
        (i : ℕ) {id : Str} {e : Error}
        → i < n
        → s.call i ≡ returned id (some e)
        → Step IsServer n s (record s { call = update s.call i (done id (err e)) })
    again_hit :
        (i : ℕ) {id : Str} {o : Option codec.Jwk}
        → i < n
        → s.call i ≡ returned id none
        → get_cached_item c codec s.mem id ≡ some o
        → Step IsServer n s (record s { call = update s.call i (done id (found_key o)) })
    again_miss :
        (i : ℕ) {id : Str}
        → i < n
        → s.call i ≡ returned id none
        → get_cached_item c codec s.mem id ≡ none
        → Step IsServer n s (record s { call = update s.call i (unknown id) })
    forget :
        (i : ℕ) {id : Str}
        → i < n
        → s.call i ≡ unknown id
        → Step IsServer n s (record s {
          mem = set_empty_cache_item c codec s.mem id;
          call = update s.call i (done id (err (authn invalid_signing_key)));
        })

  -- The calls begin, each with the id that it asks for.
  abbrev pub begin : c.State → (ℕ → Str) → System
  begin mem ids = record { mem = mem; busy = false; call = λ i. start (ids i) }

  pub data Reach (IsServer : KeyServer codec.Jwk → Type 0) (n : ℕ) (s : System)
      : System → Type 0 where
    here : Reach IsServer n s s
    next : {t u : System} → Reach IsServer n s t → Step IsServer n t u → Reach IsServer n s u
