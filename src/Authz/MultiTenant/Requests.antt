-- ===== src/Authz/MultiTenant/Requests.antt =====
-- Sequences of requests: what stays in the cache, and who is answered from it.
use authlib.Prelude.{true, ◌≡◌, ◌≢◌, refl, Option, none, some, List, [], ◌∷◌, ◌++◌}
use authlib.Prelude.Int.{ℤ, pos}
use authlib.Errors.{Error, Result, ok, err, is_not_found}
use authlib.Cache.{Cache, Bytes, IsHonest, IsKeeping, default_expiration}
use authlib.Text.Bytes.{Str}
use authlib.Authz.Controller.{Controller, ReadRequest, ReadResponse, new_controller}
use authlib.Authz.Controller.Same.{SameController}
use authlib.Authz.MultiTenant.{
  Codec, controller_cache_key, stored, get_cached_controller, cache_controller, read_permissions,
  retrieve_permissions,
}
use authlib.Authz.MultiTenant.Key.{controller_cache_key_ambiguous}
use authlib.Authz.MultiTenant.Coherence.{
  Clear, subject, key, IsRoundTrip, IsCoherent, IsSound, retrieve_permissions-IsSound,
}

module _ (c : Cache) (gob : Codec) (read : ReadRequest → Result (Option ReadResponse)) where
  -- The cache behind the retrievals for the requests, in their order.
  pub retrieve_all : c.State → List Clear → c.State
  retrieve_all s [] = s
  retrieve_all s (q ∷ qs) =
      retrieve_all (retrieve_permissions c gob read s (pos q.stack_id) (subject q) q.action).1 qs

  retrieve_all-IsCoherent :
      IsHonest c
      → IsRoundTrip gob
      → (qs : List Clear) (s : c.State) → IsCoherent gob read c s
      → IsCoherent gob read c (retrieve_all s qs)
  unfolding retrieve_all
  retrieve_all-IsCoherent honest round_trip [] s coherent = coherent
  retrieve_all-IsCoherent honest round_trip (q ∷ qs) s coherent =
      retrieve_all-IsCoherent honest round_trip qs _
        (retrieve_permissions-IsSound c gob read honest round_trip s coherent q).coherent

  -- With an honest cache and a codec that gives back what it encoded: from an empty cache, after any
  -- clear requests, a clear request is answered with the permissions that the service has for it, if
  -- it is answered with permissions, and the cache then holds, for clear requests, only what the
  -- service answers to them. A request is clear if its stack id is not negative, the type of its
  -- subject holds no colon and the identifier no dash.
  pub retrieve_all-IsSound :
      IsHonest c
      → IsRoundTrip gob
      → (s : c.State) → ((k : Str) (b : Bytes) → c.get s k ≢ ok b)
      → (qs : List Clear) (q : Clear)
      → IsSound c gob read q (
          retrieve_permissions c gob read (retrieve_all s qs) (pos q.stack_id) (subject q) q.action)
  retrieve_all-IsSound honest round_trip s empty qs q =
      retrieve_permissions-IsSound c gob read honest round_trip (retrieve_all s qs)
        (retrieve_all-IsCoherent honest round_trip qs s
          (λ r b ctrl found _. absurd (empty (key r) b found)))
        q

-- Encoding gives bytes that decode to the controller, up to the order of its maps.
pub record IsLossless (gob : Codec) : Type 0 where
  pub decodes :
      (ctrl : Controller) (b : Bytes)
      → gob.encode ctrl ≡ ok b
      → (ctrl' : Controller) × (gob.decode b ≡ ok ctrl') × SameController ctrl' ctrl

-- A first retrieval that found nothing in the cache, was answered by the service, and was cached.
pub record IsCached (c : Cache) (gob : Codec) (read : ReadRequest → Result (Option ReadResponse))
    (s : c.State) (id : ℤ) (subject action : Str) (resp : Option ReadResponse) (b : Bytes)
    : Type 0 where
  pub miss :
      (e : Error) × (c.get s (controller_cache_key id subject action) ≡ err e)
      × (is_not_found e ≡ true)
  pub answer : read (record { action = action; subject = subject; stack_id = id }) ≡ ok resp
  pub encoded : gob.encode (new_controller resp) ≡ ok b
  pub kept : (c.set s (controller_cache_key id subject action) b default_expiration).0 ≡ none

pub stored-none :
    {S : Type 0} (ctrl : Controller) (r : Option Error × S)
    → r.0 ≡ none
    → stored ctrl r ≡ (ok ctrl, r.1)
unfolding stored
stored-none ctrl (none, s) e = refl
stored-none ctrl (some d, s) e = cc e

module _ (c : Cache) (gob : Codec) (read : ReadRequest → Result (Option ReadResponse)) (s : c.State)
    (id : ℤ) (subject action : Str) where
  abbrev entry : Str
  entry = controller_cache_key id subject action

  cached_hit :
      (b : Bytes) (ctrl : Controller)
      → c.get s entry ≡ ok b
      → gob.decode b ≡ ok ctrl
      → get_cached_controller c gob read s entry ≡ ok ctrl
  unfolding get_cached_controller
  cached_hit b ctrl found decoded = rw (found, decoded)

  pub cached_miss :
      (e : Error) → c.get s entry ≡ err e → get_cached_controller c gob read s entry ≡ err e
  unfolding get_cached_controller
  cached_miss e failed = rw failed

  -- An entry is returned, and nothing is stored.
  pub retrieve_hit :
      (b : Bytes) (ctrl : Controller)
      → c.get s entry ≡ ok b
      → gob.decode b ≡ ok ctrl
      → retrieve_permissions c gob read s id subject action ≡ (ok ctrl, s)
  unfolding retrieve_permissions
  retrieve_hit b ctrl found decoded = rw (cached_hit b ctrl found decoded, retrieve_permissions)

  cache_kept :
      (ctrl : Controller) (b : Bytes)
      → gob.encode ctrl ≡ ok b
      → (c.set s entry b default_expiration).0 ≡ none
      → cache_controller c gob read s entry ctrl ≡ (ok ctrl, (c.set s entry b default_expiration).1)
  unfolding cache_controller
  cache_kept ctrl b encoded kept =
      rw (encoded, cache_controller) (stored-none ctrl (c.set s entry b default_expiration) kept)

  -- The first retrieval returns the service's answer, and stores it.
  retrieve_first :
      (resp : Option ReadResponse) (b : Bytes)
      → IsCached c gob read s id subject action resp b
      → retrieve_permissions c gob read s id subject action
        ≡ (ok (new_controller resp), (c.set s entry b default_expiration).1)
  unfolding retrieve_permissions read_permissions
  retrieve_first resp b first =
      let (e, failed, not_there) = first.miss in
      rw (cached_miss e failed, retrieve_permissions, not_there, first.answer, read_permissions)
        (cache_kept (new_controller resp) b first.encoded first.kept)

module _ (c : Cache) (gob : Codec) (read read' : ReadRequest → Result (Option ReadResponse))
    (keeping : IsKeeping c) (lossless : IsLossless gob) (s : c.State) (id : ℤ) where
  -- A second retrieval with the key of the first one is answered from the cache.
  retrieve_second :
      (x a y d : Str) (resp : Option ReadResponse) (b : Bytes)
      → IsCached c gob read s id x a resp b
      → controller_cache_key id x a ≡ controller_cache_key id y d
      → let s' = (retrieve_permissions c gob read s id x a).1 in
        (ctrl : Controller) × (retrieve_permissions c gob read' s' id y d ≡ (ok ctrl, s'))
        × SameController ctrl (new_controller resp)
  retrieve_second x a y d resp b first same =
      let k = controller_cache_key id x a in
      let s' = (c.set s k b default_expiration).1 in
      let (ctrl, decoded, alike) = lossless.decodes (new_controller resp) b first.encoded in
      let there : c.get s' (controller_cache_key id y d) ≡ ok b =
        rw (← same) (keeping.get-set s k b default_expiration first.kept) in
      rw (retrieve_first c gob read s id x a resp b first)
        (ctrl, retrieve_hit c gob read' s' id y d b ctrl there decoded, alike)

-- With a keeping cache and a lossless codec: after a retrieval that the service answered and that was
-- cached, a second retrieval for the same stack, subject and action returns those permissions from
-- the cache, up to the order of maps, whatever the service would then answer, and leaves the cache as
-- it is.
pub retrieve_permissions_twice :
    (c : Cache) (gob : Codec) (read read' : ReadRequest → Result (Option ReadResponse))
    (s : c.State) (id : ℤ) (x a : Str) (resp : Option ReadResponse) (b : Bytes)
    → IsKeeping c
    → IsLossless gob
    → IsCached c gob read s id x a resp b
    → let s' = (retrieve_permissions c gob read s id x a).1 in
      (ctrl : Controller) × (retrieve_permissions c gob read' s' id x a ≡ (ok ctrl, s'))
      × SameController ctrl (new_controller resp)
retrieve_permissions_twice c gob read read' s id x a resp b keeping lossless first =
    retrieve_second c gob read read' keeping lossless s id x a x a resp b first refl

-- With a keeping cache and a lossless codec: where the first subject ends in a dash and a text `y`, its cached permissions for an action `z` are
-- also returned for the subject without this end and the action `y-z`: the service is not asked for
-- the permissions of this other subject.
pub retrieve_permissions_confused :
    (c : Cache) (gob : Codec) (read read' : ReadRequest → Result (Option ReadResponse))
    (s : c.State) (id : ℤ) (x y z : Str) (resp : Option ReadResponse) (b : Bytes)
    → IsKeeping c
    → IsLossless gob
    → IsCached c gob read s id (x ++ (b'-' ∷ y)) z resp b
    → let s' = (retrieve_permissions c gob read s id (x ++ (b'-' ∷ y)) z).1 in
      (ctrl : Controller) × (retrieve_permissions c gob read' s' id x (y ++ (b'-' ∷ z))
        ≡ (ok ctrl, s'))
      × SameController ctrl (new_controller resp)
retrieve_permissions_confused c gob read read' s id x y z resp b keeping lossless first =
    retrieve_second c gob read read' keeping lossless s id (x ++ (b'-' ∷ y)) z x (y ++ (b'-' ∷ z))
      resp b first (controller_cache_key_ambiguous id x y z)
