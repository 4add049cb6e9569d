-- ===== src/Authz/MultiTenant/Coherence.antt =====
-- The cache of permissions and the authz service.
use mathlib.Core.Path.{subst}
use authlib.Prelude.{ℕ, ◌≡◌, inl, inr, sym, ap, ◌∙◌, Option, none, some, Bool-cases}
use authlib.Prelude.Int.{pos}
use authlib.Errors.{
  Error, Result, ok, err, is_not_found, first_succeeds, Result-cases, ok_injective,
}
use authlib.Cache.{Cache, Bytes, IsHonest, default_expiration}
use authlib.Text.Bytes.{Str, Lacks}
use authlib.Claims.TypeId.{IdentityType, new_type_id}
use authlib.Authz.Controller.{Controller, ReadRequest, ReadResponse, new_controller}
use authlib.Authz.Controller.Same.{SameController, SameController-refl}
use authlib.Authz.MultiTenant.{
  Codec, controller_cache_key, stored, get_cached_controller, cache_controller, read_permissions,
  retrieve_permissions,
}
use authlib.Authz.MultiTenant.Key.{controller_cache_key_injective}

-- What the client asks about, for a subject whose type holds no colon and whose identifier holds no
-- dash.
pub record Clear : Type 0 where
  pub stack_id : ℕ
  pub typ : IdentityType
  pub identifier : Str
  pub action : Str
  pub typ_Lacks : Lacks b':' typ
  pub identifier_Lacks : Lacks b'-' identifier

abbrev pub subject : Clear → Str
subject q = new_type_id q.typ q.identifier

abbrev pub key : Clear → Str
key q = controller_cache_key (pos q.stack_id) (subject q) q.action

abbrev pub request : Clear → ReadRequest
request q = record { action = q.action; subject = subject q; stack_id = pos q.stack_id }

pub key_injective : (q r : Clear) → key q ≡ key r → request q ≡ request r
key_injective q r e =
    let (id, typ, identifier, action) =
      controller_cache_key_injective q.stack_id r.stack_id q.typ r.typ q.identifier r.identifier
        q.action r.action q.typ_Lacks r.typ_Lacks q.identifier_Lacks r.identifier_Lacks e in
    λ i. record {
      action = action i;
      subject = new_type_id (typ i) (identifier i);
      stack_id = pos (id i);
    }

-- Decoding gives back the encoded controller, up to the order of its maps.
pub record IsRoundTrip (gob : Codec) : Type 0 where
  pub decode-encode :
      (ctrl ctrl' : Controller) (b : Bytes)
      → gob.encode ctrl ≡ ok b
      → gob.decode b ≡ ok ctrl'
      → SameController ctrl' ctrl

module _ (gob : Codec) (read : ReadRequest → Result (Option ReadResponse)) where
  -- The controller is the one that the service's answer makes.
  abbrev pub Answers : ReadRequest → Controller → Type 0
  Answers req ctrl =
      (resp : Option ReadResponse) × (read req ≡ ok resp)
      × SameController ctrl (new_controller resp)

  -- What is cached for a clear request is what the service answers to it.
  abbrev pub IsCoherent : (c : Cache) → c.State → Type 0
  IsCoherent c s =
      (q : Clear) (b : Bytes) (ctrl : Controller)
      → c.get s (key q) ≡ ok b
      → gob.decode b ≡ ok ctrl
      → Answers (request q) ctrl

-- A result of `retrievePermissions`, with the state that it leaves: a controller is the service's
-- answer, and the cache is coherent.
pub record IsSound (c : Cache) (gob : Codec) (read : ReadRequest → Result (Option ReadResponse))
    (q : Clear) (p : Result Controller × c.State) : Type 0 where
  pub answers : (ctrl : Controller) → p.0 ≡ ok ctrl → Answers gob read (request q) ctrl
  pub coherent : IsCoherent gob read c p.1

module _ (c : Cache) (gob : Codec) (read : ReadRequest → Result (Option ReadResponse))
    (honest : IsHonest c) (round_trip : IsRoundTrip gob) (s : c.State)
    (coherent : IsCoherent gob read c s) where
  cached_Answers :
      (q : Clear) (ctrl : Controller)
      → get_cached_controller c gob read s (key q) ≡ ok ctrl
      → Answers gob read (request q) ctrl
  unfolding get_cached_controller
  cached_Answers q ctrl h =
      let (b, found, decoded) = first_succeeds (c.get s (key q)) gob.decode h in
      coherent q b ctrl found decoded

  -- Storing the service's answer keeps the cache coherent.
  set-IsCoherent :
      (q : Clear) (resp : Option ReadResponse) (b : Bytes)
      → read (request q) ≡ ok resp
      → gob.encode (new_controller resp) ≡ ok b
      → IsCoherent gob read c (c.set s (key q) b default_expiration).1
  set-IsCoherent q resp b answer encoded r w ctrl found decoded =
      elim (honest.get-set s (key q) (key r) b w default_expiration found) [
        | inl (same_key, same) ↦ (
          resp,
          ap read (sym (key_injective q r same_key)) ∙ answer,
          round_trip.decode-encode (new_controller resp) ctrl w (encoded ∙ ap (λ x. ok x) same)
              decoded,
        )
        | inr old ↦ coherent r w ctrl old decoded
      ]

  failed-IsSound : (q : Clear) (e : Error) → IsSound c gob read q (err e, s)
  failed-IsSound q e = record { answers = λ ctrl h. cc h; coherent = coherent }

  stored-IsSound :
      (q : Clear) (resp : Option ReadResponse) (r : Option Error × c.State)
      → read (request q) ≡ ok resp
      → IsCoherent gob read c r.1
      → IsSound c gob read q (stored (new_controller resp) r)
  unfolding stored
  stored-IsSound q resp (none, s') answer good = record {
    answers = λ ctrl h. (
      resp,
      answer,
      subst (λ x. SameController x (new_controller resp)) (ok_injective h)
          (SameController-refl (new_controller resp)),
    );
    coherent = good;
  }
  stored-IsSound q resp (some e, s') answer good = record {
    answers = λ ctrl h. cc h;
    coherent = good;
  }

  cache_controller-IsSound :
      (q : Clear) (resp : Option ReadResponse)
      → read (request q) ≡ ok resp
      → IsSound c gob read q (cache_controller c gob read s (key q) (new_controller resp))
  unfolding cache_controller
  cache_controller-IsSound q resp answer = elim (Result-cases (gob.encode (new_controller resp))) [
    | inl (b, e) ↦
        rw (e, cache_controller) (stored-IsSound q resp _ answer (set-IsCoherent q resp b answer e))
    | inr (e, p) ↦ rw (p, cache_controller) (failed-IsSound q e)
  ]

  read_permissions-IsSound :
      (q : Clear) → IsSound c gob read q (read_permissions c gob read s (key q) (request q))
  unfolding read_permissions
  read_permissions-IsSound q = elim (Result-cases (read (request q))) [
    | inl (resp, e) ↦ rw (e, read_permissions) (cache_controller-IsSound q resp e)
    | inr (e, p) ↦ rw (p, read_permissions) (failed-IsSound q _)
  ]

  -- From a coherent cache, `retrievePermissions` for a clear request returns the permissions that the
  -- service answers, if it returns any, cached or not, and leaves a coherent cache, failing or not.
  pub retrieve_permissions-IsSound :
      (q : Clear)
      → IsSound c gob read q
          (retrieve_permissions c gob read s (pos q.stack_id) (subject q) q.action)
  unfolding retrieve_permissions
  retrieve_permissions-IsSound q =
      elim (Result-cases (get_cached_controller c gob read s (key q))) [
        | inl (ctrl, e) ↦
            rw (e, retrieve_permissions)
              (record {
                answers = λ x h.
                    subst (Answers gob read (request q)) (ok_injective h) (cached_Answers q ctrl e);
                coherent = coherent;
              })
        | inr (e, p) ↦ elim (Bool-cases (is_not_found e)) [
          | inl miss ↦ rw (p, retrieve_permissions, miss) (read_permissions-IsSound q)
          | inr broken ↦ rw (p, retrieve_permissions, broken) (failed-IsSound q e)
        ]
      ]
