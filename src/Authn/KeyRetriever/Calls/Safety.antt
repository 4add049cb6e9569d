-- ===== src/Authn/KeyRetriever/Calls/Safety.antt =====
-- What concurrent calls of `Get` return.
use mathlib.Core.Path.{subst}
use authlib.Authn.KeyRetriever.Calls.Asked.{asked-Reach}
use authlib.Prelude.{ℕ, true, ◌≡◌, sym, ap, ◌∙◌}
use authlib.Errors.{ok}
use authlib.Cache.{Cache, IsHonest}
use authlib.Text.Bytes.{Str}
use authlib.Authn.KeyRetriever.{KeyCodec, KeyServer}
use authlib.Authn.KeyRetriever.Trust.{IsKeyRoundTrip, Publishes, HoldsOnly}
use authlib.Authn.KeyRetriever.Calls.Changes.{IsFine}
use authlib.Authn.KeyRetriever.Calls.Invariant.{begin-IsSafe, Reach-IsSafe}
use authlib.Authn.KeyRetriever.Calls.{done, leads, asked, System, begin, Reach}

module _ (c : Cache) (codec : KeyCodec) (P : codec.Jwk → Type 0) (honest : IsHonest c)
    (round_trip : IsKeyRoundTrip codec) (IsServer : KeyServer codec.Jwk → Type 0)
    (publishes : (server : KeyServer codec.Jwk) → IsServer server → Publishes P server)
    (n : ℕ) where
  -- With an honest cache and an encoding of keys that can be undone: calls of `Get` that run at the same
  -- time, in any order of their steps, over a cache of which every
  -- key has the property, and servers that publish only such keys: in every state that they reach, a
  -- key that a call has returned has the id that this call began with and the property, and of two
  -- different calls one at most is in the function that fetches the keys.
  pub calls-AreGenuine :
      (mem : c.State) (ids : ℕ → Str) (s : System c codec)
      → HoldsOnly c codec P mem
      → Reach c codec IsServer n (begin c codec mem ids) s
      → ((i : ℕ) (id : Str) (jwk : codec.Jwk)
          → s.call i ≡ done id (ok jwk)
          → (codec.key_id jwk ≡ ids i) × P jwk)
        × ((i j : ℕ) → leads (s.call i) ≡ true → leads (s.call j) ≡ true → i ≡ j)
  calls-AreGenuine mem ids s holds r =
      let safe =
        Reach-IsSafe c codec P honest round_trip IsServer publishes n r
          (begin-IsSafe c codec P honest round_trip IsServer publishes n mem ids holds) in
      (
        λ i id jwk e.
            let (same, good) = subst (IsFine codec.key_id P) e (safe.fine i) in
            (same ∙ ap asked (sym e) ∙ asked-Reach c codec IsServer n r i, good),
        safe.single,
      )
