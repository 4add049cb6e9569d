-- ===== src/Authn/Examples/Keys/Concurrent.antt =====
-- Two calls of the key retriever at the same time, by example.
use mathlib.Core.Path.{subst}
use mathlib.Core.WellFounded.{Acc}
use authlib.Prelude.{
  ℕ, true, ◌≡◌, refl, sym, ◌⊎◌, inl, inr, some, none, [], ◌∷◌, ◌==◌, if◌then◌else◌, arith,
}
use authlib.Errors.{ok}
use authlib.Cache.Local.{item_bytes}
use authlib.Cache.Sample.{sample_cache, empty_cache, sample_cache-IsHonest}
use authlib.Text.Bytes.{Str, codes, str_eq}
use authlib.Authn.KeyRetriever.{
  KeyServer, read_keys, fetch_jwks, found_key, get_cached_item, set_cached_item,
  set_empty_cache_item,
}
use authlib.Authn.KeyRetriever.Calls.{
  done, returned, leads, System, Step, look_miss, lead, join, fetch_ok, store, finish, again_hit,
  again_miss, forget, begin, Reach, here, next,
}
use authlib.Authn.KeyRetriever.Trust.{Publishes}
use authlib.Authn.KeyRetriever.Calls.Safety.{calls-AreGenuine}
use authlib.Authn.KeyRetriever.Calls.Termination.{calls_end}
use authlib.Authn.KeyRetriever.Calls.Progress.{Inevitable, calls_return}
use authlib.Authn.Examples.Keys.{
  plain_codec, one_key, IsPublished, plain_codec-IsKeyRoundTrip, one_key-Publishes, empty-HoldsOnly,
}

abbrev IsOne : KeyServer Str → Type 0
IsOne server = server ≡ one_key

IsOne-Publishes : (server : KeyServer Str) → IsOne server → Publishes IsPublished server
IsOne-Publishes server e = subst (Publishes IsPublished) (sym e) one_key-Publishes

-- The first call asks for a key that the server has, the second for one that it has not.
abbrev two_ids : ℕ → Str
two_ids i = if i == 0 then codes "k" else codes "x"

abbrev two_calls : System sample_cache plain_codec
two_calls = begin sample_cache plain_codec empty_cache two_ids

-- The first call runs the function while the second waits for it.
shared_run :
    (s : System sample_cache plain_codec) × Reach sample_cache plain_codec IsOne 2 two_calls s
    × (s.call 0 ≡ done (codes "k") (ok (codes "k")))
    × (s.call 1 ≡ returned (codes "x") none)
unfolding fetch_jwks read_keys get_cached_item set_cached_item found_key item_bytes str_eq
shared_run = (
  _,
  next
      (next
        (next
          (next
            (next
              (next
                (next (next here (look_miss 0 {id = codes "k"} (omega arith) refl refl))
                  (look_miss 1 {id = codes "x"} (omega arith) refl refl))
                (lead 0 {id = codes "k"} (omega arith) refl refl))
              (join 1 {id = codes "x"} (omega arith) refl refl))
            (fetch_ok 0 {id = codes "k"} {jwks = codes "k" ∷ []} one_key (omega arith) refl refl
              refl))
          (store 0 {id = codes "k"} {jwk = codes "k"} {jwks = []} (omega arith) refl))
        (finish 0 {id = codes "k"} (omega arith) refl))
      (again_hit 0 {id = codes "k"} {o = some (codes "k")} (omega arith) refl refl),
  refl,
  refl,
)

calls-AreGenuine_example :
    ((i : ℕ) (id jwk : Str)
      → shared_run.0.call i ≡ done id (ok jwk)
      → (jwk ≡ two_ids i) × IsPublished jwk)
    × ((i j : ℕ) → leads (shared_run.0.call i) ≡ true → leads (shared_run.0.call j) ≡ true → i ≡ j)
calls-AreGenuine_example =
    calls-AreGenuine sample_cache plain_codec IsPublished sample_cache-IsHonest
      plain_codec-IsKeyRoundTrip IsOne IsOne-Publishes 2 empty_cache two_ids shared_run.0
      empty-HoldsOnly shared_run.1

calls_end_example : Acc (λ u v. Step sample_cache plain_codec IsOne 2 v u) two_calls
calls_end_example = calls_end sample_cache plain_codec IsOne 2 two_calls

calls_return_example : Inevitable sample_cache plain_codec IsOne 2 two_calls
calls_return_example =
    calls_return sample_cache plain_codec IsOne 2 IsPublished sample_cache-IsHonest
      plain_codec-IsKeyRoundTrip IsOne-Publishes one_key refl empty_cache two_ids empty-HoldsOnly

-- A server that publishes another key.
abbrev other_key : KeyServer Str
other_key = record {
  request = ok [];
  send = λ req. ok (record { status_code = 200; body = [] });
  decode_set = λ body. ok (codes "x" ∷ []);
}

abbrev IsEither : KeyServer Str → Type 0
IsEither server = (server ≡ one_key) ⊎ (server ≡ other_key)

-- Two calls ask for a key that is published between their fetches. The first call, which has not got
-- it, is the last to write: the key that the second call has returned is then known as invalid.
published_key_forgotten :
    (s : System sample_cache plain_codec) × Reach sample_cache plain_codec IsEither 2
      (begin sample_cache plain_codec empty_cache (λ i. codes "k"))
      s
    × (s.call 1 ≡ done (codes "k") (ok (codes "k")))
    × (get_cached_item sample_cache plain_codec s.mem (codes "k") ≡ some none)
unfolding fetch_jwks read_keys get_cached_item set_cached_item set_empty_cache_item found_key
    item_bytes str_eq
published_key_forgotten = (
  _,
  next
      (next
        (next
          (next
            (next
              (next
                (next
                  (next
                    (next
                      (next
                        (next
                          (next (next here (look_miss 0 {id = codes "k"} (omega arith) refl refl))
                            (look_miss 1 {id = codes "k"} (omega arith) refl refl))
                          (lead 0 {id = codes "k"} (omega arith) refl refl))
                        (fetch_ok 0 {id = codes "k"} {jwks = codes "x" ∷ []} other_key (omega arith)
                          refl (inr refl) refl))
                      (store 0 {id = codes "k"} {jwk = codes "x"} {jwks = []} (omega arith) refl))
                    (finish 0 {id = codes "k"} (omega arith) refl))
                  (again_miss 0 {id = codes "k"} (omega arith) refl refl))
                (lead 1 {id = codes "k"} (omega arith) refl refl))
              (fetch_ok 1 {id = codes "k"} {jwks = codes "k" ∷ []} one_key (omega arith) refl
                (inl refl) refl))
            (store 1 {id = codes "k"} {jwk = codes "k"} {jwks = []} (omega arith) refl))
          (finish 1 {id = codes "k"} (omega arith) refl))
        (again_hit 1 {id = codes "k"} {o = some (codes "k")} (omega arith) refl refl))
      (forget 0 {id = codes "k"} (omega arith) refl),
  refl,
  refl,
)
