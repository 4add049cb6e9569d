-- ===== src/Cache.antt =====
-- cache/cache.go: the interface of a cache, and the local cache over go-cache.
pub mod Local
pub mod Sample
use authlib.Prelude.{◌≢◌, true, ◌≡◌, ◌⊎◌, Option, none}
use authlib.Prelude.Int.{ℤ, pos}
use authlib.Errors.{Error, Result, ok, err, is_not_found}
use authlib.Text.Bytes.{Str, str_eq}

-- A `[]byte`.
abbrev pub Bytes : Type 0
Bytes = Str

-- A `time.Duration`, in nanoseconds.
abbrev pub Duration : Type 0
Duration = ℤ

-- `Cache`; a method returns its error, if there is one, and the state that it leaves.
pub record Cache : Type 1 where
  pub State : Type 0
  pub get : State → Str → Result Bytes
  pub set : State → Str → Bytes → Duration → Option Error × State
  pub delete : State → Str → Option Error × State

-- What the clients of a cache rely on: it makes nothing up. An entry that is found after a call was
-- stored by this call under its key, or was there before.
pub record IsHonest (c : Cache) : Type 0 where
  pub get-set :
      (s : c.State) (k j : Str) (v w : Bytes) (d : Duration)
      → c.get (c.set s k v d).1 j ≡ ok w
      → ((k ≡ j) × (v ≡ w)) ⊎ (c.get s j ≡ ok w)

-- A cache that also keeps what it stores, at least until the next call.
pub record IsKeeping (c : Cache) : Type 0 where
  pub get-set :
      (s : c.State) (k : Str) (v : Bytes) (d : Duration)
      → (c.set s k v d).0 ≡ none
      → c.get (c.set s k v d).1 k ≡ ok v

-- A cache that does not fail in its good states: an entry is found or not, each is kept, and the
-- state stays good.
pub record IsReliable (c : Cache) (Good : c.State → Type 0) : Type 0 where
  pub get_err :
      (s : c.State) (k : Str) (e : Error) → Good s → c.get s k ≡ err e → is_not_found e ≡ true
  pub set_none : (s : c.State) (k : Str) (v : Bytes) (d : Duration) → (c.set s k v d).0 ≡ none
  pub set_good :
      (s : c.State) (k : Str) (v : Bytes) (d : Duration) → Good s → Good (c.set s k v d).1

-- A cache that keeps what is set, and what was there for other keys.
pub record IsLasting (c : Cache) : Type 0 where
  pub get-set :
      (s : c.State) (k : Str) (v : Bytes) (d : Duration) → c.get (c.set s k v d).1 k ≡ ok v
  pub get-set-other :
      (s : c.State) (k j : Str) (v : Bytes) (d : Duration)
      → k ≢ j
      → c.get (c.set s k v d).1 j ≡ c.get s j

-- `DefaultExpiration`, a constant of go-cache whose value 0 the comment on `Set` repeats.
abbrev pub default_expiration : Duration
default_expiration = pos 0
