-- ===== src/Cache/Local.antt =====
-- `LocalCache`, over an abstract go-cache.
use authlib.Prelude.{true, ◌≡◌, ◌≢◌, refl, Option, none, some, arith, if◌then◌else◌}
use authlib.Errors.{Error, is_not_found, Result, ok, err, cache, not_found, read}
use authlib.Text.Bytes.{Str, str_eq, str_eq_iff}
use authlib.Cache.{Bytes, Duration, Cache, IsHonest, IsKeeping, IsReliable, IsLasting}

-- A value of type `interface{}`: a byte slice, or something else.
pub data Item : Type 0 where
  bytes : Bytes → Item
  other : Item

-- go-cache, which is not the repository's code.
pub record GoCache : Type 1 where
  pub State : Type 0
  pub get : State → Str → Option Item
  pub set : State → Str → Item → Duration → State
  pub delete : State → Str → State

-- What its documentation says: `Set` replaces the item of its key and no other, and `Delete`
-- removes that item.
pub record IsGoCache (g : GoCache) : Type 0 where
  pub get-set :
      (s : g.State) (k j : Str) (i : Item) (d : Duration)
      → g.get (g.set s k i d) j ≡ (if str_eq k j then some i else g.get s j)
  pub get-delete :
      (s : g.State) (k j : Str) → g.get (g.delete s k) j ≡ (if str_eq k j then none else g.get s j)

-- `LocalCache.Get`, on what go-cache returns.
unfoldable pub item_bytes : Option Item → Result Bytes
item_bytes none = err (cache not_found)
item_bytes (some other) = err (cache read)
item_bytes (some (bytes b)) = ok b

-- `Config`
pub record Config : Type 0 where
  pub expiry : Duration
  pub cleanup_interval : Duration

-- `NewLocalCache`, with the constructor of go-cache.
unfoldable pub new_local_cache :
    {CacheType : Type 0} → (Duration → Duration → CacheType) → Config → CacheType
new_local_cache new_cache cfg = new_cache cfg.expiry cfg.cleanup_interval

-- `LocalCache`: `Get`, `Set` and `Delete`.
abbrev pub local_cache : GoCache → Cache
local_cache g = record {
  State = g.State;
  get = λ s k. item_bytes (g.get s k);
  set = λ s k v d. (none, g.set s k (bytes v) d);
  delete = λ s k. (none, g.delete s k);
}

module _ (g : GoCache) (law : IsGoCache g) where
  -- After `Set` the local cache returns the bytes that were set under that key, and for each other
  -- key what it returned before, an error included.
  local_cache_get-set :
      (s : g.State) (k j : Str) (v : Bytes) (d : Duration)
      → (local_cache g).get ((local_cache g).set s k v d).1 j
        ≡ (if str_eq k j then ok v else (local_cache g).get s j)
  unfolding item_bytes
  local_cache_get-set s k j v d = rw (law.get-set s k j (bytes v) d) (ground arith)

  -- After `Delete` the key is not found, and each other key is as before.
  local_cache_get-delete :
      (s : g.State) (k j : Str)
      → (local_cache g).get ((local_cache g).delete s k).1 j
        ≡ (if str_eq k j then err (cache not_found) else (local_cache g).get s j)
  unfolding item_bytes
  local_cache_get-delete s k j = rw (law.get-delete s k j) (ground arith)

  pub local_cache-IsLasting : IsLasting (local_cache g)
  local_cache-IsLasting = record {
    get-set = λ s k v d. ground (arith, local_cache_get-set s k k v d, str_eq_iff k k);
    get-set-other =
        λ s k j v d differ. ground (arith, local_cache_get-set s k j v d, str_eq_iff k j);
  }

  pub local_cache-IsHonest : IsHonest (local_cache g)
  local_cache-IsHonest = record {
    get-set = λ s k j v w d h. ground (arith, local_cache_get-set s k j v d, str_eq_iff k j);
  }

  pub local_cache-IsKeeping : IsKeeping (local_cache g)
  local_cache-IsKeeping = record {
    get-set = λ s k v d h. ground (arith, local_cache_get-set s k k v d, str_eq_iff k k);
  }

  -- All items are bytes.
  abbrev pub HoldsBytes : g.State → Type 0
  HoldsBytes s = (k : Str) → g.get s k ≢ some other

  get_err-is_not_found :
      (s : g.State) (k : Str) (e : Error)
      → HoldsBytes s
      → (local_cache g).get s k ≡ err e
      → is_not_found e ≡ true
  unfolding item_bytes is_not_found
  get_err-is_not_found s k e stored h = ground (arith, stored k)

  set-HoldsBytes :
      (s : g.State) (k : Str) (v : Bytes) (d : Duration)
      → HoldsBytes s
      → HoldsBytes ((local_cache g).set s k v d).1
  set-HoldsBytes s k v d stored j e = ground (arith, stored j, law.get-set s k j (bytes v) d)

  -- While all items are bytes, which `Set` keeps so, the local cache does not fail.
  pub local_cache-IsReliable : IsReliable (local_cache g) HoldsBytes
  local_cache-IsReliable = record {
    get_err = get_err-is_not_found;
    set_none = λ s k v d. refl;
    set_good = set-HoldsBytes;
  }
