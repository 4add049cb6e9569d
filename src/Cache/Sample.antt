-- ===== src/Cache/Sample.antt =====
-- A go-cache to try the code with: a function that holds the items, and never forgets one.
use authlib.Prelude.{refl, Option, none, some, if◌then◌else◌}
use authlib.Text.Bytes.{Str, str_eq}
use authlib.Cache.{Cache, IsHonest, IsKeeping, IsReliable, IsLasting}
use authlib.Cache.Local.{
  Item, GoCache, IsGoCache, local_cache, local_cache-IsHonest, local_cache-IsLasting,
  local_cache-IsKeeping, HoldsBytes, local_cache-IsReliable,
}

abbrev pub function_go_cache : GoCache
function_go_cache = record {
  State = Str → Option Item;
  get = λ s k. s k;
  set = λ s k i d j. if str_eq k j then some i else s j;
  delete = λ s k j. if str_eq k j then none else s j;
}

pub function_IsGoCache : IsGoCache function_go_cache
function_IsGoCache = record { get-set = λ s k j i d. refl; get-delete = λ s k j. refl }

abbrev pub sample_cache : Cache
sample_cache = local_cache function_go_cache

abbrev pub empty_cache : Cache.State sample_cache
empty_cache = λ k. none

pub sample_cache-IsHonest : IsHonest sample_cache
sample_cache-IsHonest = local_cache-IsHonest function_go_cache function_IsGoCache

pub sample_cache-IsKeeping : IsKeeping sample_cache
sample_cache-IsKeeping = local_cache-IsKeeping function_go_cache function_IsGoCache

pub sample_cache-IsLasting : IsLasting sample_cache
sample_cache-IsLasting = local_cache-IsLasting function_go_cache function_IsGoCache

pub sample_cache-IsReliable :
    IsReliable sample_cache (HoldsBytes function_go_cache function_IsGoCache)
sample_cache-IsReliable = local_cache-IsReliable function_go_cache function_IsGoCache

pub empty_cache-HoldsBytes : HoldsBytes function_go_cache function_IsGoCache empty_cache
empty_cache-HoldsBytes k = cc
