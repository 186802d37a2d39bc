-- ===== src/DiffCache/Tests.antt =====
-- Patches of a pod in pkg/diff/cache.
use kelemetry.Base.{ℕ, ◌≡◌, refl, true, false, [], ◌∷◌, none, some, String, string_eq}
use kelemetry.Base.Map.{lookup, insert, has, IsMap}
use kelemetry.Aggregator.{Key, key_string}
use kelemetry.TtlOnce.{new_ttl_once, get}
use kelemetry.TtlOnce.Entries.{Inv, new_ttl_once-Inv}
use kelemetry.DiffCache.{
  Patch, Clusters, choose_resource_version, fetched, LocalCache, key_rv, local_store, local_list,
  cache_wrapper_key,
}
use kelemetry.DiffCache.Wrapper.{
  CacheWrapper, local_cache, wrapper_store, wrapper_fetch, wrapper_fetch_earlier_patch,
}

abbrev pod : Key
pod = record { cluster = "c"; group = ""; resource = "pods"; namespace = "default"; name = "web-1" }

abbrev patch : Patch ℕ
patch = record {
  informer_time = 5;
  old_resource_version = "1";
  new_resource_version = "2";
  redacted = false;
  diff_list = 7 ∷ [];
}

abbrev by_new_versions : Clusters
by_new_versions cluster = false

abbrev by_old_versions : Clusters
by_old_versions cluster = true

abbrev empty_cache : LocalCache ℕ ℕ
empty_cache = record { histories = []; snapshots = new_ttl_once 60 }

stored_version :
    key_rv by_new_versions pod patch.old_resource_version (some patch.new_resource_version)
    ≡ some "2"
unfolding key_rv choose_resource_version
stored_version = refl

abbrev second_version : String
second_version = "2"

lists_versions : local_list pod 10 (local_store by_new_versions 5 pod patch empty_cache) ≡ "2" ∷ []
unfolding local_list lookup local_store insert key_string
lists_versions = refl

abbrev two_histories : LocalCache ℕ ℕ
two_histories = record {
  histories =
      ("a", record { last_modify = 0; patches = [] })
      ∷ ("b", record { last_modify = 9; patches = [] })
      ∷ [];
  snapshots = new_ttl_once 60;
}

two_histories-IsMap : IsMap two_histories.histories
unfolding has
two_histories-IsMap = (refl, (refl, tt))

abbrev new_wrapper : CacheWrapper (LocalCache ℕ ℕ) ℕ ℕ
new_wrapper = record {
  delegate = empty_cache;
  patch_cache = new_ttl_once 60;
  snapshot_cache = new_ttl_once 60;
}

new_wrapper-Inv : Inv new_wrapper.patch_cache
new_wrapper-Inv = new_ttl_once-Inv 60

nothing_cached :
    get new_wrapper.patch_cache (cache_wrapper_key pod patch.new_resource_version) ≡ none
unfolding get lookup new_ttl_once
nothing_cached = refl

wrapper_fetch_earlier_patch_example :
    (w' : CacheWrapper (LocalCache ℕ ℕ) ℕ ℕ) × (wrapper_store
        (local_cache by_old_versions)
        by_old_versions
        5
        pod
        patch
        new_wrapper
      ≡ some w')
    × (wrapper_fetch
          (local_cache by_old_versions)
          by_old_versions
          6
          pod
          patch.new_resource_version
          (some "3")
          w'
        ≡ some (fetched (some patch), w'))
wrapper_fetch_earlier_patch_example =
    wrapper_fetch_earlier_patch (local_cache by_old_versions) by_old_versions 5 6 pod patch
      (some "3") new_wrapper new_wrapper-Inv nothing_cached refl
