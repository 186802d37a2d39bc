-- ===== src/DiffCache/Wrapper.antt =====
-- pkg/diff/cache/memory_wrapper.go: a cache in memory before another cache of patches. The other
-- cache is an interface.
use kelemetry.Base.{ℕ, ◌≡◌, refl, ◌∙◌, true, false, List, Option, none, some, String, string_eq}
use kelemetry.Aggregator.{Key}
use kelemetry.TtlOnce.{TtlOnce, add, get}
use kelemetry.TtlOnce.Entries.{Inv, get-add}
use kelemetry.DiffCache.{
  Patch, Clusters, choose_resource_version, Fetched, no_new_rv, fetched, LocalCache, key_rv,
  local_store, local_fetch, store_snapshot, fetch_snapshot, local_list, cache_wrapper_key,
}

-- The interface `Cache`, with the state `C` of an implementation. The numbers are times and limits.
pub record Cache {ℓ κ μ} (C : Type ℓ) (D : Type κ) (S : Type μ) : Type (ℓ ⊔ κ ⊔ μ) where
  pub store_patch : ℕ → Key → Patch D → C → C
  pub fetch_patch : Key → String → Option String → C → Fetched D
  pub put_snapshot : ℕ → Key → String → S → C → Option C
  pub get_snapshot : Key → String → C → Option S
  pub list_versions : Key → ℕ → C → List String

-- The local cache is one.
abbrev pub local_cache {κ μ} : {D : Type κ} {S : Type μ} → Clusters → Cache (LocalCache D S) D S
local_cache clusters = record {
  store_patch = local_store clusters;
  fetch_patch = local_fetch clusters;
  put_snapshot = store_snapshot;
  get_snapshot = fetch_snapshot;
  list_versions = local_list;
}

pub record CacheWrapper {ℓ κ μ} (C : Type ℓ) (D : Type κ) (S : Type μ) : Type (ℓ ⊔ κ ⊔ μ) where
  pub delegate : C
  pub patch_cache : TtlOnce (Patch D)
  pub snapshot_cache : TtlOnce S

-- `none` is a panic, here of the cache in memory.
module _ {ℓ κ μ} {C : Type ℓ} {D : Type κ} {S : Type μ} (cache : Cache C D S)
    (clusters : Clusters) where
  unfoldable pub wrapper_store :
      ℕ → Key → Patch D → CacheWrapper C D S → Option (CacheWrapper C D S)
  wrapper_store now object patch w =
      elim (add w.patch_cache (cache_wrapper_key object patch.new_resource_version) patch now) [
        | none ↦ none
        | some patch_cache ↦ some (record w {
          delegate = cache.store_patch now object patch w.delegate;
          patch_cache = patch_cache;
        })
      ]

  -- What the delegate answered is kept, if it is a patch.
  unfoldable pub remember :
      ℕ → String → Fetched D → CacheWrapper C D S → Option (Fetched D × CacheWrapper C D S)
  remember now key no_new_rv w = some (no_new_rv, w)
  remember now key (fetched none) w = some (fetched none, w)
  remember now key (fetched (some patch)) w = elim (add w.patch_cache key patch now) [
    | none ↦ none
    | some patch_cache ↦ some (fetched (some patch), record w { patch_cache = patch_cache })
  ]

  unfoldable pub wrapper_fetch :
      ℕ
      → Key
      → String
      → Option String
      → CacheWrapper C D S
      → Option (Fetched D × CacheWrapper C D S)
  unfolding key_rv remember
  wrapper_fetch now object old_rv new_rv w = elim (key_rv clusters object old_rv new_rv) [
    | none ↦ some (no_new_rv, w)
    | some rv ↦ elim (get w.patch_cache (cache_wrapper_key object rv)) [
      | some patch ↦ some (fetched (some patch), w)
      | none ↦
          remember now (cache_wrapper_key object rv)
            (cache.fetch_patch object old_rv new_rv w.delegate) w
    ]
  ]

  unfoldable pub wrapper_store_snapshot :
      ℕ → Key → String → S → CacheWrapper C D S → Option (CacheWrapper C D S)
  wrapper_store_snapshot now object snapshot_name snapshot w =
      elim (cache.put_snapshot now object snapshot_name snapshot w.delegate) [
        | none ↦ none
        | some delegate ↦
            elim (add w.snapshot_cache (cache_wrapper_key object snapshot_name) snapshot now) [
              | none ↦ none
              | some snapshots ↦ some (record w { delegate = delegate; snapshot_cache = snapshots })
            ]
      ]

  -- The cache that is read is that of patches, whose values are no snapshots: a hit panics.
  unfoldable pub wrapper_fetch_snapshot : Key → String → CacheWrapper C D S → Option (Option S)
  wrapper_fetch_snapshot object snapshot_name w =
      elim (get w.patch_cache (cache_wrapper_key object snapshot_name)) [
        | some patch ↦ none
        | none ↦ some (cache.get_snapshot object snapshot_name w.delegate)
      ]

  unfoldable pub wrapper_list : Key → ℕ → CacheWrapper C D S → List String
  wrapper_list object limit w = cache.list_versions object limit w.delegate

module _ {ℓ κ μ} {C : Type ℓ} {D : Type κ} {S : Type μ} (cache : Cache C D S)
    (clusters : Clusters) where
  -- A patch that was stored is found by whoever looks under its new version.
  found_under_new_version :
      (now : ℕ) (object : Key) (patch : Patch D) (w : CacheWrapper C D S)
      → Inv w.patch_cache
      → get w.patch_cache (cache_wrapper_key object patch.new_resource_version) ≡ none
      → (w' : CacheWrapper C D S) × (wrapper_store cache clusters now object patch w ≡ some w')
        × (get w'.patch_cache (cache_wrapper_key object patch.new_resource_version) ≡ some patch)
  unfolding wrapper_store
  found_under_new_version now object patch w inv fresh =
      let key = cache_wrapper_key object patch.new_resource_version in
      let added = get-add w.patch_cache key patch now inv in
      (
        record w {
          delegate = cache.store_patch now object patch w.delegate;
          patch_cache = added.0;
        },
        rw (added.1, wrapper_store) refl,
        added.3 key ∙ rw (fresh, (string_eq.beq_iff key key).1 refl) refl,
      )

  hit :
      (later : ℕ) (object : Key) (old_rv rv : String) (new_rv : Option String) (patch : Patch D)
      (w : CacheWrapper C D S)
      → key_rv clusters object old_rv new_rv ≡ some rv
      → get w.patch_cache (cache_wrapper_key object rv) ≡ some patch
      → wrapper_fetch cache clusters later object old_rv new_rv w ≡ some (fetched (some patch), w)
  unfolding wrapper_fetch
  hit later object old_rv rv new_rv patch w chosen found =
      rw (chosen, wrapper_fetch) (rw (found, wrapper_fetch) refl)

  -- In a cluster that goes by new versions, a patch that is stored under a version that the cache in
  -- memory does not have is what a later fetch for this version gives, with no call of the other
  -- cache.
  pub wrapper_fetch-wrapper_store :
      (now later : ℕ) (object : Key) (patch : Patch D) (old_rv : String) (w : CacheWrapper C D S)
      → Inv w.patch_cache
      → get w.patch_cache (cache_wrapper_key object patch.new_resource_version) ≡ none
      → clusters object.cluster ≡ false
      → (w' : CacheWrapper C D S) × (wrapper_store cache clusters now object patch w ≡ some w')
        × (wrapper_fetch cache clusters later object old_rv (some patch.new_resource_version) w'
            ≡ some (fetched (some patch), w'))
  unfolding key_rv choose_resource_version
  wrapper_fetch-wrapper_store now later object patch old_rv w inv fresh by_new =
      let s = found_under_new_version now object patch w inv fresh in
      (
        s.0,
        s.1,
        hit later object old_rv patch.new_resource_version (some patch.new_resource_version) patch
            s.0 (rw by_new refl) s.2,
      )

  -- In a cluster that goes by old versions, the same patch is what a later fetch for the change from
  -- its new version to any other one gives: the patch before the one that was asked for.
  pub wrapper_fetch_earlier_patch :
      (now later : ℕ) (object : Key) (patch : Patch D) (newer : Option String)
      (w : CacheWrapper C D S)
      → Inv w.patch_cache
      → get w.patch_cache (cache_wrapper_key object patch.new_resource_version) ≡ none
      → clusters object.cluster ≡ true
      → (w' : CacheWrapper C D S) × (wrapper_store cache clusters now object patch w ≡ some w')
        × (wrapper_fetch cache clusters later object patch.new_resource_version newer w'
            ≡ some (fetched (some patch), w'))
  unfolding key_rv choose_resource_version
  wrapper_fetch_earlier_patch now later object patch newer w inv fresh by_old =
      let s = found_under_new_version now object patch w inv fresh in
      (
        s.0,
        s.1,
        hit later object patch.new_resource_version patch.new_resource_version newer patch s.0
            (rw by_old refl) s.2,
      )
