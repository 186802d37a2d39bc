-- ===== src/DiffCache.antt =====
-- pkg/diff/cache: the patches of objects by resource version and the snapshots of objects, kept by
-- local/local.go, with the cache in memory of memory_wrapper.go before it. Each method of the local
-- cache holds its lock. Metrics and logs are left out.
pub mod Local
pub mod Wrapper
mod Tests
use Prim.Native.String.{◌++◌ as ◌<>◌}
use kelemetry.Base.{
  ℕ, ◌-◌, Bool, true, false, List, [], ◌∷◌, Option, none, some, String, if◌then◌else◌, ltb,
  string_eq,
}
use kelemetry.Base.Map.{Map, lookup, insert, erase, has}
use kelemetry.Aggregator.{Key, key_string}
use kelemetry.TtlOnce.{TtlOnce, add, get}

-- `D` is the type of the differences that a patch lists.
pub record Patch {ℓ} (D : Type ℓ) : Type ℓ where
  pub informer_time : ℕ
  pub old_resource_version : String
  pub new_resource_version : String
  pub redacted : Bool
  pub diff_list : List D

-- The configuration of clusters in pkg/k8s/config/interface.go, of which `UseOldResourceVersion` is
-- read; a cluster without configuration has false.
abbrev pub Clusters : Type 0
Clusters = String → Bool

-- `none` is the error NoNewRv.
unfoldable pub choose_resource_version : Bool → String → Option String → Option String
choose_resource_version true old_rv new_rv = some old_rv
choose_resource_version false old_rv new_rv = new_rv

-- What `Fetch` answers: an error, or a patch, nil if there is none.
pub data Fetched {ℓ} (D : Type ℓ) : Type ℓ where
  no_new_rv : Fetched D
  fetched : Option (Patch D) → Fetched D

pub record History {ℓ} (D : Type ℓ) : Type ℓ where
  pub last_modify : ℕ
  pub patches : Map String (Patch D)

-- `S` is the type of snapshots.
pub record LocalCache {ℓ κ} (D : Type ℓ) (S : Type κ) : Type (ℓ ⊔ κ) where
  pub histories : Map String (History D)
  pub snapshots : TtlOnce S

unfoldable pub patches_of {ℓ} : {D : Type ℓ} → Option (History D) → Map String (Patch D)
patches_of none = []
patches_of (some history) = history.patches

-- `Store` drops the error of the choice, and so has the empty version for it.
unfoldable pub version_or_empty : Option String → String
version_or_empty none = ""
version_or_empty (some rv) = rv

unfoldable pub key_rv : Clusters → Key → String → Option String → Option String
unfolding choose_resource_version
key_rv clusters object old_rv new_rv =
    choose_resource_version (clusters object.cluster) old_rv new_rv

-- `fmt.Sprintf("%s/%s", object.String(), subkey)`
abbrev pub cache_wrapper_key : Key → String → String
cache_wrapper_key object subkey = key_string object <> ("/" <> subkey)

module _ {ℓ} {D : Type ℓ} where
  -- `Clock.Since(v.lastModify) > expiry`
  unfoldable pub is_old : ℕ → ℕ → History D → Bool
  is_old expiry now history = ltb expiry (now - history.last_modify)

  unfoldable pub removals : ℕ → ℕ → Map String (History D) → List String
  unfolding is_old
  removals expiry now [] = []
  removals expiry now ((k, history) ∷ histories) =
      let rest = removals expiry now histories in
      if is_old expiry now history then k ∷ rest else rest

  unfoldable pub remove_all : List String → Map String (History D) → Map String (History D)
  remove_all [] histories = histories
  remove_all (k ∷ keys) histories = remove_all keys (erase k histories)

  unfoldable pub versions : Map String (Patch D) → List String
  versions [] = []
  versions ((rv, patch) ∷ patches) = rv ∷ versions patches

module _ {ℓ κ} {D : Type ℓ} {S : Type κ} where
  unfoldable pub store_at : ℕ → String → String → Patch D → LocalCache D S → LocalCache D S
  unfolding patches_of
  store_at now object_key rv patch cache = record cache {
    histories =
        insert object_key
          (record {
            last_modify = now;
            patches = insert rv patch (patches_of (lookup object_key cache.histories));
          })
          cache.histories;
  }

  unfoldable pub local_store : Clusters → ℕ → Key → Patch D → LocalCache D S → LocalCache D S
  unfolding key_rv version_or_empty store_at
  local_store clusters now object patch cache =
      let rv =
        version_or_empty
          (key_rv clusters object patch.old_resource_version (some patch.new_resource_version)) in
      store_at now (key_string object) rv patch cache

  unfoldable pub fetch_at : String → String → LocalCache D S → Option (Patch D)
  unfolding patches_of
  fetch_at object_key rv cache = lookup rv (patches_of (lookup object_key cache.histories))

  unfoldable pub local_fetch : Clusters → Key → String → Option String → LocalCache D S → Fetched D
  unfolding key_rv fetch_at
  local_fetch clusters object old_rv new_rv cache = elim (key_rv clusters object old_rv new_rv) [
    | none ↦ no_new_rv
    | some rv ↦ fetched (fetch_at (key_string object) rv cache)
  ]

  unfoldable pub do_trim : ℕ → ℕ → LocalCache D S → LocalCache D S
  unfolding removals remove_all
  do_trim expiry now cache = record cache {
    histories = remove_all (removals expiry now cache.histories) cache.histories;
  }

  -- The limit is not read.
  unfoldable pub local_list : Key → ℕ → LocalCache D S → List String
  unfolding versions patches_of
  local_list object limit cache = versions (patches_of (lookup (key_string object) cache.histories))

  -- `none` is a panic of the snapshot cache.
  unfoldable pub store_snapshot : ℕ → Key → String → S → LocalCache D S → Option (LocalCache D S)
  store_snapshot now object snapshot_name value cache =
      elim (add cache.snapshots (cache_wrapper_key object snapshot_name) value now) [
        | none ↦ none
        | some snapshots ↦ some (record cache { snapshots = snapshots })
      ]

  unfoldable pub fetch_snapshot : Key → String → LocalCache D S → Option S
  fetch_snapshot object snapshot_name cache =
      get cache.snapshots (cache_wrapper_key object snapshot_name)
