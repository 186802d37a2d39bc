-- ===== src/Merge/Components.antt =====
-- `findConnectedComponents` of pkg/frontend/reader/merge/merge.go: a depth-first search paints
-- the objects, one colour for each seed, and the colours are the components.
pub mod Paints
pub mod Search
pub mod Partition
pub mod Collected
pub mod Connected
use kelemetry.Base.{
  ℕ, zero, suc, Bool, true, false, List, [], ◌∷◌, ◌++◌, Option, none, some, if◌then◌else◌, length,
  get_elem?, set, replicate,
}
use kelemetry.Base.Map.{Map, lookup, insert, erase, has}
use kelemetry.Aggregator.{Key}
use kelemetry.SpanTree.{Struct}
use kelemetry.Merge.{AbLink, AbLinkMap, key_eq, peers_of}

abbrev pub KeySet : Type 0
KeySet = Map Key Struct

-- The two maps that `dfsTaint` changes: the keys that no search has met, and the colours.
pub record Tainting : Type 0 where
  pub keys : KeySet
  pub taints : Map Key ℕ

-- `taints[seed] = taintId; delete(keys, seed)`
unfoldable pub taint : ℕ → Tainting → Key → Tainting
taint taint_id t seed = record { keys = erase seed t.keys; taints = insert seed taint_id t.taints }

-- The loop over the peers of one object, where `dive` is the recursive call.
unfoldable pub visit_peers :
    (Tainting → Key → Option Tainting) → Map Key AbLink → Tainting → Option Tainting
visit_peers dive [] t = some t
visit_peers dive ((peer, link) ∷ peers) t =
    if has peer t.keys
    then elim (dive t peer) [ none ↦ none | some t' ↦ visit_peers dive peers t' ]
    else visit_peers dive peers t

-- `none` is a search that ran out of fuel, here and below.
unfoldable pub dfs_taint : ℕ → AbLinkMap → ℕ → Tainting → Key → Option Tainting
unfolding taint visit_peers peers_of
dfs_taint zero ab_links taint_id t seed = none
dfs_taint (suc fuel) ab_links taint_id t seed =
    visit_peers (dfs_taint fuel ab_links taint_id) (peers_of seed ab_links) (taint taint_id t seed)

-- The first key stands for the arbitrary one that `peekArbitraryFromSet` takes.
unfoldable pub taint_all : ℕ → AbLinkMap → ℕ → KeySet → Map Key ℕ → Option (ℕ × Map Key ℕ)
unfolding dfs_taint
taint_all fuel ab_links taint_counter [] taints = some (taint_counter, taints)
taint_all zero ab_links taint_counter (entry ∷ keys) taints = none
taint_all (suc fuel) ab_links taint_counter (entry ∷ keys) taints =
    elim (dfs_taint (suc (length keys)) ab_links taint_counter
      (record { keys = entry ∷ keys; taints = taints }) entry.0) [
        | none ↦ none
        | some t ↦ taint_all fuel ab_links (suc taint_counter) t.keys t.taints
      ]

-- `components[taint] = append(components[taint], key)`, where an index out of range panics.
unfoldable pub append_at : ℕ → Key → List (List Key) → Option (List (List Key))
append_at i key components = elim (get_elem? components i) [
  | none ↦ none
  | some component ↦ some (set components i (component ++ key ∷ []))
]

unfoldable pub collect : Map Key ℕ → List (List Key) → Option (List (List Key))
unfolding append_at
collect [] components = some components
collect ((key, i) ∷ taints) components = elim (append_at i key components) [
  | none ↦ none
  | some grown ↦ collect taints grown
]

unfoldable pub find_connected_components : KeySet → AbLinkMap → Option (List (List Key))
unfolding taint_all collect
find_connected_components object_keys ab_links =
    elim (taint_all (length object_keys) ab_links 0 object_keys []) [
      | none ↦ none
      | some painted ↦ collect painted.1 (replicate painted.0 [])
    ]
