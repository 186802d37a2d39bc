-- ===== src/Merge/Traces.antt =====
-- `AddTraces` and the second half of `MergeTraces` in pkg/frontend/reader/merge/merge.go.
use kelemetry.Base.{ℕ, List, [], ◌∷◌, ◌++◌, Option, none, some, String, Eq}
use kelemetry.Base.Map.{Map, lookup, insert}
use kelemetry.Aggregator.{Key}
use kelemetry.LinkTags.{object_key_from_span}
use kelemetry.SpanTree.{struct, Span, SpanTree}
use kelemetry.Merge.{AbLinkMap, key_eq}
use kelemetry.Merge.Components.{KeySet}
use kelemetry.Merge.Roots.{Content}
use kelemetry.Merge.Objects.{Object, Trace, new_object, merge, identify_links}
use kelemetry.Merge.LinkMap.{components_of, insert_all_links}
use kelemetry.Merge.Linked.{Merging, Outcome, merged, panicked, out_of_fuel, merge_linked_traces}

-- `copy_span` stands for `CopySpan`, and `depth` bounds the depth of a trace. `none` is an error or a
-- panic.
module _ {ℓ κ μ} {I : Type ℓ} {L : Type κ} {M : Type μ} ⦃e : Eq I⦄
    (copy_span : Span I (Content L) → Option (Span I (Content L))) (depth : ℕ) where
  -- The object of a trace, as it is after the trace is added.
  unfoldable pub object_with : Key → Trace I L M → Option (Object I L M) → Option (Object I L M)
  unfolding new_object merge
  object_with key trace none = new_object copy_span key trace
  object_with key trace (some obj) = merge copy_span depth obj trace

  unfoldable pub add_trace :
      Trace I L M → Map Key (Object I L M) × KeySet → Option (Map Key (Object I L M) × KeySet)
  unfolding object_with object_key_from_span
  add_trace trace state = elim (lookup trace.0.root trace.0.span_map) [
    | none ↦ none
    | some root ↦
        let key = object_key_from_span root.payload.tags in
        elim (object_with key trace (lookup key state.0)) [
          | none ↦ none
          | some obj ↦ some (insert key obj state.0, insert key struct state.1)
        ]
  ]

  unfoldable pub add_all :
      List (Trace I L M)
      → Map Key (Object I L M) × KeySet
      → Option (Map Key (Object I L M) × KeySet)
  unfolding add_trace
  add_all [] state = some state
  add_all (trace ∷ traces) state = elim (add_trace trace state) [
    | none ↦ none
    | some state' ↦ add_all traces state'
  ]

  -- The second loop of `AddTraces`.
  unfoldable pub identify_all : KeySet → Map Key (Object I L M) → Option (Map Key (Object I L M))
  unfolding identify_links
  identify_all [] objects = some objects
  identify_all ((key, s) ∷ affected) objects = elim (lookup key objects) [
    | none ↦ none
    | some obj ↦ elim (identify_links obj) [
      | none ↦ none
      | some linked ↦ identify_all affected (insert key linked objects)
    ]
  ]

  -- The objects after the traces are added, and the keys of the traces.
  unfoldable pub add_traces :
      List (Trace I L M) → Map Key (Object I L M) → Option (Map Key (Object I L M) × KeySet)
  unfolding add_all identify_all
  add_traces traces objects = elim (add_all traces (objects, [])) [
    | none ↦ none
    | some added ↦ elim (identify_all added.1 added.0) [
      | none ↦ none
      | some identified ↦ some (identified, added.1)
    ]
  ]

-- `MergeTree`
pub record MergeTree {ℓ κ μ} (I : Type ℓ) (L : Type κ) (M : Type μ) : Type (ℓ ⊔ κ ⊔ μ) where
  pub metadata : List M
  pub tree : SpanTree I (Content L)

-- The parameters are those of `mergeLinkedTraces`.
module _ {ℓ κ μ} {I : Type ℓ} {L : Type κ} {M : Type μ} ⦃e : Eq I⦄ (random_id : ℕ → I)
    (repeated : Key → String) (depth : ℕ) where
  -- The members of a component with their keys, and their metadata in this order.
  unfoldable pub members_of : List Key → Map Key (Object I L M) → Option (Map Key (Object I L M))
  members_of [] objects = some []
  members_of (key ∷ keys) objects = elim (lookup key objects) [
    | none ↦ none
    | some obj ↦ elim (members_of keys objects) [
      | none ↦ none
      | some members ↦ some ((key, obj) ∷ members)
    ]
  ]

  unfoldable pub metadata_of : Map Key (Object I L M) → List M
  metadata_of [] = []
  metadata_of ((key, obj) ∷ members) = obj.metadata ++ metadata_of members

  unfoldable pub tree_or_none : List M → Outcome (Merging I L) → Option (MergeTree I L M)
  tree_or_none metadata (merged m) = some (record { metadata = metadata; tree = m.tree })
  tree_or_none metadata panicked = none
  tree_or_none metadata out_of_fuel = none

  -- The first member is the seed of the search for a root; no component is empty.
  unfoldable pub new_merge_tree : AbLinkMap → Map Key (Object I L M) → Option (MergeTree I L M)
  unfolding metadata_of tree_or_none merge_linked_traces
  new_merge_tree ab_links [] = none
  new_merge_tree ab_links ((key, obj) ∷ members) =
      let all = (key, obj) ∷ members in
      tree_or_none (metadata_of all) (merge_linked_traces random_id repeated depth all ab_links key)

  unfoldable pub merge_components :
      AbLinkMap → Map Key (Object I L M) → List (List Key) → Option (List (MergeTree I L M))
  unfolding members_of new_merge_tree
  merge_components ab_links objects [] = some []
  merge_components ab_links objects (keys ∷ components) = elim (members_of keys objects) [
    | none ↦ none
    | some members ↦ elim (new_merge_tree ab_links members) [
      | none ↦ none
      | some tree ↦ elim (merge_components ab_links objects components) [
        | none ↦ none
        | some trees ↦ some (tree ∷ trees)
      ]
    ]
  ]

  unfoldable pub merge_traces : Map Key (Object I L M) → Option (List (MergeTree I L M))
  unfolding components_of insert_all_links merge_components
  merge_traces objects = elim (components_of objects) [
    | none ↦ none
    | some components ↦ merge_components (insert_all_links objects []) objects components
  ]
