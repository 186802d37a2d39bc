-- ===== src/Merge/Linked.antt =====
-- `detectRoot` and `mergeLinkedTraces` of pkg/frontend/reader/merge/merge.go: the traces of a
-- component are hung below one root, along the links from parent to child.
pub mod Root
pub mod Attached
pub mod Descent
pub mod Reached
pub mod Rounds
pub mod Spans
use kelemetry.Base.{
  ℕ, zero, suc, Bool, true, false, not, ◌&&◌, List, [], ◌∷◌, ◌++◌, Option, none, some, String,
  if◌then◌else◌, Eq, ◌==◌, string_eq, length,
}
use kelemetry.Base.Map.{Map, lookup, insert, has}
use kelemetry.Aggregator.{Key}
use kelemetry.SpanTree.{Struct, struct, IdSet, Span, SpanTree, children_of, add}
use kelemetry.SpanTree.Subtree.{add_tree}
use kelemetry.Merge.{AbLink, AbLinkMap, TargetLink, key_eq, peers_of, is_parent, is_child_role}
use kelemetry.Merge.Components.{KeySet}
use kelemetry.Merge.Roots.{Content}
use kelemetry.Merge.Objects.{Object}

-- The first peer in the order of the map that passes the filter and is the parent.
unfoldable pub first_parent : (Key → Bool) → Map Key AbLink → Option Key
unfolding is_parent
first_parent vertex_filter [] = none
first_parent vertex_filter ((peer, link) ∷ peers) =
    if vertex_filter peer && is_parent link peer
    then some peer
    else first_parent vertex_filter peers

-- A key and whether it lies on a cycle; `none` is a search that ran out of fuel.
unfoldable pub dfs_root : ℕ → AbLinkMap → (Key → Bool) → KeySet → Key → Option (Key × Bool)
unfolding first_parent peers_of
dfs_root zero ab_links vertex_filter visited key = none
dfs_root (suc fuel) ab_links vertex_filter visited key =
    if has key visited
    then some (key, true)
    else elim (first_parent vertex_filter (peers_of key ab_links)) [
      | none ↦ some (key, false)
      | some parent ↦ dfs_root fuel ab_links vertex_filter (insert key struct visited) parent
    ]

unfoldable pub detect_root : ℕ → AbLinkMap → (Key → Bool) → Key → Option (Key × Bool)
unfolding dfs_root
detect_root fuel ab_links vertex_filter seed = dfs_root fuel ab_links vertex_filter [] seed

-- The state of the loop over pending objects; the last pending object of the source is the first
-- here. `drawn` counts the random span ids drawn.
pub record Merging {ℓ κ} (I : Type ℓ) (L : Type κ) : Type (ℓ ⊔ κ) where
  pub tree : SpanTree I (Content L)
  pub tree_objects : KeySet
  pub pending_objects : List Key
  pub drawn : ℕ

pub data Outcome {ℓ} (A : Type ℓ) : Type ℓ where
  merged : A → Outcome A
  panicked out_of_fuel : Outcome A

unfoldable pub virtual_content {κ} : {L : Type κ} → Content L → String → Content L
virtual_content span svc_name = record {
  operation_name = "";
  service_name = svc_name;
  start_time = span.start_time;
  duration = span.duration;
  tags = ("zzz-pseudoType", "linkClass") ∷ [];
  logs = [];
  warnings = [];
}

unfoldable pub fit_all {ℓ} : {I : Type ℓ} → (I → Bool) → IdSet I → Bool
fit_all fit [] = true
fit_all fit ((id, s) ∷ ids) = fit id && fit_all fit ids

module _ {ℓ κ} {I : Type ℓ} {D : Type κ} ⦃e : Eq I⦄ where
  -- Whether a tree is no deeper than the fuel.
  unfoldable pub fits : ℕ → SpanTree I D → I → Bool
  unfolding fit_all
  fits zero tree id = false
  fits (suc fuel) tree id = fit_all (fits fuel tree) (children_of id tree.children_map)

unfoldable pub all_fit {ℓ κ μ} :
    {I : Type ℓ} {L : Type κ} {M : Type μ} ⦃e : Eq I⦄ → ℕ → Map Key (Object I L M) → Bool
unfolding fits
all_fit depth [] = true
all_fit depth ((key, object) ∷ more) = fits depth object.tree object.tree.root && all_fit depth more

-- `random_id n` is the id that `rand.Uint64` gives at its n-th call, `repeated` formats the warning,
-- and `depth` bounds the depth of a trace; on traces that it bounds, `none` is a panic.
module _ {ℓ κ μ} {I : Type ℓ} {L : Type κ} {M : Type μ} ⦃e : Eq I⦄ (random_id : ℕ → I)
    (repeated : Key → String) (depth : ℕ) (trees : Map Key (Object I L M)) where
  -- The span under which a linked object goes: the root of the subject, or a new span for the class
  -- of the link.
  unfoldable pub parent_span :
      Span I (Content L) → TargetLink → Merging I L → Option (I × Merging I L)
  unfolding virtual_content add
  parent_span root link m =
      if link.class == ""
      then some (root.id, m)
      else (let virtual : Span I (Content L) = record {
        id = random_id m.drawn;
        parent = none;
        payload = virtual_content root.payload link.class;
      } in
          elim (add m.tree virtual root.id) [
            | none ↦ none
            | some tree ↦ some (random_id m.drawn, record m { tree = tree; drawn = suc m.drawn })
          ])

  unfoldable pub warn : I → String → SpanTree I (Content L) → SpanTree I (Content L)
  warn id warning tree = elim (lookup id tree.span_map) [
    | none ↦ tree
    | some span ↦
        let content = record span.payload { warnings = span.payload.warnings ++ warning ∷ [] } in
        record tree { span_map = insert id (record span { payload = content }) tree.span_map }
  ]

  unfoldable pub attach : I → Key → Merging I L → Option (Merging I L)
  unfolding warn add_tree
  attach parent_id key m =
      if has key m.tree_objects
      then some (record m { tree = warn parent_id (repeated key) m.tree })
      else elim (lookup key trees) [
        | none ↦ some m
        | some subtree ↦ elim (add_tree depth subtree.tree parent_id m.tree) [
          | none ↦ none
          | some tree ↦ some (record m {
            tree = tree;
            tree_objects = insert key struct m.tree_objects;
            pending_objects = key ∷ m.pending_objects;
          })
        ]
      ]

  -- One link of a subject, whose root span is `root`.
  unfoldable pub follow_child_link :
      Span I (Content L) → TargetLink → Merging I L → Option (Merging I L)
  unfolding parent_span attach is_child_role
  follow_child_link root link m =
      if is_child_role link.role
      then elim (parent_span root link m) [
        | none ↦ none
        | some placed ↦ attach placed.0 link.key placed.1
      ]
      else some m

  unfoldable pub follow_child_links :
      Span I (Content L) → List TargetLink → Merging I L → Option (Merging I L)
  unfolding follow_child_link
  follow_child_links root [] m = some m
  follow_child_links root (link ∷ links) m = elim (follow_child_link root link m) [
    | none ↦ none
    | some m' ↦ follow_child_links root links m'
  ]

  unfoldable pub root_span : Object I L M → Option (Span I (Content L))
  root_span subject = lookup subject.tree.root subject.tree.span_map

  -- The loop body for the object that was taken from the pending ones.
  unfoldable pub expand : Key → Merging I L → Option (Merging I L)
  unfolding follow_child_links root_span
  expand subj m = elim (lookup subj trees) [
    | none ↦ none
    | some subject ↦ elim (root_span subject) [
      | none ↦ none
      | some root ↦ follow_child_links root subject.links m
    ]
  ]

  unfoldable pub drain : ℕ → Merging I L → List Key → Outcome (Merging I L)
  unfolding expand
  drain fuel m [] = merged m
  drain zero m (subj ∷ rest) = out_of_fuel
  drain (suc fuel) m (subj ∷ rest) = elim (expand subj (record m { pending_objects = rest })) [
    | none ↦ panicked
    | some m' ↦ drain fuel m' m'.pending_objects
  ]

  -- Traces deeper than `depth` are told apart from a panic at the start.
  unfoldable pub merge_below : ℕ → Key → Outcome (Merging I L)
  unfolding drain all_fit
  merge_below fuel root_key =
      if all_fit depth trees
      then elim (lookup root_key trees) [
        | none ↦ panicked
        | some root ↦
            drain fuel
              (record {
                tree = root.tree;
                tree_objects = insert root_key struct [];
                pending_objects = root_key ∷ [];
                drawn = 0;
              })
              (root_key ∷ [])
      ]
      else out_of_fuel

  -- The traces of a component, whose first member is `seed`.
  unfoldable pub merge_linked_traces : AbLinkMap → Key → Outcome (Merging I L)
  unfolding detect_root merge_below
  merge_linked_traces ab_links seed =
      elim (detect_root (suc (length trees)) ab_links (λ key. has key trees) seed) [
        | none ↦ out_of_fuel
        | some found ↦ merge_below (length trees) found.0
      ]
