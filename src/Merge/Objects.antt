-- ===== src/Merge/Objects.antt =====
-- The objects of a merger in pkg/frontend/reader/merge/merge.go: the merged trace of each, the links
-- that its spans name, and the map of all links.
use kelemetry.Base.{
  ℕ, zero, suc, Bool, true, false, List, [], ◌∷◌, ◌++◌, Option, none, some, String, if◌then◌else◌,
  Eq, ◌==◌, string_eq,
}
use kelemetry.Base.Map.{Map, lookup, insert}
use kelemetry.Aggregator.{Key}
use kelemetry.LinkTags.{LinkRole, parent_role, child_role, other_role, linked_key_from_span}
use kelemetry.SpanTree.{IdSet, Span, SpanTree, children_of, add}
use kelemetry.SpanTree.Subtree.{clone}
use kelemetry.Merge.{TargetLink, key_eq}
use kelemetry.Merge.Roots.{Content, merge_root}

-- `I` is the type of span ids, `L` of log entries, and `M` of the metadata of a trace.
pub record Object {ℓ κ μ} (I : Type ℓ) (L : Type κ) (M : Type μ) : Type (ℓ ⊔ κ ⊔ μ) where
  pub key : Key
  pub metadata : List M
  pub tree : SpanTree I (Content L)
  pub links : List TargetLink

abbrev pub Trace {ℓ κ μ} : (I : Type ℓ) (L : Type κ) (M : Type μ) → Type (ℓ ⊔ κ ⊔ μ)
Trace I L M = SpanTree I (Content L) × M

unfoldable pub role_of_text : String → LinkRole
role_of_text s =
    if s == "parent" then parent_role else if s == "child" then child_role else other_role s

unfoldable pub class_of : Option String → String
class_of none = ""
class_of (some class) = class

-- The link of a span, if it is a link with a role.
unfoldable pub link_of_tags : Map String String → Option TargetLink
unfolding role_of_text class_of
link_of_tags tags = elim (linked_key_from_span tags) [
  | none ↦ none
  | some target ↦ elim (lookup "linkRole" tags) [
    | none ↦ none
    | some role ↦ some (record {
      key = target;
      role = role_of_text role;
      class = class_of (lookup "linkClass" tags);
    })
  ]
]

module _ {ℓ κ} {I : Type ℓ} {L : Type κ} ⦃e : Eq I⦄ where
  -- A child that is not in the tree is a nil span, whose read panics.
  unfoldable pub links_of_children : IdSet I → Map I (Span I (Content L)) → Option (List TargetLink)
  unfolding link_of_tags
  links_of_children [] span_map = some []
  links_of_children ((id, s) ∷ ids) span_map = elim (lookup id span_map) [
    | none ↦ none
    | some span ↦ elim (links_of_children ids span_map) [
      | none ↦ none
      | some links ↦ elim (link_of_tags span.payload.tags) [
        | none ↦ some links
        | some link ↦ some (link ∷ links)
      ]
    ]
  ]

  -- `copyTreeVisitor` below one span: the copies of the children of `id` go under `to_parent`. The
  -- flag is the error of this visitor: a failed copy of a child sets it and leaves out the subtree.
  unfoldable pub copy_children :
      (Span I (Content L) → Option (Span I (Content L)))
      → (I → I → SpanTree I (Content L) → Option (SpanTree I (Content L) × Bool))
      → SpanTree I (Content L)
      → I
      → IdSet I
      → SpanTree I (Content L)
      → Bool
      → Option (SpanTree I (Content L) × Bool)
  copy_children copy_span dive from to_parent [] to failed = some (to, failed)
  copy_children copy_span dive from to_parent ((id, s) ∷ ids) to failed =
      elim (lookup id from.span_map) [
        | none ↦ none
        | some span ↦ elim (copy_span span) [
          | none ↦ copy_children copy_span dive from to_parent ids to true
          | some copied ↦ elim (add to copied to_parent) [
            | none ↦ none
            | some to' ↦ elim (dive copied.id id to') [
              | none ↦ none
              | some below ↦ copy_children copy_span dive from to_parent ids below.0 failed
            ]
          ]
        ]
      ]

  unfoldable pub copy_below :
      (Span I (Content L) → Option (Span I (Content L)))
      → ℕ
      → SpanTree I (Content L)
      → I
      → I
      → SpanTree I (Content L)
      → Option (SpanTree I (Content L) × Bool)
  unfolding copy_children children_of
  copy_below copy_span zero from to_parent id to = none
  copy_below copy_span (suc fuel) from to_parent id to =
      copy_children copy_span (copy_below copy_span fuel from) from to_parent
        (children_of id from.children_map) to false

  -- `mergeRoot` writes to the root span of the object.
  unfoldable pub with_merged_root :
      SpanTree I (Content L) → SpanTree I (Content L) → Option (SpanTree I (Content L))
  with_merged_root tree trace = elim (lookup tree.root tree.span_map) [
    | none ↦ none
    | some base ↦ elim (lookup trace.root trace.span_map) [
      | none ↦ none
      | some tail ↦ some (record tree {
        span_map =
            insert tree.root (record base { payload = merge_root base.payload tail.payload })
              tree.span_map;
      })
    ]
  ]

module _ {ℓ κ μ} {I : Type ℓ} {L : Type κ} {M : Type μ} ⦃e : Eq I⦄ where
  unfoldable pub identify_links : Object I L M → Option (Object I L M)
  unfolding links_of_children children_of
  identify_links obj =
      elim (links_of_children (children_of obj.tree.root obj.tree.children_map) obj.tree.span_map) [
        | none ↦ none
        | some links ↦ some (record obj { links = obj.links ++ links })
      ]

  unfoldable pub new_object :
      (Span I (Content L) → Option (Span I (Content L))) → Key → Trace I L M → Option (Object I L M)
  unfolding clone
  new_object copy_span key trace = elim (clone copy_span trace.0) [
    | none ↦ none
    | some tree ↦ some (record { key = key; metadata = trace.1 ∷ []; tree = tree; links = [] })
  ]

  unfoldable pub merge :
      (Span I (Content L) → Option (Span I (Content L)))
      → ℕ
      → Object I L M
      → Trace I L M
      → Option (Object I L M)
  unfolding with_merged_root copy_below
  merge copy_span fuel obj trace = elim (with_merged_root obj.tree trace.0) [
    | none ↦ none
    | some tree ↦ elim (copy_below copy_span fuel trace.0 tree.root trace.0.root tree) [
      | none ↦ none
      | some copied ↦
          if copied.1
          then none
          else some (record obj { metadata = obj.metadata ++ trace.1 ∷ []; tree = copied.0 })
    ]
  ]
