-- ===== src/Steps/Nesting.antt =====
-- The visitors of pkg/frontend/tf/defaults/step that change the nesting of spans, extract_nesting.go
-- and collapse_nesting.go, and object_tags.go, which looks below a span. `none` is a panic, or a tree
-- deeper than the fuel.
use kelemetry.Base.{
  ℕ, zero, suc, Bool, List, [], ◌∷◌, ◌++◌, Option, none, some, String, if◌then◌else◌, Eq, ◌==◌,
  string_eq,
}
use kelemetry.Base.Map.{lookup, insert, has}
use kelemetry.SpanTree.{IdSet, Span, SpanTree, children_of, move}
use kelemetry.SpanTree.Subtree.{delete}
use kelemetry.SpanTree.Visit.{ids_of}
use kelemetry.Filter.{StringFilter, matches}
use kelemetry.Merge.Roots.{Tags, Content}
use kelemetry.Steps.{Log}

abbrev pub or_empty_text : Option String → String
or_empty_text none = ""
or_empty_text (some s) = s

abbrev pub is_object : Tags → Bool
is_object tags = or_empty_text (lookup "zzz-pseudoType" tags) == "object"

module _ {ℓ} {I : Type ℓ} ⦃e : Eq I⦄ where
  unfoldable pub move_all :
      List I → I → SpanTree I (Content Log) → Option (SpanTree I (Content Log))
  unfolding move
  move_all [] parent_id tree = some tree
  move_all (child ∷ children) parent_id tree = elim (move tree child parent_id) [
    | none ↦ none
    | some tree' ↦ move_all children parent_id tree'
  ]

  unfoldable pub extract :
      ℕ → Span I (Content Log) → I → SpanTree I (Content Log) → Option (SpanTree I (Content Log))
  unfolding move_all delete
  extract fuel span parent_id tree =
      elim (move_all (ids_of (children_of span.id tree.children_map)) parent_id tree) [
        | none ↦ none
        | some tree' ↦ delete fuel span.id tree'
      ]

  -- `ExtractNestingVisitor.Enter`; the root span is left as it is.
  unfoldable pub extract_nesting :
      ℕ
      → StringFilter
      → Span I (Content Log)
      → SpanTree I (Content Log)
      → Option (SpanTree I (Content Log))
  unfolding extract
  extract_nesting fuel matches_pseudo_type span tree = elim span.parent [
    | none ↦ some tree
    | some parent_id ↦ elim (lookup "zzz-pseudoType" span.payload.tags) [
      | none ↦ some tree
      | some pseudo_type ↦
          if matches matches_pseudo_type pseudo_type
          then extract fuel span parent_id tree
          else some tree
    ]
  ]

  -- The tag is appended to the tags of a span of the tree.
  unfoldable pub add_tag :
      Span I (Content Log) → String → String → SpanTree I (Content Log) → SpanTree I (Content Log)
  add_tag span tag_key value tree =
      let content = record span.payload { tags = span.payload.tags ++ (tag_key, value) ∷ [] } in
      record tree { span_map = insert span.id (record span { payload = content }) tree.span_map }

  -- The loop over the children, of which those that are objects are passed over. `find` is the
  -- recursive call, whose second answer is the value, if there is one.
  unfoldable pub find_in_children :
      (SpanTree I (Content Log)
        → Span I (Content Log)
        → Option (SpanTree I (Content Log) × Option String))
      → Span I (Content Log)
      → String
      → IdSet I
      → SpanTree I (Content Log)
      → Option (SpanTree I (Content Log) × Option String)
  unfolding add_tag
  find_in_children find span tag_key [] tree = some (tree, none)
  find_in_children find span tag_key ((child_id, s) ∷ children) tree =
      let rest : SpanTree I (Content Log) → Option (SpanTree I (Content Log) × Option String) =
        find_in_children find span tag_key children in
      elim (lookup child_id tree.span_map) [
        | none ↦ none
        | some child ↦
            let found : Option (SpanTree I (Content Log) × Option String) = elim (find tree child) [
              | none ↦ none
              | some (tree', answer) ↦ elim answer [
                | none ↦ rest tree'
                | some value ↦
                    if tag_key == ""
                    then rest tree'
                    else some (add_tag span tag_key value tree', some value)
              ]
            ] in
            if is_object child.payload.tags then rest tree else found
      ]

  -- `findTagRecursively`
  unfoldable pub find_tag_recursively :
      ℕ
      → String
      → SpanTree I (Content Log)
      → Span I (Content Log)
      → Option (SpanTree I (Content Log) × Option String)
  unfolding find_in_children
  find_tag_recursively zero tag_key tree span = none
  find_tag_recursively (suc fuel) tag_key tree span = elim (lookup tag_key span.payload.tags) [
    | some value ↦ some (tree, some value)
    | none ↦
        find_in_children (find_tag_recursively fuel tag_key) span tag_key
          (children_of span.id tree.children_map) tree
  ]

  -- The loop over the tags that are wanted. The span is read anew, since the call before may have
  -- added a tag to it.
  unfoldable pub find_all_tags :
      ℕ → List String → I → SpanTree I (Content Log) → Option (SpanTree I (Content Log))
  unfolding find_tag_recursively
  find_all_tags fuel [] id tree = some tree
  find_all_tags fuel (resource_key ∷ resource_tags) id tree = elim (lookup id tree.span_map) [
    | none ↦ none
    | some span ↦ elim (find_tag_recursively fuel resource_key tree span) [
      | none ↦ none
      | some (tree', value) ↦ find_all_tags fuel resource_tags id tree'
    ]
  ]

  -- `ObjectTagsVisitor.Enter`
  unfoldable pub copy_object_tags :
      ℕ
      → List String
      → Span I (Content Log)
      → SpanTree I (Content Log)
      → Option (SpanTree I (Content Log))
  unfolding find_all_tags
  copy_object_tags fuel resource_tags span tree =
      if is_object span.payload.tags
      then (if has "resource" span.payload.tags
          then find_all_tags fuel resource_tags span.id tree
          else some tree)
      else some tree
