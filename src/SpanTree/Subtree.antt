-- ===== src/SpanTree/Subtree.antt =====
-- `Clone`, `AddTree` and `Delete` of pkg/frontend/tf/tree/tree.go. Recursion is on fuel for the depth
-- of the tree; `none` is a panic, or a tree deeper than the fuel. `AddTree` of a tree to itself, which
-- panics at once, is left out.
use kelemetry.Base.{
  ℕ, zero, suc, Bool, true, List, [], ◌∷◌, Option, none, some, if◌then◌else◌, Eq, ◌==◌,
}
use kelemetry.Base.Map.{Map, lookup, erase, has}
use kelemetry.SpanTree.{IdSet, Span, SpanTree, children_of, remove_child, add, new_span_tree}

module _ {ℓ} {I : Type ℓ} ⦃e : Eq I⦄ where
  -- The parent of a deleted span no longer lists it.
  unfoldable pub unlink_from_parent : Option I → I → Map I (IdSet I) → Map I (IdSet I)
  unfolding remove_child
  unlink_from_parent none span_id children_map = children_map
  unlink_from_parent (some parent_id) span_id children_map =
      remove_child parent_id span_id children_map

module _ {ℓ κ} {I : Type ℓ} {D : Type κ} ⦃e : Eq I⦄ where
  -- The loop over the children of a span; `visit` is the recursive call.
  unfoldable pub each_child :
      (SpanTree I D → I → Option (SpanTree I D)) → IdSet I → SpanTree I D → Option (SpanTree I D)
  each_child visit [] tree = some tree
  each_child visit ((child, s) ∷ children) tree = elim (visit tree child) [
    | none ↦ none
    | some tree' ↦ each_child visit children tree'
  ]

  unfoldable pub add_subtree : ℕ → SpanTree I D → I → I → SpanTree I D → Option (SpanTree I D)
  unfolding each_child add children_of
  add_subtree zero other parent_id subroot tree = none
  add_subtree (suc fuel) other parent_id subroot tree = elim (lookup subroot other.span_map) [
    | none ↦ none
    | some span ↦ elim (add tree span parent_id) [
      | none ↦ none
      | some tree' ↦
          each_child (λ t child. add_subtree fuel other subroot child t)
            (children_of subroot other.children_map) tree'
    ]
  ]

  unfoldable pub add_tree : ℕ → SpanTree I D → I → SpanTree I D → Option (SpanTree I D)
  unfolding add_subtree
  add_tree fuel child_tree parent_id tree =
      add_subtree fuel child_tree parent_id child_tree.root tree

  -- Whether `Delete` refuses a span: the root, one that is being visited, or one that was.
  unfoldable pub cannot_delete : SpanTree I D → I → Bool
  cannot_delete tree span_id =
      if tree.root == span_id
      then true
      else if has span_id tree.visitor_stack
      then true
      else has span_id tree.exited

  unfoldable pub delete : ℕ → I → SpanTree I D → Option (SpanTree I D)
  unfolding each_child unlink_from_parent cannot_delete
  delete zero span_id tree = none
  delete (suc fuel) span_id tree = elim (lookup span_id tree.span_map) [
    | none ↦ none
    | some span ↦
        if cannot_delete tree span_id
        then none
        else (let links = unlink_from_parent span.parent span_id tree.children_map in
            let unlinked = record tree {
              span_map = erase span_id tree.span_map;
              children_map = links;
            } in
            elim (lookup span_id links) [
              | none ↦ some unlinked
              | some children ↦
                  elim (each_child (λ t child. delete fuel child t) children unlinked) [
                    | none ↦ none
                    | some t ↦ some (record t { children_map = erase span_id t.children_map })
                  ]
            ])
  ]

  -- The copies of all spans; `copy_span` stands for `CopySpan`, whose error is `none`.
  unfoldable pub copy_all :
      (Span I D → Option (Span I D)) → Map I (Span I D) → Option (List (Span I D))
  copy_all copy_span [] = some []
  copy_all copy_span ((id, span) ∷ spans) = elim (copy_span span) [
    | none ↦ none
    | some copied ↦ elim (copy_all copy_span spans) [
      | none ↦ none
      | some rest ↦ some (copied ∷ rest)
    ]
  ]

  unfoldable pub clone : (Span I D → Option (Span I D)) → SpanTree I D → Option (SpanTree I D)
  unfolding copy_all new_span_tree
  clone copy_span tree = elim (copy_all copy_span tree.span_map) [
    | none ↦ none
    | some spans ↦ new_span_tree spans
  ]
