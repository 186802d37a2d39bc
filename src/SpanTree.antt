-- ===== src/SpanTree.antt =====
-- pkg/frontend/tf/tree/tree.go, `SpanTree`: the spans of a trace and the links from parent to child,
-- kept alike by the operations that transformers call.
pub mod Links
pub mod Load
pub mod Subtree
pub mod Grafting
pub mod Visit
mod Tests
use kelemetry.Base.{
  Bool, true, false, List, [], ◌∷◌, ◌++◌, Option, none, some, if◌then◌else◌, Eq, ◌==◌,
}
use kelemetry.Base.Map.{Map, lookup, insert, erase, has}

-- `struct{}`, the value of a map that serves as a set.
pub data Struct : Type 0 where
  struct : Struct

abbrev pub IdSet {ℓ} : Type ℓ → Type ℓ
IdSet I = Map I Struct

-- `I` is the type of span ids, compared by `==`. `parent` is the span id of the first reference, if
-- there is one, and `payload` stands for the rest of the span.
pub record Span {ℓ κ} (I : Type ℓ) (D : Type κ) : Type (ℓ ⊔ κ) where
  pub id : I
  pub parent : Option I
  pub payload : D

-- The root is kept by its id. `visitor_stack` has the children that a running visit has yet to see.
pub record SpanTree {ℓ κ} (I : Type ℓ) (D : Type κ) : Type (ℓ ⊔ κ) where
  pub span_map : Map I (Span I D)
  pub children_map : Map I (IdSet I)
  pub visitor_stack : Map I (List I)
  pub exited : IdSet I
  pub root : I

module _ {ℓ} {I : Type ℓ} ⦃e : Eq I⦄ where
  unfoldable pub or_empty : Option (IdSet I) → IdSet I
  or_empty none = []
  or_empty (some ids) = ids

  -- `childrenMap[id]`, where a missing key reads as the nil map.
  unfoldable pub children_of : I → Map I (IdSet I) → IdSet I
  unfolding or_empty
  children_of id children_map = or_empty (lookup id children_map)

  -- The child joins its parent's set, which is made first if it is missing.
  unfoldable pub add_child : I → I → Map I (IdSet I) → Map I (IdSet I)
  unfolding children_of
  add_child parent child children_map =
      insert parent (insert child struct (children_of parent children_map)) children_map

  -- `delete(childrenMap[parent], child)`, which does nothing on a nil map.
  unfoldable pub remove_child : I → I → Map I (IdSet I) → Map I (IdSet I)
  remove_child parent child children_map = elim (lookup parent children_map) [
    | none ↦ children_map
    | some ids ↦ insert parent (erase child ids) children_map
  ]

  unfoldable pub push_unprocessed : I → I → Map I (List I) → Map I (List I)
  push_unprocessed parent child stacks = elim (lookup parent stacks) [
    | none ↦ stacks
    | some unprocessed ↦ insert parent (unprocessed ++ child ∷ []) stacks
  ]

-- What the loop of `NewSpanTree` fills, with the last root found.
pub record Loading {ℓ κ} (I : Type ℓ) (D : Type κ) : Type (ℓ ⊔ κ) where
  pub spans : Map I (Span I D)
  pub links : Map I (IdSet I)
  pub last_root : Option I

module _ {ℓ κ} {I : Type ℓ} {D : Type κ} ⦃e : Eq I⦄ where
  unfoldable pub link_to : Loading I D → Span I D → Option I → Loading I D
  unfolding add_child
  link_to l span none = record l { spans = insert span.id span l.spans; last_root = some span.id }
  link_to l span (some parent_id) = record l {
    spans = insert span.id span l.spans;
    links = add_child parent_id span.id l.links;
  }

  unfoldable pub link_span : Loading I D → Span I D → Loading I D
  unfolding link_to
  link_span l span = link_to l span span.parent

  unfoldable pub link_all : Loading I D → List (Span I D) → Loading I D
  unfolding link_span
  link_all l [] = l
  link_all l (span ∷ spans) = link_all (link_span l span) spans

  unfoldable pub rooted : Loading I D → Option I → Option (SpanTree I D)
  rooted l none = none
  rooted l (some root) = some (record {
    span_map = l.spans;
    children_map = l.links;
    visitor_stack = [];
    exited = [];
    root = root;
  })

  unfoldable pub new_span_tree : List (Span I D) → Option (SpanTree I D)
  unfolding link_all rooted
  new_span_tree spans =
      let l = link_all (record { spans = []; links = []; last_root = none }) spans in
      rooted l l.last_root

  -- `none` is a panic here and below.
  unfoldable pub add : SpanTree I D → Span I D → I → Option (SpanTree I D)
  unfolding add_child push_unprocessed
  add tree new_span parent_id =
      let child = record new_span { parent = some parent_id } in
      if has parent_id tree.exited
      then none
      else some (record tree {
        span_map = insert child.id child tree.span_map;
        children_map = add_child parent_id child.id tree.children_map;
        visitor_stack = push_unprocessed parent_id child.id tree.visitor_stack;
      })

  unfoldable pub relink : SpanTree I D → Span I D → I → I → I → SpanTree I D
  unfolding add_child remove_child push_unprocessed
  relink tree moved moved_id old_parent_id new_parent_id = record tree {
    span_map = insert moved_id (record moved { parent = some new_parent_id }) tree.span_map;
    children_map =
        remove_child old_parent_id moved_id (add_child new_parent_id moved_id tree.children_map);
    visitor_stack = push_unprocessed new_parent_id moved_id tree.visitor_stack;
  }

  unfoldable pub move_from : SpanTree I D → I → I → Option (Span I D) → Option (SpanTree I D)
  unfolding relink
  move_from tree moved_id new_parent_id none = none
  move_from tree moved_id new_parent_id (some moved) = elim moved.parent [
    | none ↦ none
    | some old_parent_id ↦ some (relink tree moved moved_id old_parent_id new_parent_id)
  ]

  unfoldable pub move : SpanTree I D → I → I → Option (SpanTree I D)
  unfolding move_from
  move tree moved_id new_parent_id =
      if has new_parent_id tree.exited
      then none
      else move_from tree moved_id new_parent_id (lookup moved_id tree.span_map)
