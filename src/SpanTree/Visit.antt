-- ===== src/SpanTree/Visit.antt =====
-- `Visit` and `SetRoot` of pkg/frontend/tf/tree/tree.go. `none` is a panic, or too little fuel: a tree
-- that is deeper, or a span to which children are added in more rounds.
pub mod Quiet
pub mod Rooted
use kelemetry.Base.{
  ℕ, zero, suc, Bool, true, false, List, [], ◌∷◌, Option, none, some, if◌then◌else◌, Eq, ◌==◌,
}
use kelemetry.Base.Map.{Map, lookup, insert, erase, has}
use kelemetry.SpanTree.{Struct, struct, IdSet, Span, SpanTree, children_of}

abbrev pub or_done {ℓ} : {I : Type ℓ} → Option (List I) → List I
or_done none = []
or_done (some ids) = ids

abbrev pub ids_of {ℓ} : {I : Type ℓ} → IdSet I → List I
ids_of [] = []
ids_of ((id, s) ∷ ids) = id ∷ ids_of ids

abbrev pub is_empty {ℓ} : {A : Type ℓ} → List A → Bool
is_empty [] = true
is_empty (a ∷ as') = false

-- A `TreeVisitor`: `V` is the type of visitors, and `S` of what they point to. `Enter` answers the
-- visitor for the children, which may be nil.
pub record TreeVisitor {ℓ κ μ ν} (V : Type ℓ) (S : Type κ) (I : Type μ) (D : Type ν)
    : Type (ℓ ⊔ κ ⊔ μ ⊔ ν) where
  pub enter : V → S → SpanTree I D → I → Option (S × SpanTree I D × Option V)
  pub exit : V → S → SpanTree I D → I → Option (S × SpanTree I D)

module _ {κ μ ν} {S : Type κ} {I : Type μ} {D : Type ν} ⦃e : Eq I⦄ where
  -- The loop over a batch of children of a span; `visit_child` is the recursive call.
  unfoldable pub visit_batch :
      (S → SpanTree I D → I → Option (S × SpanTree I D))
      → I
      → List I
      → S
      → SpanTree I D
      → Option (S × SpanTree I D)
  visit_batch visit_child parent_id [] s tree = some (s, tree)
  visit_batch visit_child parent_id (child_id ∷ children) s tree =
      elim (lookup child_id tree.span_map) [
        | none ↦ none
        | some child ↦ if child.id == parent_id then none else elim (visit_child s tree child.id) [
          | none ↦ none
          | some (s', tree') ↦ visit_batch visit_child parent_id children s' tree'
        ]
      ]

  -- The loop that takes what is in the span's stack entry until nothing is.
  unfoldable pub drain_stack :
      ℕ
      → (S → SpanTree I D → I → Option (S × SpanTree I D))
      → I
      → S
      → SpanTree I D
      → Option (S × SpanTree I D)
  unfolding visit_batch
  drain_stack zero visit_child id s tree = none
  drain_stack (suc rounds) visit_child id s tree = elim (or_done (lookup id tree.visitor_stack)) [
    | [] ↦ some (s, tree)
    | child ∷ children ↦
        elim (visit_batch visit_child id (child ∷ children) s
          (record tree { visitor_stack = insert id [] tree.visitor_stack })) [
            | none ↦ none
            | some (s', tree') ↦ drain_stack rounds visit_child id s' tree'
          ]
  ]

module _ {μ ν} {I : Type μ} {D : Type ν} ⦃e : Eq I⦄ where
  -- The end of a visit: the span is exited, and no span is once the visit is over.
  unfoldable pub leave : I → SpanTree I D → SpanTree I D
  leave id tree =
      if has id tree.span_map
      then record tree {
        exited = if is_empty tree.visitor_stack then [] else insert id struct tree.exited;
      }
      else tree

  unfoldable pub push_stack : I → SpanTree I D → SpanTree I D
  push_stack id tree = record tree {
    visitor_stack = insert id (ids_of (children_of id tree.children_map)) tree.visitor_stack;
  }

module _ {ℓ κ μ ν} {V : Type ℓ} {S : Type κ} {I : Type μ} {D : Type ν} ⦃e : Eq I⦄
    (visitors : TreeVisitor V S I D) where
  unfoldable pub enter_with : Option V → S → SpanTree I D → I → Option (S × SpanTree I D × Option V)
  enter_with none s tree id = some (s, tree, none)
  enter_with (some visitor) s tree id = visitors.enter visitor s tree id

  unfoldable pub exit_with : Option V → S → SpanTree I D → I → Option (S × SpanTree I D)
  exit_with none s tree id = some (s, tree)
  exit_with (some visitor) s tree id = visitors.exit visitor s tree id

  unfoldable pub exit_span : Option V → I → Option (S × SpanTree I D) → Option (S × SpanTree I D)
  unfolding exit_with leave
  exit_span visitor id none = none
  exit_span visitor id (some (s, tree)) =
      elim (exit_with visitor s (record tree { visitor_stack = erase id tree.visitor_stack }) id) [
        | none ↦ none
        | some (s', tree') ↦ some (s', leave id tree')
      ]

  -- `spanNode.visit`
  unfoldable pub visit : ℕ → ℕ → Option V → S → SpanTree I D → I → Option (S × SpanTree I D)
  unfolding enter_with drain_stack exit_span push_stack
  visit rounds zero visitor s tree id = none
  visit rounds (suc fuel) visitor s tree id =
      let entered : Option (S × SpanTree I D) = elim (enter_with visitor s tree id) [
        | none ↦ none
        | some (s', tree', subvisitor) ↦
            let below =
              exit_span visitor id
                (drain_stack rounds (visit rounds fuel subvisitor) id s' (push_stack id tree')) in
            if has id tree'.span_map then below else some (s', tree')
      ] in
      if has id tree.span_map then entered else none

-- `spanIdCollector`, whose set is the state.
abbrev pub span_id_collector {ℓ κ} :
    {I : Type ℓ} {D : Type κ} ⦃e : Eq I⦄ → TreeVisitor (Unit {0}) (IdSet I) I D
span_id_collector = record {
  enter = λ visitor span_ids tree id. some (insert id struct span_ids, tree, some tt);
  exit = λ visitor span_ids tree id. some (span_ids, tree);
}

-- What `SetRoot` does: `no_such_root` is ErrRootDoesNotExist.
pub data RootChange {ℓ} (T : Type ℓ) : Type ℓ where
  changed : T → RootChange T
  no_such_root : RootChange T
  panicked : RootChange T

module _ {ℓ} {I : Type ℓ} ⦃e : Eq I⦄ where
  -- A map without the keys that were not collected.
  unfoldable pub keep {κ} : {A : Type κ} → IdSet I → Map I A → Map I A
  keep span_ids [] = []
  keep span_ids ((id, a) ∷ m) =
      let rest = keep span_ids m in if has id span_ids then (id, a) ∷ rest else rest

module _ {ℓ κ} {I : Type ℓ} {D : Type κ} ⦃e : Eq I⦄ where
  unfoldable pub prune : Option (IdSet I × SpanTree I D) → RootChange (SpanTree I D)
  unfolding keep
  prune none = panicked
  prune (some (span_ids, tree)) = changed (record tree {
    span_map = keep span_ids tree.span_map;
    children_map = keep span_ids tree.children_map;
  })

  unfoldable pub set_root : ℕ → ℕ → SpanTree I D → I → RootChange (SpanTree I D)
  unfolding visit prune
  set_root rounds fuel tree id =
      let found : RootChange (SpanTree I D) = elim (lookup id tree.span_map) [
        | none ↦ no_such_root
        | some new_root ↦
            let rooted = record tree {
              span_map = insert id (record new_root { parent = none }) tree.span_map;
              root = id;
            } in
            prune (visit span_id_collector rounds fuel (some tt) [] rooted id)
      ] in
      if is_empty tree.visitor_stack then found else panicked
