-- ===== src/SpanTree/Grafting.antt =====
-- `AddTree` of pkg/frontend/tf/tree/tree.go on a tree of which all spans can be added.
use kelemetry.Base.{
  ℕ, zero, suc, ◌≡◌, refl, ap, subst, ◌∙◌, inl, inr, true, false, [], ◌∷◌, Option, some, arith, Eq,
  ◌==◌, Bool-cases,
}
use kelemetry.Base.Map.{lookup, insert, has, has-insert}
use kelemetry.SpanTree.{IdSet, Span, SpanTree, children_of, add_child, push_unprocessed, add}
use kelemetry.SpanTree.Links.{has-add_child}
use kelemetry.SpanTree.Subtree.{each_child, add_subtree, add_tree}

abbrev pub All {ℓ κ} : {I : Type ℓ} → (I → Type κ) → IdSet I → Type κ
All P [] = Unit
All P ((id, s) ∷ ids) = P id × All P ids

pub All-map {ℓ κ μ} :
    {I : Type ℓ} {P : I → Type κ} {Q : I → Type μ}
    → ((id : I) → P id → Q id)
    → (ids : IdSet I) → All P ids
    → All Q ids
All-map f [] h = tt
All-map f ((id, s) ∷ ids) h = (f id h.0, All-map f ids h.1)

module _ {ℓ} {I : Type ℓ} ⦃e : Eq I⦄ where
  All-has {μ} : (P : I → Type μ) (ids : IdSet I) → All P ids → (c : I) → has c ids ≡ true → P c
  unfolding has
  All-has P [] all c h = absurd (cc)
  All-has P ((id, s) ∷ ids) all c h = elim (Bool-cases (id == c)) [
    | inl t ↦ subst P ((e.beq_iff id c).0 t) all.0
    | inr t ↦ All-has P ids all.1 c (rw t at h)
  ]

-- What holds of no id: the tree is deeper than the fuel.
pub data TooDeep {ℓ} : Type ℓ where

module _ {ℓ κ} {I : Type ℓ} {D : Type κ} ⦃e : Eq I⦄ where
  -- What holds of an id, and of those below it in the tree, which is no deeper than the fuel.
  abbrev pub Throughout {μ} : SpanTree I D → (I → Type μ) → ℕ → I → Type μ
  Throughout tree P zero id = TooDeep
  Throughout tree P (suc fuel) id =
      P id × All (Throughout tree P fuel) (children_of id tree.children_map)

  -- The span is in the tree, under its own id, and is not exited in another tree.
  abbrev pub Addable : SpanTree I D → IdSet I → I → Type (ℓ ⊔ κ)
  Addable tree exited id =
      (span : Span I D) × (lookup id tree.span_map ≡ some span)
      × (span.id ≡ id)
      × (has id exited ≡ false)

  -- What adding spans leaves of a tree: all ids, and all links from a parent to a child.
  pub record Grows (tree tree' : SpanTree I D) : Type ℓ where
    pub same_exited : tree'.exited ≡ tree.exited
    pub keeps_children :
        (p c : I)
        → has c (children_of p tree.children_map) ≡ true
        → has c (children_of p tree'.children_map) ≡ true
    pub keeps : (j : I) → has j tree.span_map ≡ true → has j tree'.span_map ≡ true

  pub refl-Grows : (tree : SpanTree I D) → Grows tree tree
  refl-Grows tree = record { same_exited = refl; keeps_children = λ p c h. h; keeps = λ j h. h }

  pub trans-Grows : (a b c : SpanTree I D) → Grows a b → Grows b c → Grows a c
  trans-Grows a b c g h = record {
    same_exited = h.same_exited ∙ g.same_exited;
    keeps_children = λ p c there. h.keeps_children p c (g.keeps_children p c there);
    keeps = λ j there. h.keeps j (g.keeps j there);
  }

  pub add-Grows :
      (tree : SpanTree I D) (span : Span I D) (parent_id : I)
      → has parent_id tree.exited ≡ false
      → (tree' : SpanTree I D) × (add tree span parent_id ≡ some tree')
        × Grows tree tree'
        × (has span.id tree'.span_map ≡ true)
        × (has span.id (children_of parent_id tree'.children_map) ≡ true)
  unfolding add
  add-Grows tree span parent_id open_parent =
      let child : Span I D = record span { parent = some parent_id } in
      (
        record tree {
          span_map = insert span.id child tree.span_map;
          children_map = add_child parent_id span.id tree.children_map;
          visitor_stack = push_unprocessed parent_id span.id tree.visitor_stack;
        },
        rw open_parent refl,
        record {
          same_exited = refl;
          keeps_children = λ p c there.
              has-add_child parent_id span.id p c tree.children_map ∙ rw there (ground arith);
          keeps = λ j there. has-insert span.id j child tree.span_map ∙ rw there (ground arith);
        },
        has-insert span.id span.id child tree.span_map
            ∙ rw ((e.beq_iff span.id span.id).1 refl) refl,
        has-add_child parent_id span.id parent_id span.id tree.children_map
            ∙ rw ((e.beq_iff span.id span.id).1 refl, (e.beq_iff parent_id parent_id).1 refl) refl,
      )

  -- An id of the other tree is in the tree, with links to all the children that it has there.
  abbrev pub Present : SpanTree I D → SpanTree I D → I → Type ℓ
  Present other tree id =
      (has id tree.span_map ≡ true)
      × ((c : I)
          → has c (children_of id other.children_map) ≡ true
          → has c (children_of id tree.children_map) ≡ true)

  pub Throughout-keeps :
      (other tree tree' : SpanTree I D) (fuel : ℕ) (id : I)
      → Grows tree tree'
      → Throughout other (Present other tree) fuel id
      → Throughout other (Present other tree') fuel id
  Throughout-keeps other tree tree' zero id g h = elim h [ ]
  Throughout-keeps other tree tree' (suc fuel) id g h = (
    (g.keeps id h.0.0, λ c there. g.keeps_children id c (h.0.1 c there)),
    All-map (λ j below. Throughout-keeps other tree tree' fuel j g below)
        (children_of id other.children_map) h.1,
  )

  -- The subtree of the other tree below an id is in the tree, below a parent.
  abbrev pub Grafted :
      ℕ → SpanTree I D → I → I → SpanTree I D → SpanTree I D → Option (SpanTree I D) → Type (ℓ ⊔ κ)
  Grafted fuel other parent_id id tree tree' result =
      (result ≡ some tree')
      × Grows tree tree'
      × Throughout other (Present other tree') fuel id
      × (has id (children_of parent_id tree'.children_map) ≡ true)

  each_child-Grows :
      (fuel : ℕ) (other : SpanTree I D) (exited : IdSet I) (parent_id : I)
      (visit : SpanTree I D → I → Option (SpanTree I D))
      → ((id : I) (tree : SpanTree I D)
          → Throughout other (Addable other exited) fuel id
          → tree.exited ≡ exited
          → (tree' : SpanTree I D) × Grafted fuel other parent_id id tree tree' (visit tree id))
      → (ids : IdSet I) (tree : SpanTree I D)
      → All (Throughout other (Addable other exited) fuel) ids
      → tree.exited ≡ exited
      → (tree' : SpanTree I D) × (each_child visit ids tree ≡ some tree')
        × Grows tree tree'
        × All (Throughout other (Present other tree') fuel) ids
        × All (λ c. has c (children_of parent_id tree'.children_map) ≡ true) ids
  unfolding each_child
  each_child-Grows fuel other exited parent_id visit rec [] tree all same =
      (tree, refl, refl-Grows tree, tt, tt)
  each_child-Grows fuel other exited parent_id visit rec ((id, s) ∷ ids) tree all same =
      let (first, (ran, g, below, hung)) = rec id tree all.0 same in
      let (last, rest, h, others, hang) =
        each_child-Grows fuel other exited parent_id visit rec ids first all.1
          (g.same_exited ∙ same) in
      (
        last,
        rw (ran, each_child) rest,
        trans-Grows tree first last g h,
        (Throughout-keeps other first last fuel id h below, others),
        (h.keeps_children parent_id id hung, hang),
      )

  add_subtree-Grows :
      (fuel : ℕ) (other : SpanTree I D) (exited : IdSet I) (parent_id id : I) (tree : SpanTree I D)
      → Throughout other (Addable other exited) fuel id
      → tree.exited ≡ exited
      → has parent_id exited ≡ false
      → (tree' : SpanTree I D) × Grafted fuel other parent_id id tree tree'
          (add_subtree fuel other parent_id id tree)
  unfolding add_subtree
  add_subtree-Grows zero other exited parent_id id tree h same open_parent = elim h [ ]
  add_subtree-Grows (suc fuel) other exited parent_id id tree ((span, there, own, unexited), below)
        same open_parent =
      let (first, ran, g, added, listed) =
        add-Grows tree span parent_id (ap (has parent_id) same ∙ open_parent) in
      let visit = λ (t : SpanTree I D) (child : I). add_subtree fuel other id child t in
      let (last, rest, h, others, hang) =
        each_child-Grows fuel other exited id visit
          (λ child t ok same'. add_subtree-Grows fuel other exited id child t ok same' unexited)
          (children_of id other.children_map) first below (g.same_exited ∙ same) in
      (
        last,
        (
          rw (there, add_subtree) (rw (ran, add_subtree) rest),
          trans-Grows tree first last g h,
          (
            (
              h.keeps id (subst (λ i. has i first.span_map ≡ true) own added),
              All-has (λ c. has c (children_of id last.children_map) ≡ true)
                  (children_of id other.children_map) hang,
            ),
            others,
          ),
          h.keeps_children parent_id id
              (subst (λ i. has i (children_of parent_id first.children_map) ≡ true) own listed),
        ),
      )

  -- Adding a tree that is no deeper than the fuel, whose spans are all in it under their own ids and
  -- not exited, under a parent that is not exited, succeeds. The result has the ids and the links of
  -- both trees, and a link from the parent to the root of the added tree.
  pub add_tree-Grafted :
      (fuel : ℕ) (child_tree : SpanTree I D) (parent_id : I) (tree : SpanTree I D)
      → Throughout child_tree (Addable child_tree tree.exited) fuel child_tree.root
      → has parent_id tree.exited ≡ false
      → (tree' : SpanTree I D) × Grafted fuel child_tree parent_id child_tree.root tree tree'
          (add_tree fuel child_tree parent_id tree)
  unfolding add_tree
  add_tree-Grafted fuel child_tree parent_id tree ok open_parent =
      add_subtree-Grows fuel child_tree tree.exited parent_id child_tree.root tree ok refl
        open_parent
