-- ===== src/SpanTree/Visit/Rooted.antt =====
-- What `SetRoot` of pkg/frontend/tf/tree/tree.go leaves of a tree.
use kelemetry.Base.{
  ℕ, suc, ◌≡◌, refl, ap, subst, ◌∙◌, inl, inr, Bool, true, false, ◌||◌, [], ◌∷◌, none, some, arith,
  if◌then◌else◌, Eq, ◌==◌, Bool-cases,
}
use kelemetry.Base.Map.{Map, lookup, insert, has}
use kelemetry.SpanTree.{IdSet, Span, SpanTree}
use kelemetry.SpanTree.Grafting.{Throughout}
use kelemetry.SpanTree.Visit.{span_id_collector, visit, keep, prune, changed, set_root, is_empty}
use kelemetry.SpanTree.Visit.Quiet.{below, IsNode, visit-Collects}

module _ {ℓ κ} {I : Type ℓ} {A : Type κ} ⦃e : Eq I⦄ where
  lookup-keep :
      (span_ids : IdSet I) (k : I) (m : Map I A)
      → lookup k (keep span_ids m) ≡ (if has k span_ids then lookup k m else none)
  unfolding keep lookup
  lookup-keep span_ids k [] = ground arith
  lookup-keep span_ids k ((j, a) ∷ m) = elim (Bool-cases (j == k)) [
    | inl t ↦ elim (Bool-cases (has j span_ids)) [
      | inl b ↦
          let b' = subst (λ i. has i span_ids ≡ true) ((e.beq_iff j k).0 t) b in rw (b, b', t) refl
      | inr b ↦
          let b' = subst (λ i. has i span_ids ≡ false) ((e.beq_iff j k).0 t) b in
          rw (b, b') (lookup-keep span_ids k m ∙ rw b' refl)
    ]
    | inr t ↦ elim (Bool-cases (has j span_ids)) [
      | inl b ↦ rw (b, t) (lookup-keep span_ids k m)
      | inr b ↦ rw (b, t) (lookup-keep span_ids k m)
    ]
  ]

  keep-same :
      (span_ids : IdSet I) (k : I) (b : Bool) (m m' : Map I A)
      → has k span_ids ≡ (b || false)
      → m ≡ m'
      → lookup k (keep span_ids m) ≡ (if b then lookup k m' else none)
  keep-same span_ids k true m m' h same = lookup-keep span_ids k m ∙ rw h (ap (lookup k) same)
  keep-same span_ids k false m m' h same = lookup-keep span_ids k m ∙ rw h refl

module _ {ℓ κ} {I : Type ℓ} {D : Type κ} ⦃e : Eq I⦄ where
  -- The tree with the new root, before anything is pruned.
  abbrev pub rooted_at : SpanTree I D → I → Span I D → SpanTree I D
  rooted_at tree id new_root = record tree {
    span_map = insert id (record new_root { parent = none }) tree.span_map;
    root = id;
  }

  set_root-visit :
      (rounds fuel : ℕ) (tree tree' : SpanTree I D) (id : I) (new_root : Span I D) (ids' : IdSet I)
      → is_empty tree.visitor_stack ≡ true
      → lookup id tree.span_map ≡ some new_root
      → visit span_id_collector rounds fuel (some tt) [] (rooted_at tree id new_root) id
        ≡ some (ids', tree')
      → set_root rounds fuel tree id
        ≡ changed (record tree' {
          span_map = keep ids' tree'.span_map;
          children_map = keep ids' tree'.children_map;
        })
  unfolding set_root prune
  set_root-visit rounds fuel tree tree' id new_root ids' idle there ran =
      rw idle (rw (there, set_root) (ap prune ran))

  -- `SetRoot` outside of a visit, on a tree whose spans below the new root are all there under their
  -- own ids and no children of themselves, and no deeper than the fuel: it succeeds, the new root
  -- has no parent, and exactly the spans below it are left, with their children.
  pub set_root-below :
      (rounds fuel : ℕ) (tree : SpanTree I D) (id : I) (new_root : Span I D)
      → tree.visitor_stack ≡ []
      → lookup id tree.span_map ≡ some new_root
      → Throughout (rooted_at tree id new_root) (IsNode (rooted_at tree id new_root)) fuel id
      → (tree' : SpanTree I D) × (set_root (suc (suc rounds)) fuel tree id ≡ changed tree')
        × (tree'.root ≡ id)
        × ((k : I)
            → lookup k tree'.span_map ≡ (
                if below (rooted_at tree id new_root) fuel k id
                then lookup k (rooted_at tree id new_root).span_map
                else none))
        × ((k : I)
            → lookup k tree'.children_map ≡ (
                if below (rooted_at tree id new_root) fuel k id
                then lookup k tree.children_map
                else none))
  unfolding has
  set_root-below rounds fuel tree id new_root idle there nodes =
      let base = rooted_at tree id new_root in
      let (ids', tree', ran, same, has', quiet) =
        visit-Collects base rounds fuel [] base id nodes
          (record { same_spans = refl; same_children = refl; same_root = refl }) in
      (
        record tree' {
          span_map = keep ids' tree'.span_map;
          children_map = keep ids' tree'.children_map;
        },
        set_root-visit (suc (suc rounds)) fuel tree tree' id new_root ids' (ap is_empty idle) there
            ran,
        same.same_root,
        λ k.
            keep-same ids' k (below base fuel k id) tree'.span_map base.span_map (has' k)
              same.same_spans,
        λ k.
            keep-same ids' k (below base fuel k id) tree'.children_map tree.children_map (has' k)
              same.same_children,
      )
