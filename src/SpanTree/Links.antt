-- ===== src/SpanTree/Links.antt =====
-- The links of pkg/frontend/tf/tree/tree.go say what the spans' references say.
use kelemetry.Base.{
  ◌≡◌, refl, sym, ap, subst, ◌∙◌, ◌≢◌, inl, inr, Bool, false, ◌&&◌, ◌||◌, Option, none, some, arith,
  if◌then◌else◌, Eq, ◌==◌, Bool-cases, Option-cases,
}
use kelemetry.Base.Map.{Map, lookup, insert, erase, has, lookup-insert, has-insert, has-erase}
use kelemetry.SpanTree.{
  struct, IdSet, Span, SpanTree, or_empty, children_of, add_child, remove_child, push_unprocessed,
  add, relink, move_from, move,
}

module _ {ℓ} {I : Type ℓ} ⦃e : Eq I⦄ where
  children_of-insert :
      (p q : I) (ids : IdSet I) (m : Map I (IdSet I))
      → children_of q (insert p ids m) ≡ (if p == q then ids else children_of q m)
  unfolding children_of or_empty
  children_of-insert p q ids m =
      ap or_empty (lookup-insert p q ids m)
      ∙ elim (Bool-cases (p == q)) [ inl t ↦ rw t refl | inr t ↦ rw t refl ]

  -- After a child joined a parent's set, and after one left it.
  pub has-add_child :
      (p c q j : I) (m : Map I (IdSet I))
      → has j (children_of q (add_child p c m)) ≡ (p == q && c == j || has j (children_of q m))
  unfolding add_child
  has-add_child p c q j m =
      ap (has j) (children_of-insert p q (insert c struct (children_of p m)) m)
      ∙ elim (Bool-cases (p == q)) [
        | inl t ↦
            rw (t, (e.beq_iff p q).0 t) (has-insert c j struct (children_of q m) ∙ ground arith)
        | inr t ↦ rw t refl
      ]

  has-remove_child :
      (p c q j : I) (m : Map I (IdSet I))
      → has j (children_of q (remove_child p c m))
        ≡ (if p == q && c == j then false else has j (children_of q m))
  unfolding remove_child or_empty has children_of
  has-remove_child p c q j m = elim (Option-cases (lookup p m)) [
    | inl missing ↦
        rw (missing, remove_child)
          (elim (Bool-cases (p == q)) [
            | inl t ↦
                let nothing : lookup q m ≡ none =
                  subst (λ i. lookup i m ≡ none) ((e.beq_iff p q).0 t) missing in
                rw (nothing, or_empty) (ground arith)
            | inr t ↦ rw t refl
          ])
    | inr (ids, there) ↦
        rw (there, remove_child)
          (ap (has j) (children_of-insert p q (erase c ids) m) ∙ elim (Bool-cases (p == q)) [
            | inl t ↦
                let here : lookup q m ≡ some ids =
                  subst (λ i. lookup i m ≡ some ids) ((e.beq_iff p q).0 t) there in
                rw (t, here, or_empty) (has-erase c j ids)
            | inr t ↦ rw t refl
          ])
  ]

module _ {ℓ κ} {I : Type ℓ} {D : Type κ} ⦃e : Eq I⦄ where
  -- Whether a span is there and has this parent.
  abbrev pub points : Option (Span I D) → I → Bool
  points none p = false
  points (some span) p = elim span.parent [ none ↦ false | some q ↦ q == p ]

  -- The children of a span are the spans whose parent it is.
  abbrev pub Linked : Map I (Span I D) → Map I (IdSet I) → Type ℓ
  Linked spans links = (p c : I) → has c (children_of p links) ≡ points (lookup c spans) p

  abbrev pub Sound : SpanTree I D → Type ℓ
  Sound tree = Linked tree.span_map tree.children_map

  pub insert-Linked :
      (spans : Map I (Span I D)) (links : Map I (IdSet I)) (span : Span I D) (parent_id : I)
      → Linked spans links
      → lookup span.id spans ≡ none
      → span.parent ≡ some parent_id
      → Linked (insert span.id span spans) (add_child parent_id span.id links)
  insert-Linked spans links span parent_id l fresh under p c =
      has-add_child parent_id span.id p c links ∙ elim (Bool-cases (span.id == c)) [
        | inl t ↦
            let absent : lookup c spans ≡ none =
              subst (λ i. lookup i spans ≡ none) ((e.beq_iff span.id c).0 t) fresh in
            rw (l p c, absent, lookup-insert span.id c span spans) (rw t (rw under (ground arith)))
        | inr t ↦ rw (l p c, lookup-insert span.id c span spans) (rw t (ground arith))
      ]

  -- Adding a span with a new id under a parent that the visit has not left succeeds, keeps the links
  -- and the references alike, gives the span its parent and changes no other span.
  add-Sound :
      (tree : SpanTree I D) (span : Span I D) (parent_id : I)
      → Sound tree
      → has parent_id tree.exited ≡ false
      → lookup span.id tree.span_map ≡ none
      → (tree' : SpanTree I D) × (add tree span parent_id ≡ some tree')
        × Sound tree'
        × ((j : I)
            → lookup j tree'.span_map ≡ (
                if span.id == j
                then some (record span { parent = some parent_id })
                else lookup j tree.span_map))
  unfolding add
  add-Sound tree span parent_id l open_parent fresh =
      let child : Span I D = record span { parent = some parent_id } in
      (
        record tree {
          span_map = insert span.id child tree.span_map;
          children_map = add_child parent_id span.id tree.children_map;
          visitor_stack = push_unprocessed parent_id span.id tree.visitor_stack;
        },
        rw open_parent refl,
        insert-Linked tree.span_map tree.children_map (record span { parent = some parent_id })
            parent_id l fresh refl,
        λ j. lookup-insert span.id j _ tree.span_map,
      )

  relink-Linked :
      (tree : SpanTree I D) (moved : Span I D) (id old new : I)
      → Sound tree
      → lookup id tree.span_map ≡ some moved
      → moved.parent ≡ some old
      → old ≢ new
      → Sound (relink tree moved id old new)
  unfolding relink
  relink-Linked tree moved id old new l there under other p c =
      has-remove_child old id p c (add_child new id tree.children_map)
      ∙ rw
          (
            has-add_child new id p c tree.children_map,
            l p c,
            lookup-insert id c (record moved { parent = some new }) tree.span_map,
          )
          (elim (Bool-cases (id == c)) [
            | inl t ↦
                let here : lookup c tree.span_map ≡ some moved =
                  subst (λ i. lookup i tree.span_map ≡ some moved) ((e.beq_iff id c).0 t) there in
                rw (t, here) (rw under (ground (arith, e.beq_iff old p, e.beq_iff new p, other)))
            | inr t ↦ rw t (ground arith)
          ])

  move-relink :
      (tree : SpanTree I D) (moved : Span I D) (id old new : I)
      → has new tree.exited ≡ false
      → lookup id tree.span_map ≡ some moved
      → moved.parent ≡ some old
      → move tree id new ≡ some (relink tree moved id old new)
  unfolding move
  move-relink tree moved id old new open_parent there under =
      rw open_parent (rw (there, move_from) (rw (under, move_from) refl))

  -- Moving a span that has a parent to another one that the visit has not left succeeds, keeps the
  -- links and the references alike, gives the span its new parent and changes no other span.
  pub move-Sound :
      (tree : SpanTree I D) (moved : Span I D) (id old new : I)
      → Sound tree
      → has new tree.exited ≡ false
      → lookup id tree.span_map ≡ some moved
      → moved.parent ≡ some old
      → old ≢ new
      → (tree' : SpanTree I D) × (move tree id new ≡ some tree')
        × Sound tree'
        × ((j : I)
            → lookup j tree'.span_map ≡ (
                if id == j
                then some (record moved { parent = some new })
                else lookup j tree.span_map))
  unfolding relink
  move-Sound tree moved id old new l open_parent there under other = (
    relink tree moved id old new,
    move-relink tree moved id old new open_parent there under,
    relink-Linked tree moved id old new l there under other,
    λ j. lookup-insert id j _ tree.span_map,
  )

  -- Moving a span to the parent that it has cuts it off: it still names its parent, and it is no
  -- child of it any more.
  pub move_to_same_parent :
      (tree : SpanTree I D) (moved : Span I D) (id parent_id : I)
      → has parent_id tree.exited ≡ false
      → lookup id tree.span_map ≡ some moved
      → moved.parent ≡ some parent_id
      → (tree' : SpanTree I D) × (move tree id parent_id ≡ some tree')
        × (lookup id tree'.span_map ≡ some moved)
        × (has id (children_of parent_id tree'.children_map) ≡ false)
  unfolding relink
  move_to_same_parent tree moved id parent_id open_parent there under = (
    relink tree moved id parent_id parent_id,
    move-relink tree moved id parent_id parent_id open_parent there under,
    lookup-insert id id (record moved { parent = some parent_id }) tree.span_map
        ∙ rw ((e.beq_iff id id).1 refl)
            (λ i. some (record { id = moved.id; parent = sym under i; payload = moved.payload })),
    has-remove_child parent_id id parent_id id (add_child parent_id id tree.children_map)
        ∙ rw ((e.beq_iff id id).1 refl, (e.beq_iff parent_id parent_id).1 refl) refl,
  )
