-- ===== src/SpanTree/Load.antt =====
-- `NewSpanTree` of pkg/frontend/tf/tree/tree.go on the spans of a trace.
use kelemetry.Base.{
  ◌≡◌, refl, sym, ap, subst, ◌∙◌, ◌⊎◌, inl, inr, Bool, true, false, ◌||◌, List, [], ◌∷◌, Option,
  none, some, arith, if◌then◌else◌, Eq, ◌==◌, Bool-cases, Option-cases,
}
use kelemetry.Base.Map.{Map, lookup, insert, has, lookup-insert}
use kelemetry.SpanTree.{
  IdSet, Span, SpanTree, Loading, children_of, or_empty, link_to, link_span, link_all, rooted,
  new_span_tree,
}
use kelemetry.SpanTree.Links.{Linked, Sound, insert-Linked}

module _ {ℓ κ} {I : Type ℓ} {D : Type κ} ⦃e : Eq I⦄ where
  -- The first span of a list with an id.
  unfoldable pub find : I → List (Span I D) → Option (Span I D)
  find id [] = none
  find id (span ∷ spans) = if span.id == id then some span else find id spans

  -- No two spans have one id.
  abbrev pub DistinctIds : List (Span I D) → Type (ℓ ⊔ κ)
  DistinctIds [] = Unit
  DistinctIds (span ∷ spans) = (find span.id spans ≡ none) × DistinctIds spans

  abbrev pub is_root : Span I D → Bool
  is_root span = elim span.parent [ none ↦ true | some p ↦ false ]

  abbrev pub has_root : List (Span I D) → Bool
  has_root [] = false
  has_root (span ∷ spans) = is_root span || has_root spans

  insert_root-Linked :
      (spans : Map I (Span I D)) (links : Map I (IdSet I)) (span : Span I D)
      → Linked spans links
      → lookup span.id spans ≡ none
      → span.parent ≡ none
      → Linked (insert span.id span spans) links
  insert_root-Linked spans links span l fresh top p c = l p c ∙ elim (Bool-cases (span.id == c)) [
    | inl t ↦
        let absent : lookup c spans ≡ none =
          subst (λ i. lookup i spans ≡ none) ((e.beq_iff span.id c).0 t) fresh in
        rw (absent, lookup-insert span.id c span spans) (rw t (rw top refl))
    | inr t ↦ rw (lookup-insert span.id c span spans) (rw t refl)
  ]

  -- What one round of the loop leaves.
  abbrev LinksSpan : Loading I D → Span I D → Loading I D → Type (ℓ ⊔ κ)
  LinksSpan l span l' = Linked l'.spans l'.links × (l'.spans ≡ insert span.id span l.spans)

  link_span-Linked :
      (l : Loading I D) (span : Span I D)
      → Linked l.spans l.links
      → lookup span.id l.spans ≡ none
      → LinksSpan l span (link_span l span)
  unfolding link_span link_to
  link_span-Linked l span v fresh = elim (Option-cases span.parent) [
    | inl top ↦
        subst (λ o. LinksSpan l span (link_to l span o)) (sym top)
          (insert_root-Linked l.spans l.links span v fresh top, refl)
    | inr (p, under) ↦
        subst (λ o. LinksSpan l span (link_to l span o)) (sym under)
          (insert-Linked l.spans l.links span p v fresh under, refl)
  ]

  -- A span of the list before one that is there.
  abbrev pub found_or : Option (Span I D) → Option (Span I D) → Option (Span I D)
  found_or none o = o
  found_or (some span) o = some span

  abbrev Apart : Loading I D → List (Span I D) → Type (ℓ ⊔ κ)
  Apart l spans = (j : I) → (find j spans ≡ none) ⊎ (lookup j l.spans ≡ none)

  link_all-Linked :
      (l : Loading I D) (spans : List (Span I D))
      → Linked l.spans l.links
      → DistinctIds spans
      → Apart l spans
      → Linked (link_all l spans).spans (link_all l spans).links
        × ((j : I) → lookup j (link_all l spans).spans ≡ found_or (find j spans) (lookup j l.spans))
  unfolding link_all find
  link_all-Linked l [] v d apart = (v, λ j. refl)
  link_all-Linked l (span ∷ spans) v d apart =
      let self : (span.id == span.id) ≡ true = (e.beq_iff span.id span.id).1 refl in
      let fresh : lookup span.id l.spans ≡ none = ground (arith, apart span.id, self) in
      let (linked, stored) = link_span-Linked l span v fresh in
      let holds = λ (j : I). ap (lookup j) stored ∙ lookup-insert span.id j span l.spans in
      let later : Apart (link_span l span) spans = λ j. elim (Bool-cases (span.id == j)) [
        | inl t ↦ inl (subst (λ i. find i spans ≡ none) ((e.beq_iff span.id j).0 t) d.0)
        | inr t ↦ elim (apart j) [
          | inl gone ↦ inl (rw t at gone)
          | inr missing ↦ inr (holds j ∙ rw t missing)
        ]
      ] in
      let (rest, finds) = link_all-Linked (link_span l span) spans linked d.1 later in
      (
        rest,
        λ j.
            finds j
            ∙ rw (holds j) (elim (Bool-cases (span.id == j)) [
              | inl t ↦
                  let gone = subst (λ i. find i spans ≡ none) ((e.beq_iff span.id j).0 t) d.0 in
                  rw (t, gone) refl
              | inr t ↦ rw t refl
            ]),
      )

  -- The root that the loop leaves.
  abbrev RootFound : Loading I D → List (Span I D) → Type (ℓ ⊔ κ)
  RootFound l spans =
      ((has_root spans ≡ false) × ((link_all l spans).last_root ≡ l.last_root))
      ⊎ ((s : Span I D) × ((link_all l spans).last_root ≡ some s.id)
          × (find s.id spans ≡ some s)
          × (s.parent ≡ none))

  link_all-RootFound :
      (l : Loading I D) (spans : List (Span I D)) → DistinctIds spans → RootFound l spans
  unfolding link_all link_span link_to find
  link_all-RootFound l [] d = inl (refl, refl)
  link_all-RootFound l (span ∷ spans) d = elim (link_all-RootFound (link_span l span) spans d.1) [
    | inr (s, last, found, top) ↦ inr (
      s,
      last,
      elim (Bool-cases (span.id == s.id)) [
        | inl t ↦
            let gone = subst (λ i. find i spans ≡ none) ((e.beq_iff span.id s.id).0 t) d.0 in
            absurd (cc)
        | inr t ↦ rw t found
      ],
      top,
    )
    | inl (none_later, same) ↦ elim (Option-cases span.parent) [
      | inl top ↦ inr (
        span,
        same ∙ ap (λ o. (link_to l span o).last_root) top,
        rw ((e.beq_iff span.id span.id).1 refl) refl,
        top,
      )
      | inr (p, under) ↦
          inl (rw (under, is_root) none_later, same ∙ ap (λ o. (link_to l span o).last_root) under)
    ]
  ]

  abbrev pub empty : Loading I D
  empty = record { spans = []; links = []; last_root = none }

  -- The spans of a trace, no two with one id, one at least with no reference, load into a tree: every
  -- span stands under its id, each is a child of the span that it refers to, and the root is one
  -- that refers to none.
  pub new_span_tree-Sound :
      (spans : List (Span I D))
      → DistinctIds spans
      → has_root spans ≡ true
      → (tree : SpanTree I D) × (root : Span I D) × (new_span_tree spans ≡ some tree)
        × Sound tree
        × ((j : I) → lookup j tree.span_map ≡ find j spans)
        × (tree.root ≡ root.id)
        × (find root.id spans ≡ some root)
        × (root.parent ≡ none)
  unfolding new_span_tree find rooted children_of or_empty has lookup
  new_span_tree-Sound spans d some_root = elim (link_all-RootFound empty spans d) [
    | inl (no_root, _) ↦ absurd (cc)
    | inr (root, last, found, top) ↦
        let (linked, finds) = link_all-Linked empty spans (λ p c. refl) d (λ j. inr refl) in
        let l = link_all empty spans in
        (
          record {
            span_map = l.spans;
            children_map = l.links;
            visitor_stack = [];
            exited = [];
            root = root.id;
          },
          root,
          ap (rooted l) last,
          linked,
          λ j.
              finds j
              ∙ elim (Option-cases (find j spans)) [ inl t ↦ rw t refl | inr (s, t) ↦ rw t refl ],
          refl,
          found,
          top,
        )
  ]

  pub has_root-find :
      (id : I) (spans : List (Span I D)) (s : Span I D)
      → find id spans ≡ some s
      → s.parent ≡ none
      → has_root spans ≡ true
  unfolding find
  has_root-find id [] s found top = absurd (cc)
  has_root-find id (span ∷ spans) s found top = elim (Bool-cases (span.id == id)) [
    | inl t ↦
        let same : span ≡ s = cc (rw t at found) in rw (ap (λ x. x.parent) same ∙ top, is_root) refl
    | inr t ↦ rw (has_root-find id spans s (rw t at found) top) (ground arith)
  ]

  -- A trace, no two spans of it with one id, in which every span refers to another one makes the
  -- load panic.
  pub new_span_tree_rootless :
      (spans : List (Span I D))
      → DistinctIds spans
      → has_root spans ≡ false
      → new_span_tree spans ≡ none
  unfolding new_span_tree rooted
  new_span_tree_rootless spans d no_root = elim (link_all-RootFound empty spans d) [
    | inl (_, last) ↦ ap (rooted (link_all empty spans)) last
    | inr (root, last, found, top) ↦
        let some_root = has_root-find root.id spans root found top in absurd (cc)
  ]
