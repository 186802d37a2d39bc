-- ===== src/SpanTree/Visit/Quiet.antt =====
-- What the collector of `SetRoot` in pkg/frontend/tf/tree/tree.go sees of a tree.
use kelemetry.Base.{
  ℕ, zero, suc, ◌≡◌, refl, sym, ap, subst, ◌∙◌, inl, inr, Bool, true, false, ◌||◌, List, [], ◌∷◌,
  Option, some, arith, if◌then◌else◌, Eq, ◌==◌, Bool-cases,
}
use kelemetry.Base.Map.{
  Map, lookup, insert, erase, has, has-insert, has-lookup, lookup-insert, lookup-erase,
}
use kelemetry.SpanTree.{struct, IdSet, Span, SpanTree, children_of}
use kelemetry.SpanTree.Grafting.{All, Throughout}
use kelemetry.SpanTree.Visit.{
  or_done, ids_of, span_id_collector, visit_batch, drain_stack, exit_span, leave, push_stack, visit,
}

abbrev pub any {ℓ} : {I : Type ℓ} → (I → Bool) → IdSet I → Bool
any test [] = false
any test ((id, s) ∷ ids) = test id || any test ids

module _ {ℓ} {I : Type ℓ} ⦃e : Eq I⦄ where
  stack_insert :
      (id j : I) (ids : List I) (m : Map I (List I))
      → or_done (lookup j (insert id ids m)) ≡ (if id == j then ids else or_done (lookup j m))
  stack_insert id j ids m =
      rw (lookup-insert id j ids m)
        (elim (Bool-cases (id == j)) [ inl t ↦ rw t refl | inr t ↦ rw t refl ])

  stack_erase :
      (id j : I) (m : Map I (List I))
      → or_done (lookup j (erase id m)) ≡ (if id == j then [] else or_done (lookup j m))
  stack_erase id j m =
      rw (lookup-erase id j m)
        (elim (Bool-cases (id == j)) [ inl t ↦ rw t refl | inr t ↦ rw t refl ])

module _ {ℓ κ} {I : Type ℓ} {D : Type κ} ⦃e : Eq I⦄ where
  -- Whether an id is another one or among those below it, no deeper than the fuel.
  abbrev pub below : SpanTree I D → ℕ → I → I → Bool
  below tree zero k id = false
  below tree (suc fuel) k id = id == k || any (below tree fuel k) (children_of id tree.children_map)

  -- The span is in the tree, under its own id, and is no child of itself.
  abbrev pub IsNode : SpanTree I D → I → Type (ℓ ⊔ κ)
  IsNode tree id =
      (span : Span I D) × (lookup id tree.span_map ≡ some span)
      × (span.id ≡ id)
      × All (λ child. (child == id) ≡ false) (children_of id tree.children_map)

  pub record SameSpans (tree tree' : SpanTree I D) : Type (ℓ ⊔ κ) where
    pub same_spans : tree'.span_map ≡ tree.span_map
    pub same_children : tree'.children_map ≡ tree.children_map
    pub same_root : tree'.root ≡ tree.root

  -- What a visit leaves: the spans as they were, the ids that it came by added to the set, and no
  -- children to see where there were none.
  abbrev pub Collects :
      SpanTree I D
      → (I → Bool)
      → IdSet I
      → SpanTree I D
      → Option (IdSet I × SpanTree I D)
      → Type (ℓ ⊔ κ)
  Collects base among span_ids tree r =
      (ids' : IdSet I) × (tree' : SpanTree I D) × (r ≡ some (ids', tree'))
      × SameSpans base tree'
      × ((k : I) → has k ids' ≡ (among k || has k span_ids))
      × ((j : I)
          → or_done (lookup j tree.visitor_stack) ≡ []
          → or_done (lookup j tree'.visitor_stack) ≡ [])

  IsNode-child :
      (base : SpanTree I D) (fuel : ℕ) (id : I)
      → Throughout base (IsNode base) fuel id
      → IsNode base id
  IsNode-child base zero id h = elim h [ ]
  IsNode-child base (suc fuel) id h = h.0

  visit_batch-cons :
      (visit_child : IdSet I → SpanTree I D → I → Option (IdSet I × SpanTree I D))
      (parent_id child : I) (children : List I) (span_ids ids' : IdSet I)
      (tree tree' : SpanTree I D) (span : Span I D)
      → lookup child tree.span_map ≡ some span
      → (span.id == parent_id) ≡ false
      → visit_child span_ids tree span.id ≡ some (ids', tree')
      → visit_batch visit_child parent_id (child ∷ children) span_ids tree
        ≡ visit_batch visit_child parent_id children ids' tree'
  unfolding visit_batch
  visit_batch-cons visit_child parent_id child children span_ids ids' tree tree' span there other
        ran =
      rw (there, visit_batch) (rw other (rw (ran, visit_batch) refl))

  visit_batch-Collects :
      (base : SpanTree I D) (fuel : ℕ) (parent_id : I)
      (visit_child : IdSet I → SpanTree I D → I → Option (IdSet I × SpanTree I D))
      → ((span_ids : IdSet I) (tree : SpanTree I D) (id : I)
          → Throughout base (IsNode base) fuel id
          → SameSpans base tree
          → Collects base (λ k. below base fuel k id) span_ids tree (visit_child span_ids tree id))
      → (children : IdSet I) (span_ids : IdSet I) (tree : SpanTree I D)
      → All (Throughout base (IsNode base) fuel) children
      → All (λ child. (child == parent_id) ≡ false) children
      → SameSpans base tree
      → Collects base
          (λ k. any (below base fuel k) children)
          span_ids
          tree
          (visit_batch visit_child parent_id (ids_of children) span_ids tree)
  visit_batch-Collects base fuel parent_id visit_child rec [] span_ids tree nodes others same =
      unfold visit_batch in (span_ids, tree, refl, same, λ k. refl, λ j h. h)
  visit_batch-Collects base fuel parent_id visit_child rec ((child, s) ∷ children) span_ids tree
        nodes others same =
      let (span, there, own, _) = IsNode-child base fuel child nodes.0 in
      let (ids', tree', ran, same', has', quiet) = rec span_ids tree child nodes.0 same in
      let (ids'', tree'', ran', same'', has'', quiet') =
        visit_batch-Collects base fuel parent_id visit_child rec children ids' tree' nodes.1
          others.1 same' in
      (
        ids'',
        tree'',
        visit_batch-cons visit_child parent_id child (ids_of children) span_ids ids' tree tree' span
              (ap (lookup child) same.same_spans ∙ there)
              (subst (λ i. (i == parent_id) ≡ false) (sym own) others.0)
              (ap (visit_child span_ids tree) own ∙ ran)
            ∙ ran',
        same'',
        λ k. has'' k ∙ rw (has' k) (ground arith),
        λ j h. quiet' j (quiet j h),
      )

  drain_stack-two :
      (visit_child : IdSet I → SpanTree I D → I → Option (IdSet I × SpanTree I D)) (rounds : ℕ)
      (id child : I) (children : List I) (span_ids ids' : IdSet I) (tree tree' : SpanTree I D)
      → or_done (lookup id tree.visitor_stack) ≡ child ∷ children
      → visit_batch visit_child id
          (child ∷ children)
          span_ids
          (record tree { visitor_stack = insert id [] tree.visitor_stack })
        ≡ some (ids', tree')
      → or_done (lookup id tree'.visitor_stack) ≡ []
      → drain_stack (suc (suc rounds)) visit_child id span_ids tree ≡ some (ids', tree')
  unfolding drain_stack
  drain_stack-two visit_child rounds id child children span_ids ids' tree tree' stack ran empty =
      rw (stack, drain_stack) (rw (ran, drain_stack) (rw (empty, drain_stack) refl))

  -- The ids below a span in the stack entry are seen in one round.
  drain_stack-Collects :
      (base : SpanTree I D) (fuel rounds : ℕ) (id : I)
      (visit_child : IdSet I → SpanTree I D → I → Option (IdSet I × SpanTree I D))
      → ((span_ids : IdSet I) (tree : SpanTree I D) (id : I)
          → Throughout base (IsNode base) fuel id
          → SameSpans base tree
          → Collects base (λ k. below base fuel k id) span_ids tree (visit_child span_ids tree id))
      → (children : IdSet I) (span_ids : IdSet I) (tree : SpanTree I D)
      → All (Throughout base (IsNode base) fuel) children
      → All (λ child. (child == id) ≡ false) children
      → SameSpans base tree
      → or_done (lookup id tree.visitor_stack) ≡ ids_of children
      → (ids' : IdSet I) × (tree' : SpanTree I D) × (drain_stack
            (suc (suc rounds))
            visit_child
            id
            span_ids
            tree
          ≡ some (ids', tree'))
        × SameSpans base tree'
        × ((k : I) → has k ids' ≡ (any (below base fuel k) children || has k span_ids))
        × ((j : I)
            → (id == j) ≡ false
            → or_done (lookup j tree.visitor_stack) ≡ []
            → or_done (lookup j tree'.visitor_stack) ≡ [])
  drain_stack-Collects base fuel rounds id visit_child rec [] span_ids tree nodes others same
        stack =
      (
        span_ids,
        tree,
        unfold drain_stack in rw (stack, drain_stack) refl,
        same,
        λ k. refl,
        λ j other h. h,
      )
  drain_stack-Collects base fuel rounds id visit_child rec ((child, s) ∷ children) span_ids tree
        nodes others same stack =
      let emptied = record tree { visitor_stack = insert id [] tree.visitor_stack } in
      let self : (id == id) ≡ true = (e.beq_iff id id).1 refl in
      let same_emptied : SameSpans base emptied = record {
        same_spans = same.same_spans;
        same_children = same.same_children;
        same_root = same.same_root;
      } in
      let (ids', tree', ran, same', has', quiet) =
        visit_batch-Collects base fuel id visit_child rec ((child, s) ∷ children) span_ids emptied
          nodes others same_emptied in
      let empty : or_done (lookup id tree'.visitor_stack) ≡ [] =
        quiet id (stack_insert id id [] tree.visitor_stack ∙ rw self refl) in
      (
        ids',
        tree',
        drain_stack-two visit_child rounds id child (ids_of children) span_ids ids' tree tree' stack
            ran empty,
        same',
        has',
        λ j other h. quiet j (stack_insert id j [] tree.visitor_stack ∙ rw other h),
      )

  leave-SameSpans :
      (base tree : SpanTree I D) (id : I) → SameSpans base tree → SameSpans base (leave id tree)
  unfolding leave
  leave-SameSpans base tree id same = elim (Bool-cases (has id tree.span_map)) [
    | inl t ↦ rw t (record {
      same_spans = same.same_spans;
      same_children = same.same_children;
      same_root = same.same_root;
    })
    | inr t ↦ rw t same
  ]

  leave_stack : (tree : SpanTree I D) (id : I) → (leave id tree).visitor_stack ≡ tree.visitor_stack
  unfolding leave
  leave_stack tree id = elim (Bool-cases (has id tree.span_map)) [
    | inl t ↦ rw t refl
    | inr t ↦ rw t refl
  ]

  visit-drain_stack :
      (rounds fuel : ℕ) (span_ids ids' : IdSet I) (tree tree' : SpanTree I D) (id : I)
      → has id tree.span_map ≡ true
      → drain_stack rounds
          (visit span_id_collector rounds fuel (some tt))
          id
          (insert id struct span_ids)
          (push_stack id tree)
        ≡ some (ids', tree')
      → visit span_id_collector rounds (suc fuel) (some tt) span_ids tree id
        ≡ some (ids', leave id (record tree' { visitor_stack = erase id tree'.visitor_stack }))
  unfolding visit exit_span
  visit-drain_stack rounds fuel span_ids ids' tree tree' id there ran =
      rw there (ap (exit_span span_id_collector (some tt) id) ran)

  -- A visit by the collector comes by the spans below, once there is fuel for the depth of the tree.
  pub visit-Collects :
      (base : SpanTree I D) (rounds fuel : ℕ) (span_ids : IdSet I) (tree : SpanTree I D) (id : I)
      → Throughout base (IsNode base) fuel id
      → SameSpans base tree
      → Collects base
          (λ k. below base fuel k id)
          span_ids
          tree
          (visit span_id_collector (suc (suc rounds)) fuel (some tt) span_ids tree id)
  unfolding push_stack children_of
  visit-Collects base rounds zero span_ids tree id nodes same = elim nodes [ ]
  visit-Collects base rounds (suc fuel) span_ids tree id ((span, there, own, others), nodes) same =
      let here : lookup id tree.span_map ≡ some span = ap (lookup id) same.same_spans ∙ there in
      let present : has id tree.span_map ≡ true = elim (Bool-cases (has id tree.span_map)) [
        | inl t ↦ t
        | inr t ↦ let absent = (has-lookup id tree.span_map).0 t in absurd (cc)
      ] in
      let self : (id == id) ≡ true = (e.beq_iff id id).1 refl in
      let same_pushed : SameSpans base (push_stack id tree) = record {
        same_spans = same.same_spans;
        same_children = same.same_children;
        same_root = same.same_root;
      } in
      let (ids', tree', ran, same', has', quiet) =
        drain_stack-Collects base fuel rounds id
          (visit span_id_collector (suc (suc rounds)) fuel (some tt))
          (λ s t j n q. visit-Collects base rounds fuel s t j n q)
          (children_of id base.children_map) (insert id struct span_ids) (push_stack id tree) nodes
          others same_pushed
          (stack_insert id id (ids_of (children_of id tree.children_map)) tree.visitor_stack
            ∙ rw self (ap (λ m. ids_of (children_of id m)) same.same_children)) in
      let popped = record tree' { visitor_stack = erase id tree'.visitor_stack } in
      let same_popped : SameSpans base popped = record {
        same_spans = same'.same_spans;
        same_children = same'.same_children;
        same_root = same'.same_root;
      } in
      (
        ids',
        leave id popped,
        visit-drain_stack (suc (suc rounds)) fuel span_ids ids' tree tree' id present ran,
        leave-SameSpans base popped id same_popped,
        λ k. has' k ∙ rw (has-insert id k struct span_ids) (ground arith),
        λ j h.
            ap (λ m. or_done (lookup j m)) (leave_stack popped id)
            ∙ stack_erase id j tree'.visitor_stack
            ∙ elim (Bool-cases (id == j)) [
              | inl t ↦ rw t refl
              | inr t ↦ rw t (
                  quiet j t (
                    stack_insert id j (ids_of (children_of id tree.children_map)) tree.visitor_stack
                    ∙ rw t h))
            ],
      )
