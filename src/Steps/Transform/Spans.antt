-- ===== src/Steps/Transform/Spans.antt =====
-- The spans that a tree of pkg/frontend/tf/tree/tree.go has, as a list, and lists of spans appended.
use kelemetry.Base.{
  ◌≡◌, refl, sym, ◌∙◌, ◌⊎◌, inl, inr, true, false, List, [], ◌∷◌, ◌++◌, none, some, arith, Eq, ◌==◌,
  string_eq, Bool-cases, Option-cases,
}
use kelemetry.Base.Map.{Map, lookup, insert, lookup-insert}
use kelemetry.SpanTree.{Span, Loading, link_to, link_span, link_all}
use kelemetry.SpanTree.Load.{find, DistinctIds, found_or}
use kelemetry.Steps.Transform.{get_spans}

module _ {ℓ κ} {I : Type ℓ} {D : Type κ} ⦃e : Eq I⦄ where
  -- Each key stands once, with the span of that id.
  abbrev pub Keyed : Map I (Span I D) → Type (ℓ ⊔ κ)
  Keyed [] = Unit
  Keyed ((id, span) ∷ more) = (span.id ≡ id) × (lookup id more ≡ none) × Keyed more

  pub insert-Keyed :
      (span : Span I D) (m : Map I (Span I D)) → Keyed m → Keyed (insert span.id span m)
  unfolding insert lookup
  insert-Keyed span [] k = (refl, refl, tt)
  insert-Keyed span ((id, old) ∷ more) (same, alone, k) = elim (Bool-cases (id == span.id)) [
    | inl t ↦ rw t (sym ((e.beq_iff id span.id).0 t), alone, k)
    | inr t ↦
        let apart : (span.id == id) ≡ false =
          ground (arith, e.beq_iff id span.id, e.beq_iff span.id id) in
        rw t (same, lookup-insert span.id id span more ∙ rw apart alone, insert-Keyed span more k)
  ]

  pub link_all-Keyed :
      (l : Loading I D) (spans : List (Span I D)) → Keyed l.spans → Keyed (link_all l spans).spans
  unfolding link_all link_span link_to
  link_all-Keyed l [] k = k
  link_all-Keyed l (span ∷ spans) k =
      link_all-Keyed (link_span l span) spans (elim (Option-cases span.parent) [
        | inl top ↦ rw (top, link_to) (insert-Keyed span l.spans k)
        | inr (p, under) ↦ rw (under, link_to) (insert-Keyed span l.spans k)
      ])

  pub find-get_spans : (j : I) (m : Map I (Span I D)) → Keyed m → find j (get_spans m) ≡ lookup j m
  unfolding find get_spans lookup
  find-get_spans j [] k = refl
  find-get_spans j ((id, span) ∷ more) (same, alone, k) = rw (same, find-get_spans j more k) refl

  pub get_spans-DistinctIds : (m : Map I (Span I D)) → Keyed m → DistinctIds (get_spans m)
  unfolding get_spans
  get_spans-DistinctIds [] k = tt
  get_spans-DistinctIds ((id, span) ∷ more) (same, alone, k) =
      (find-get_spans span.id more k ∙ rw same alone, get_spans-DistinctIds more k)

  pub find-append :
      (j : I) (xs ys : List (Span I D)) → find j (xs ++ ys) ≡ found_or (find j xs) (find j ys)
  unfolding find
  find-append j [] ys = refl
  find-append j (x ∷ xs) ys = elim (Bool-cases (x.id == j)) [
    | inl t ↦ rw t refl
    | inr t ↦ rw t (find-append j xs ys)
  ]

  -- No id is in both lists.
  abbrev pub Disjoint : List (Span I D) → List (Span I D) → Type (ℓ ⊔ κ)
  Disjoint xs ys = (j : I) → (find j xs ≡ none) ⊎ (find j ys ≡ none)

  pub append-DistinctIds :
      (xs ys : List (Span I D))
      → DistinctIds xs
      → DistinctIds ys
      → Disjoint xs ys
      → DistinctIds (xs ++ ys)
  unfolding find
  append-DistinctIds [] ys d d' apart = d'
  append-DistinctIds (x ∷ xs) ys (alone, d) d' apart =
      let self : (x.id == x.id) ≡ true = (e.beq_iff x.id x.id).1 refl in
      let absent : find x.id ys ≡ none = elim (apart x.id) [
        | inl gone ↦ absurd (let stands : some x ≡ none = rw self at gone in cc)
        | inr gone ↦ gone
      ] in
      (
        find-append x.id xs ys ∙ rw (alone, absent) refl,
        append-DistinctIds xs ys d d' (λ j. elim (apart j) [
          | inr gone ↦ inr gone
          | inl gone ↦ elim (Bool-cases (x.id == j)) [
            | inl t ↦ absurd (let stands : some x ≡ none = rw t at gone in cc)
            | inr t ↦ inl (rw t at gone)
          ]
        ]),
      )
