-- ===== src/Steps/Transform/Prepared.antt =====
-- The tree that the steps of pkg/frontend/tf/transform.go get: the spans of the trace and those of
-- its extensions, which extension.go hangs below the trace.
use kelemetry.Base.{
  ◌≡◌, refl, sym, ap, subst, ◌∙◌, inl, inr, true, false, List, [], ◌∷◌, ◌++◌, Option, none, some,
  String, Eq, string_eq, Option-cases,
}
use kelemetry.Base.Map.{Map, lookup}
use kelemetry.SpanTree.{Span, SpanTree, Loading, link_all, rooted, new_span_tree}
use kelemetry.SpanTree.Links.{Sound}
use kelemetry.SpanTree.Load.{
  find, DistinctIds, has_root, found_or, new_span_tree-Sound, has_root-find,
}
use kelemetry.Steps.Transform.{
  loaded, ExtensionCache, LoadCache, Config, get_spans, load_extensions, run_steps, finished,
  stepped, extended, config_for, transform_by, transform,
}
use kelemetry.Steps.Transform.Spans.{
  Keyed, link_all-Keyed, find-get_spans, get_spans-DistinctIds, find-append, Disjoint,
  append-DistinctIds,
}
use kelemetry.Steps.Transform.Rootless.{Rootless, load_extensions-Rootless}

module _ {ℓ κ} {I : Type ℓ} {D : Type κ} ⦃e : Eq I⦄ where
  -- What the tree of a loaded trace keeps, with the spans of the extensions.
  abbrev pub Extends : List (Span I D) → List (Span I D) → SpanTree I D → Type (ℓ ⊔ κ)
  Extends ext trace tree =
      Sound tree
      × ((j : I) → lookup j tree.span_map ≡ found_or (find j ext) (find j trace))
      × (root : Span I D) × (tree.root ≡ root.id)
      × (find root.id trace ≡ some root)
      × (root.parent ≡ none)

  abbrev empty : Loading I D
  empty = record { spans = []; links = []; last_root = none }

  abbrev TreeKeyed : Option (SpanTree I D) → Type (ℓ ⊔ κ)
  TreeKeyed none = Unit
  TreeKeyed (some tree) = Keyed tree.span_map

  rooted-TreeKeyed : (l : Loading I D) (root : Option I) → Keyed l.spans → TreeKeyed (rooted l root)
  unfolding rooted
  rooted-TreeKeyed l none k = tt
  rooted-TreeKeyed l (some root) k = k

  new_span_tree-Keyed :
      (spans : List (Span I D)) (tree : SpanTree I D)
      → new_span_tree spans ≡ some tree
      → Keyed tree.span_map
  unfolding new_span_tree
  new_span_tree-Keyed spans tree h =
      let l = link_all empty spans in
      subst TreeKeyed h (rooted-TreeKeyed l l.last_root (link_all-Keyed empty spans tt))

  -- A root that is found in the extensions or else in the trace is one of the trace.
  root_in_trace :
      (ext : List (Span I D)) (id : I) (other : Option (Span I D)) (root : Span I D)
      → has_root ext ≡ false
      → root.parent ≡ none
      → found_or (find id ext) other ≡ some root
      → other ≡ some root
  root_in_trace ext id other root rootless top h = elim (Option-cases (find id ext)) [
    | inl t ↦ rw t at h
    | inr (s, t) ↦
        let there : some s ≡ some root = rw t at h in
        absurd (cc (has_root-find id ext root (t ∙ there) top))
  ]

  -- The second load of a trace, with spans of which none is a root.
  reload-Extends :
      (ext trace : List (Span I D))
      → DistinctIds trace
      → has_root trace ≡ true
      → DistinctIds ext
      → Disjoint ext trace
      → has_root ext ≡ false
      → (first tree : SpanTree I D) × (new_span_tree trace ≡ some first)
        × (new_span_tree (ext ++ get_spans first.span_map) ≡ some tree)
        × Extends ext trace tree
  reload-Extends ext trace d some_root d' apart rootless =
      let (first, root, ran, _, finds, _, found, top) = new_span_tree-Sound trace d some_root in
      let keyed = new_span_tree-Keyed trace first ran in
      let spans = get_spans first.span_map in
      let same = λ (j : I). find-get_spans j first.span_map keyed ∙ finds j in
      let all_find =
        λ (j : I). find-append j ext spans ∙ ap (λ o. found_or (find j ext) o) (same j) in
      let apart' : Disjoint ext spans =
        λ j. elim (apart j) [ inl gone ↦ inl gone | inr gone ↦ inr (same j ∙ gone) ] in
      let distinct = append-DistinctIds ext spans d' (get_spans-DistinctIds _ keyed) apart' in
      let gone : find root.id ext ≡ none = elim (Option-cases (find root.id ext)) [
        | inl t ↦ t
        | inr (s, t) ↦ elim (apart root.id) [ inl g ↦ g | inr g ↦ absurd (cc) ]
      ] in
      let root_there =
        has_root-find root.id (ext ++ spans) root (all_find root.id ∙ rw (gone, found) refl) top in
      let (tree, new_root, loads, sound, holds, is, at, new_top) =
        new_span_tree-Sound (ext ++ spans) distinct root_there in
      (
        first,
        tree,
        ran,
        loads,
        (
          sound,
          λ j. holds j ∙ all_find j,
          new_root,
          is,
          root_in_trace ext new_root.id (find new_root.id trace) new_root rootless new_top
              (sym (all_find new_root.id) ∙ at),
          new_top,
        ),
      )

module _ {ℓ κ μ ν} {I : Type ℓ} {D : Type κ} {E : Type μ} {C : Type ν} ⦃e : Eq I⦄
    ⦃config_eq : Eq C⦄ where
  -- A trace with distinct ids, with a span that refers to none, for a known configuration, or else a
  -- known default, and with cached extensions that load, have distinct ids and share none with the
  -- trace: `Transform` runs the steps on a tree of all these spans, which keeps links and references
  -- alike and whose root is a span of the trace that refers to none, and answers the spans of the
  -- tree that the steps leave. It panics only if a step does.
  pub transform-Extends :
      (configs : Map C (Config I D E)) (default_id config_id : C) (config : Config I D E)
      (factories : Map String (String → Option (LoadCache I D))) (with_trace : D → D)
      (caches : List (ExtensionCache I)) (head : Span I D) (tail ext : List (Span I D))
      → DistinctIds (head ∷ tail)
      → has_root (head ∷ tail) ≡ true
      → config_for configs default_id (lookup config_id configs) ≡ some config
      → load_extensions factories with_trace caches ≡ loaded ext
      → DistinctIds ext
      → Disjoint ext (head ∷ tail)
      → (tree : SpanTree I D) × Extends ext (head ∷ tail) tree
        × (transform configs default_id config_id
              (λ extensions spans. load_extensions factories with_trace caches)
              (head ∷ tail)
            ≡ finished (run_steps config.steps tree))
  unfolding transform transform_by extended stepped
  transform-Extends configs default_id config_id config factories with_trace caches head tail ext d
        some_root known loads d' apart =
      let rootless : has_root ext ≡ false =
        subst Rootless loads (load_extensions-Rootless factories with_trace caches) in
      let (first, tree, ran, again, extends) =
        reload-Extends ext (head ∷ tail) d some_root d' apart rootless in
      (tree, extends, rw (known, ran, transform_by) (rw (loads, extended) (rw again refl)))
