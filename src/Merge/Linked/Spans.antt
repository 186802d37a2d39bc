-- ===== src/Merge/Linked/Spans.antt =====
-- The spans of the tree that `mergeLinkedTraces` of pkg/frontend/reader/merge/merge.go answers.
use kelemetry.Base.{
  ℕ, zero, suc, ◌≡◌, refl, subst, ◌∙◌, ◌⊎◌, inl, inr, Bool, true, [], ◌∷◌, some, Eq, ◌==◌,
  string_eq, Bool-cases,
}
use kelemetry.Base.Map.{Map, lookup, has, has-lookup}
use kelemetry.Aggregator.{Key}
use kelemetry.SpanTree.{IdSet, children_of, Span, SpanTree}
use kelemetry.SpanTree.Grafting.{
  All, All-map, Throughout, Addable, Present, Grows, Throughout-keeps,
}
use kelemetry.Merge.{key_eq}
use kelemetry.Merge.Roots.{Content}
use kelemetry.Merge.Objects.{Object}
use kelemetry.Merge.Linked.{Merging, fits, fit_all, all_fit}
use kelemetry.Merge.Linked.Attached.{mem, links_to}

-- What no outcome is.
pub data NotHere {ℓ} : Type ℓ where

found_in {ℓ κ} :
    {K : Type ℓ} {V : Type κ} ⦃e : Eq K⦄ (k : K) (m : Map K V) (v : V)
    → lookup k m ≡ some v
    → has k m ≡ true
found_in k m v h = elim (Bool-cases (has k m)) [
  | inl t ↦ t
  | inr t ↦ let nothing = (has-lookup k m).0 t in absurd (cc)
]

fit_all-All {ℓ κ} :
    {I : Type ℓ} (P : I → Type κ) (fit : I → Bool)
    → ((id : I) → P id → fit id ≡ true)
    → (ids : IdSet I) → All P ids
    → fit_all fit ids ≡ true
unfolding fit_all
fit_all-All P fit ok [] h = refl
fit_all-All P fit ok ((id, s) ∷ ids) h = rw (ok id h.0) (fit_all-All P fit ok ids h.1)

module _ {ℓ κ} {I : Type ℓ} {D : Type κ} ⦃e : Eq I⦄ where
  fits-Throughout :
      (fuel : ℕ) (tree : SpanTree I D) (id : I)
      → Throughout tree (Addable tree []) fuel id
      → fits fuel tree id ≡ true
  unfolding fits
  fits-Throughout zero tree id h = elim h [ ]
  fits-Throughout (suc fuel) tree id h =
      fit_all-All (Throughout tree (Addable tree []) fuel) (fits fuel tree)
        (fits-Throughout fuel tree) (children_of id tree.children_map) h.1

  pub Addable-found :
      (fuel : ℕ) (tree : SpanTree I D) (id : I)
      → Throughout tree (Addable tree []) fuel id
      → (span : Span I D) × (lookup id tree.span_map ≡ some span) × (span.id ≡ id)
  Addable-found zero tree id h = elim h [ ]
  Addable-found (suc fuel) tree id ((span, there, own, unexited), below) = (span, there, own)

  pub Addable-Present :
      (fuel : ℕ) (tree : SpanTree I D) (id : I)
      → Throughout tree (Addable tree []) fuel id
      → Throughout tree (Present tree tree) fuel id
  Addable-Present zero tree id h = elim h [ ]
  Addable-Present (suc fuel) tree id ((span, there, own, unexited), below) = (
    (found_in id tree.span_map span there, λ c h. h),
    All-map (λ j h. Addable-Present fuel tree j h) (children_of id tree.children_map) below,
  )

module _ {ℓ κ μ} {I : Type ℓ} {L : Type κ} {M : Type μ} ⦃e : Eq I⦄ (depth : ℕ) where
  -- The tree of an object has its spans under their own ids, is no deeper than `depth`, and no visit
  -- has left any of its spans.
  abbrev pub SoundTree : Object I L M → Type (ℓ ⊔ κ)
  SoundTree object =
      (object.tree.exited ≡ [])
      × Throughout object.tree (Addable object.tree []) depth object.tree.root

  abbrev pub SoundTrees : Map Key (Object I L M) → Type (ℓ ⊔ κ)
  SoundTrees [] = Unit
  SoundTrees ((k, object) ∷ more) = SoundTree object × SoundTrees more

  pub SoundTrees-lookup :
      (trees : Map Key (Object I L M)) (k : Key) (object : Object I L M)
      → SoundTrees trees
      → lookup k trees ≡ some object
      → SoundTree object
  unfolding lookup
  SoundTrees-lookup [] k object sound h = absurd (cc)
  SoundTrees-lookup ((j, own) ∷ more) k object sound h = elim (Bool-cases (j == k)) [
    | inl t ↦
        let found : some own ≡ some object = rw t at h in
        let same : own ≡ object = cc in subst SoundTree same sound.0
    | inr t ↦ SoundTrees-lookup more k object sound.1 (rw t at h)
  ]

  pub SoundTrees-all_fit :
      (trees : Map Key (Object I L M)) → SoundTrees trees → all_fit depth trees ≡ true
  unfolding all_fit
  SoundTrees-all_fit [] sound = refl
  SoundTrees-all_fit ((k, object) ∷ more) sound =
      rw (fits-Throughout depth object.tree object.tree.root sound.0.1)
        (SoundTrees-all_fit more sound.1)

  -- A span id is the root of an object, or a child of that root.
  abbrev pub Place : I → Object I L M → SpanTree I (Content L) → Type ℓ
  Place id subject tree =
      (id ≡ subject.tree.root) ⊎ (has id (children_of subject.tree.root tree.children_map) ≡ true)

  -- The root of an object is a child of a place of an object that has a link to it as a child.
  abbrev pub Hangs :
      Map Key (Object I L M) → Key → Object I L M → SpanTree I (Content L) → Type (ℓ ⊔ κ ⊔ μ)
  Hangs trees k object tree =
      (u : Key) × (subject : Object I L M) × (lookup u trees ≡ some subject)
      × (links_to k subject.links ≡ true)
      × ((id : I) × Place id subject tree
          × (has object.tree.root (children_of id tree.children_map) ≡ true))

  pub Place-grown :
      (id : I) (subject : Object I L M) (tree tree' : SpanTree I (Content L))
      → Grows tree tree'
      → Place id subject tree
      → Place id subject tree'
  Place-grown id subject tree tree' g (inl same) = inl same
  Place-grown id subject tree tree' g (inr h) = inr (g.keeps_children subject.tree.root id h)

  Hangs-grown :
      (trees : Map Key (Object I L M)) (top k : Key) (object : Object I L M)
      (tree tree' : SpanTree I (Content L))
      → Grows tree tree'
      → (top ≡ k) ⊎ Hangs trees k object tree
      → (top ≡ k) ⊎ Hangs trees k object tree'
  Hangs-grown trees top k object tree tree' g (inl is) = inl is
  Hangs-grown trees top k object tree tree' g (inr (u, subject, look, links, (id, place, child))) =
      inr (
        u,
        subject,
        look,
        links,
        (id, Place-grown id subject tree tree' g place, g.keeps_children id object.tree.root child),
      )

  -- What holds of the merged tree in every round: no span of it is exited, each object of it has its
  -- spans and links there and hangs below another, and the pending keys are objects.
  pub record Good (trees : Map Key (Object I L M)) (top : Key) (m : Merging I L)
      : Type (ℓ ⊔ κ ⊔ μ) where
    pub open_tree : m.tree.exited ≡ []
    pub hangs :
        (k : Key) (object : Object I L M)
        → has k m.tree_objects ≡ true
        → lookup k trees ≡ some object
        → (top ≡ k) ⊎ Hangs trees k object m.tree
    pub spans :
        (k : Key) (object : Object I L M)
        → has k m.tree_objects ≡ true
        → lookup k trees ≡ some object
        → Throughout object.tree (Present object.tree m.tree) depth object.tree.root
    pub known : (k : Key) → mem k m.pending_objects ≡ true → has k trees ≡ true

  pub Good-grown :
      (trees : Map Key (Object I L M)) (top : Key) (m : Merging I L) (tree : SpanTree I (Content L))
      (drawn : ℕ)
      → Good trees top m
      → Grows m.tree tree
      → Good trees top (record m { tree = tree; drawn = drawn })
  Good-grown trees top m tree drawn good g = record {
    open_tree = g.same_exited ∙ good.open_tree;
    hangs = λ k object there look.
        Hangs-grown trees top k object m.tree tree g (good.hangs k object there look);
    spans = λ k object there look.
        Throughout-keeps object.tree m.tree tree depth object.tree.root g
          (good.spans k object there look);
    known = good.known;
  }
