-- ===== src/Merge/Linked/Attached.antt =====
-- What one link does to the objects of the merged tree in pkg/frontend/reader/merge/merge.go,
-- `mergeLinkedTraces`, whatever it does to the spans.
use kelemetry.Base.{
  ℕ, ◌≡◌, refl, sym, ap, subst, ◌∙◌, ◌⊎◌, inl, inr, Bool, true, false, List, [], ◌∷◌, Option, none,
  some, String, if◌then◌else◌, Eq, ◌==◌, string_eq, Bool-cases, Option-cases,
}
use kelemetry.Base.Map.{Map, lookup, insert, has, has-lookup}
use kelemetry.Aggregator.{Key}
use kelemetry.SpanTree.{struct, Span, add}
use kelemetry.SpanTree.Subtree.{add_tree}
use kelemetry.Merge.{TargetLink, key_eq, is_child_role}
use kelemetry.Merge.Roots.{Content}
use kelemetry.Merge.Objects.{Object}
use kelemetry.Merge.Linked.{Merging, parent_span, virtual_content, attach, follow_child_link}

abbrev pub mem : Key → List Key → Bool
mem k [] = false
mem k (j ∷ keys) = if j == k then true else mem k keys

-- A link to a child with this key is among the links.
abbrev pub links_to : Key → List TargetLink → Bool
links_to k [] = false
links_to k (link ∷ links) =
    if is_child_role link.role
    then (if link.key == k then true else links_to k links)
    else links_to k links

module _ {ℓ κ} {I : Type ℓ} {L : Type κ} where
  -- The objects of the tree and the pending ones stay.
  abbrev pub Stays : Merging I L → Merging I L → Type 0
  Stays m m' = (m'.tree_objects ≡ m.tree_objects) × (m'.pending_objects ≡ m.pending_objects)

  -- A key joins both.
  abbrev pub Joins : Key → Merging I L → Merging I L → Type 0
  Joins key m m' =
      (m'.tree_objects ≡ insert key struct m.tree_objects)
      × (m'.pending_objects ≡ key ∷ m.pending_objects)
      × (has key m.tree_objects ≡ false)

module _ {ℓ κ μ} {I : Type ℓ} {L : Type κ} {M : Type μ} where
  -- After a link to an object, it is in the tree if it is there at all.
  abbrev pub Attached : Map Key (Object I L M) → Key → Merging I L → Merging I L → Type 0
  Attached trees key m m' =
      (Stays m m' × (has key trees ≡ true → has key m.tree_objects ≡ true))
      ⊎ (Joins key m m' × (has key trees ≡ true))

  -- A link to a child attaches it; any other link does nothing.
  abbrev pub LinkedBy :
      Map Key (Object I L M) → Bool → TargetLink → Merging I L → Merging I L → Type 0
  LinkedBy trees is_child link m m' = if is_child then Attached trees link.key m m' else Stays m m'

  abbrev pub Linked : Map Key (Object I L M) → TargetLink → Merging I L → Merging I L → Type 0
  Linked trees link m = LinkedBy trees (is_child_role link.role) link m

missing_not_there {ν} :
    {V : Type ν} (k : Key) (m : Map Key V) → lookup k m ≡ none → has k m ≡ true → ⊥
missing_not_there k m h there = let absent = (has-lookup k m).1 h in absurd (cc)

pub found_there {ν} :
    {V : Type ν} (k : Key) (m : Map Key V) (v : V) → lookup k m ≡ some v → has k m ≡ true
found_there k m v h = elim (Bool-cases (has k m)) [
  | inl t ↦ t
  | inr t ↦ let nothing = (has-lookup k m).0 t in absurd (cc)
]

-- A property of the state, if there is one.
abbrev pub Ever {ℓ κ} : {A : Type ℓ} → (A → Type κ) → Option A → Type κ
Ever P none = Unit
Ever P (some a) = P a

module _ {ℓ κ μ} {I : Type ℓ} {L : Type κ} {M : Type μ} ⦃e : Eq I⦄ (random_id : ℕ → I)
    (repeated : Key → String) (depth : ℕ) (trees : Map Key (Object I L M)) where
  attach-Attached :
      (parent_id : I) (key : Key) (m : Merging I L)
      → Ever (Attached trees key m) (attach random_id repeated depth trees parent_id key m)
  unfolding attach
  attach-Attached parent_id key m = elim (Bool-cases (has key m.tree_objects)) [
    | inl t ↦ rw (t, attach) (inl ((refl, refl), λ h. t))
    | inr t ↦ elim (Option-cases (lookup key trees)) [
      | inl missing ↦
          rw (t, missing, attach)
            (inl ((refl, refl), λ h. absurd (missing_not_there key trees missing h)))
      | inr (subtree, found) ↦ elim (Option-cases (add_tree depth subtree.tree parent_id m.tree)) [
        | inl failed ↦ rw (t, found, failed, attach) tt
        | inr (tree, grown) ↦
            rw (t, found, grown, attach)
              (inr ((refl, refl, t), found_there key trees subtree found))
      ]
    ]
  ]

  parent_span-Stays :
      (root : Span I (Content L)) (link : TargetLink) (m : Merging I L)
      → Ever (λ placed. Stays m placed.1) (parent_span random_id repeated depth trees root link m)
  unfolding parent_span
  parent_span-Stays root link m = elim (Bool-cases (link.class == "")) [
    | inl t ↦ rw (t, parent_span) (refl, refl)
    | inr t ↦
        let virtual : Span I (Content L) = record {
          id = random_id m.drawn;
          parent = none;
          payload = virtual_content root.payload link.class;
        } in
        elim (Option-cases (add m.tree virtual root.id)) [
          | inl failed ↦ rw (t, failed, parent_span) tt
          | inr (tree, grown) ↦ rw (t, grown, parent_span) (refl, refl)
        ]
  ]

  Attached-Stays :
      (key : Key) (m placed m' : Merging I L)
      → Stays m placed
      → Attached trees key placed m'
      → Attached trees key m m'
  Attached-Stays key m placed m' same (inl (stays, there)) =
      inl ((stays.0 ∙ same.0, stays.1 ∙ same.1), λ h. ap (has key) (sym same.0) ∙ there h)
  Attached-Stays key m placed m' same (inr (joins, there)) = inr (
    (
      joins.0 ∙ ap (insert key struct) same.0,
      joins.1 ∙ ap (λ keys. key ∷ keys) same.1,
      ap (has key) (sym same.0) ∙ joins.2,
    ),
    there,
  )

  Ever-Stays :
      (key : Key) (m placed : Merging I L) (o : Option (Merging I L))
      → Stays m placed
      → Ever (Attached trees key placed) o
      → Ever (Attached trees key m) o
  Ever-Stays key m placed none same h = tt
  Ever-Stays key m placed (some m') same h = Attached-Stays key m placed m' same h

  pub follow_child_link-Linked :
      (root : Span I (Content L)) (link : TargetLink) (m : Merging I L)
      → Ever (Linked trees link m) (follow_child_link random_id repeated depth trees root link m)
  unfolding follow_child_link
  follow_child_link-Linked root link m =
      let done = follow_child_link random_id repeated depth trees root link m in
      elim (Bool-cases (is_child_role link.role)) [
        | inl t ↦
            subst (λ b. Ever (LinkedBy trees b link m) done) (sym t)
              (elim (Option-cases (parent_span random_id repeated depth trees root link m)) [
                | inl failed ↦ rw (t, failed, follow_child_link) tt
                | inr (placed, found) ↦
                    let same : Stays m placed.1 =
                      subst (Ever (λ p. Stays m p.1)) found (parent_span-Stays root link m) in
                    rw (t, found, follow_child_link)
                      (Ever-Stays link.key m placed.1 _ same
                        (attach-Attached placed.0 link.key placed.1))
              ])
        | inr t ↦
            subst (λ b. Ever (LinkedBy trees b link m) done) (sym t)
              (rw (t, follow_child_link) (refl, refl))
      ]
