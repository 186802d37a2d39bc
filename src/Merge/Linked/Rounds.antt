-- ===== src/Merge/Linked/Rounds.antt =====
-- The rounds of the loop of `mergeLinkedTraces` of pkg/frontend/reader/merge/merge.go.
use kelemetry.Base.{
  ℕ, zero, suc, ◌≡◌, refl, sym, ap, subst, ◌∙◌, inl, inr, true, false, List, [], ◌∷◌, Option, none,
  some, String, arith, if◌then◌else◌, Eq, ◌==◌, string_eq, Bool-cases, Option-cases,
}
use kelemetry.Base.Map.{Map, lookup, insert, has, has-lookup, has-insert}
use kelemetry.Aggregator.{Key}
use kelemetry.SpanTree.{struct, children_of, Span, SpanTree}
use kelemetry.SpanTree.Grafting.{
  Throughout, Addable, Present, Grows, refl-Grows, add-Grows, add_tree-Grafted,
}
use kelemetry.Merge.{TargetLink, key_eq, is_child_role}
use kelemetry.Merge.Roots.{Content}
use kelemetry.Merge.Objects.{Object}
use kelemetry.Merge.Linked.{
  Merging, Outcome, merged, panicked, out_of_fuel, parent_span, virtual_content, warn, attach,
  follow_child_link, follow_child_links, root_span, expand, drain,
}
use kelemetry.Merge.Linked.Attached.{mem, links_to, found_there}
use kelemetry.Merge.Linked.Spans.{
  NotHere, SoundTrees, SoundTrees-lookup, Addable-found, Addable-Present, Place, Hangs, Place-grown,
  Good, Good-grown,
}

module _ {ℓ κ μ} {I : Type ℓ} {L : Type κ} {M : Type μ} ⦃e : Eq I⦄ (random_id : ℕ → I)
    (repeated : Key → String) (depth : ℕ) (trees : Map Key (Object I L M))
    (sound : SoundTrees depth trees) (top : Key) where
  warn-Grows :
      (id : I) (warning : String) (tree : SpanTree I (Content L))
      → Grows tree (warn random_id repeated depth trees id warning tree)
  unfolding warn
  warn-Grows id warning tree = elim (Option-cases (lookup id tree.span_map)) [
    | inl missing ↦ rw (missing, warn) (refl-Grows tree)
    | inr (span, there) ↦
        rw (there, warn)
          (record {
            same_exited = refl;
            keeps_children = λ p c h. h;
            keeps = λ j h. has-insert id j _ tree.span_map ∙ rw h (ground arith);
          })
  ]

  -- What holds of an object that was found holds of what is found under an equal key.
  found_same {χ} :
      (key k : Key) (subtree object : Object I L M) (P : Key → Object I L M → Type χ)
      → (key == k) ≡ true
      → lookup key trees ≡ some subtree
      → lookup k trees ≡ some object
      → P key subtree
      → P k object
  found_same key k subtree object P same look at h =
      let is : key ≡ k = (key_eq.beq_iff key k).0 same in
      let moved : lookup k trees ≡ some subtree =
        subst (λ i. lookup i trees ≡ some subtree) is look in
      let one : subtree ≡ object = cc in subst (P k) one (subst (λ i. P i subtree) is h)

  -- A step of the loop does not panic, and keeps what holds.
  abbrev GoesWell : Option (Merging I L) → Type (ℓ ⊔ κ ⊔ μ)
  GoesWell o = (m' : Merging I L) × (o ≡ some m') × Good depth trees top m'

  -- An object that was put below a place of one that has a link to it keeps what holds.
  joined-Good :
      (key : Key) (m : Merging I L) (subtree : Object I L M) (tree : SpanTree I (Content L))
      → Hangs depth trees key subtree tree
      → lookup key trees ≡ some subtree
      → Throughout subtree.tree (Present subtree.tree tree) depth subtree.tree.root
      → Good depth trees top m
      → Grows m.tree tree
      → Good depth trees top (record {
        tree = tree;
        tree_objects = insert key struct m.tree_objects;
        pending_objects = key ∷ m.pending_objects;
        drawn = m.drawn;
      })
  unfolding has
  joined-Good key m subtree tree hung look present good g =
      let grown = Good-grown depth trees top m tree m.drawn good g in
      record {
        open_tree = grown.open_tree;
        hangs = λ k object there at. elim (Bool-cases (key == k)) [
          | inl same ↦ inr (
              found_same key k subtree object (λ i o. Hangs depth trees i o tree) same look at hung)
          | inr other ↦
              grown.hangs k object
                (rw other at (sym (has-insert key k struct m.tree_objects) ∙ there)) at
        ];
        spans = λ k object there at. elim (Bool-cases (key == k)) [
          | inl same ↦
              found_same key k subtree object
                (λ i o. Throughout o.tree (Present o.tree tree) depth o.tree.root) same look at
                present
          | inr other ↦
              grown.spans k object
                (rw other at (sym (has-insert key k struct m.tree_objects) ∙ there)) at
        ];
        known = λ k there. elim (Bool-cases (key == k)) [
          | inl same ↦
              subst (λ i. has i trees ≡ true) ((key_eq.beq_iff key k).0 same)
                (found_there key trees subtree look)
          | inr other ↦ good.known k (rw other at there)
        ];
      }

  attach-Good :
      (parent_id : I) (key : Key) (m : Merging I L) (u : Key) (subject : Object I L M)
      → lookup u trees ≡ some subject
      → links_to key subject.links ≡ true
      → Place depth parent_id subject m.tree
      → Good depth trees top m
      → GoesWell (attach random_id repeated depth trees parent_id key m)
  unfolding attach has
  attach-Good parent_id key m u subject at_u links place good =
      elim (Bool-cases (has key m.tree_objects)) [
        | inl t ↦ (
          record m { tree = warn random_id repeated depth trees parent_id (repeated key) m.tree },
          rw (t, attach) refl,
          Good-grown depth trees top m _ m.drawn good (warn-Grows parent_id (repeated key) m.tree),
        )
        | inr t ↦ elim (Option-cases (lookup key trees)) [
          | inl missing ↦ (m, rw (t, missing, attach) refl, good)
          | inr (subtree, look) ↦
              let own = SoundTrees-lookup depth trees key subtree sound look in
              let (tree, (ran, g, present, child)) =
                add_tree-Grafted depth subtree.tree parent_id m.tree
                  (subst
                    (λ x. Throughout subtree.tree (Addable subtree.tree x) depth subtree.tree.root)
                    (sym good.open_tree) own.1)
                  (ap (has parent_id) good.open_tree) in
              let there = Place-grown depth parent_id subject m.tree tree g place in
              (
                record {
                  tree = tree;
                  tree_objects = insert key struct m.tree_objects;
                  pending_objects = key ∷ m.pending_objects;
                  drawn = m.drawn;
                },
                rw (t, look, ran, attach) refl,
                joined-Good key m subtree tree (u, subject, at_u, links, (parent_id, there, child))
                    look present good g,
              )
        ]
      ]

  parent_span-Good :
      (root : Span I (Content L)) (link : TargetLink) (m : Merging I L) (subject : Object I L M)
      → root.id ≡ subject.tree.root
      → Good depth trees top m
      → (placed : I × Merging I L) × (parent_span random_id repeated depth trees root link m
          ≡ some placed)
        × Place depth placed.0 subject placed.1.tree
        × Good depth trees top placed.1
  unfolding parent_span has
  parent_span-Good root link m subject own good = elim (Bool-cases (link.class == "")) [
    | inl t ↦ ((root.id, m), rw (t, parent_span) refl, inl own, good)
    | inr t ↦
        let virtual : Span I (Content L) = record {
          id = random_id m.drawn;
          parent = none;
          payload = virtual_content root.payload link.class;
        } in
        let (tree, ran, g, _, child) =
          add-Grows m.tree virtual root.id (ap (has root.id) good.open_tree) in
        (
          (random_id m.drawn, record m { tree = tree; drawn = suc m.drawn }),
          rw (t, ran, parent_span) refl,
          inr (
              subst (λ i. has (random_id m.drawn) (children_of i tree.children_map) ≡ true) own
                child),
          Good-grown depth trees top m tree (suc m.drawn) good g,
        )
  ]

  follow_child_link-Good :
      (root : Span I (Content L)) (link : TargetLink) (m : Merging I L) (u : Key)
      (subject : Object I L M)
      → lookup u trees ≡ some subject
      → root.id ≡ subject.tree.root
      → (is_child_role link.role ≡ true → links_to link.key subject.links ≡ true)
      → Good depth trees top m
      → GoesWell (follow_child_link random_id repeated depth trees root link m)
  unfolding follow_child_link
  follow_child_link-Good root link m u subject at_u own links good =
      elim (Bool-cases (is_child_role link.role)) [
        | inr t ↦ (m, rw (t, follow_child_link) refl, good)
        | inl t ↦
            let (placed, found, place, good') = parent_span-Good root link m subject own good in
            let (m', ran, good'') =
              attach-Good placed.0 link.key placed.1 u subject at_u (links t) place good' in
            (m', rw (t, found, follow_child_link) ran, good'')
      ]

  -- The links are among those of the subject.
  abbrev Among : List TargetLink → Object I L M → Type 0
  Among links subject = (k : Key) → links_to k links ≡ true → links_to k subject.links ≡ true

  first_link :
      (link : TargetLink) (links : List TargetLink)
      → is_child_role link.role ≡ true
      → links_to link.key (link ∷ links) ≡ true
  first_link link links child = rw (child, (key_eq.beq_iff link.key link.key).1 refl) refl

  later_link :
      (link : TargetLink) (links : List TargetLink) (k : Key)
      → links_to k links ≡ true
      → links_to k (link ∷ links) ≡ true
  later_link link links k h = elim (Bool-cases (is_child_role link.role)) [
    | inr t ↦ rw t h
    | inl t ↦ rw t (rw h (ground arith))
  ]

  follow_child_links-Good :
      (root : Span I (Content L)) (links : List TargetLink) (m : Merging I L) (u : Key)
      (subject : Object I L M)
      → lookup u trees ≡ some subject
      → root.id ≡ subject.tree.root
      → Among links subject
      → Good depth trees top m
      → GoesWell (follow_child_links random_id repeated depth trees root links m)
  unfolding follow_child_links
  follow_child_links-Good root [] m u subject at_u own among good = (m, refl, good)
  follow_child_links-Good root (link ∷ links) m u subject at_u own among good =
      let (m', ran, good') =
        follow_child_link-Good root link m u subject at_u own
          (λ child. among link.key (first_link link links child)) good in
      let (m'', rest, good'') =
        follow_child_links-Good root links m' u subject at_u own
          (λ k h. among k (later_link link links k h)) good' in
      (m'', rw (ran, follow_child_links) rest, good'')

  expand-Good :
      (subj : Key) (m : Merging I L)
      → has subj trees ≡ true
      → Good depth trees top m
      → GoesWell (expand random_id repeated depth trees subj m)
  unfolding expand root_span
  expand-Good subj m there good = elim (Option-cases (lookup subj trees)) [
    | inl missing ↦ let absent = (has-lookup subj trees).1 missing in absurd (cc)
    | inr (subject, look) ↦
        let own = SoundTrees-lookup depth trees subj subject sound look in
        let (root, at, own_id) = Addable-found depth subject.tree subject.tree.root own.1 in
        let (m', ran, good') =
          follow_child_links-Good root subject.links m subj subject look own_id (λ k h. h) good in
        (m', rw (look, at, expand) ran, good')
  ]

  abbrev pub EndsWell : Outcome (Merging I L) → Type (ℓ ⊔ κ ⊔ μ)
  EndsWell (merged m) = Good depth trees top m
  EndsWell panicked = NotHere
  EndsWell out_of_fuel = Unit

  pub drain-EndsWell :
      (fuel : ℕ) (m : Merging I L) (pending : List Key)
      → Good depth trees top m
      → ((k : Key) → mem k pending ≡ true → has k trees ≡ true)
      → EndsWell (drain random_id repeated depth trees fuel m pending)
  unfolding drain
  drain-EndsWell fuel m [] good known = good
  drain-EndsWell zero m (subj ∷ rest) good known = tt
  drain-EndsWell (suc fuel) m (subj ∷ rest) good known =
      let now : Merging I L = record m { pending_objects = rest } in
      let good_now : Good depth trees top now = record {
        open_tree = good.open_tree;
        hangs = good.hangs;
        spans = good.spans;
        known = λ k h. known k (rw h (ground arith));
      } in
      let (m', ran, good') =
        expand-Good subj now (known subj (rw ((key_eq.beq_iff subj subj).1 refl) refl)) good_now in
      rw (ran, drain) (drain-EndsWell fuel m' m'.pending_objects good' good'.known)

  pub start_Good :
      (object : Object I L M)
      → lookup top trees ≡ some object
      → Good depth trees top (record {
        tree = object.tree;
        tree_objects = insert top struct [];
        pending_objects = top ∷ [];
        drawn = 0;
      })
  unfolding has insert
  start_Good object look =
      let own = SoundTrees-lookup depth trees top object sound look in
      let only : (k : Key) → (if top == k then true else false) ≡ true → top ≡ k = λ k h.
        elim (Bool-cases (top == k)) [
          | inl t ↦ (key_eq.beq_iff top k).0 t
          | inr t ↦ absurd (cc (rw t at h))
        ] in
      record {
        open_tree = own.0;
        hangs = λ k other there at. inl (only k there);
        spans = λ k other there at.
            let moved : lookup k trees ≡ some object =
              subst (λ i. lookup i trees ≡ some object) (only k there) look in
            let one : object ≡ other = cc in
            subst (λ o. Throughout o.tree (Present o.tree object.tree) depth o.tree.root) one
              (Addable-Present depth object.tree object.tree.root own.1);
        known = λ k there.
            subst (λ i. has i trees ≡ true) (only k there) (found_there top trees object look);
      }
