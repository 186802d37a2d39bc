-- ===== src/Merge/LinkMap.antt =====
-- The map of links that `MergeTraces` of pkg/frontend/reader/merge/merge.go builds and the components
-- that it takes from it.
use kelemetry.Base.{
  ◌≡◌, refl, sym, ap, ◌∙◌, ◌↔◌, inl, inr, Bool, true, false, ◌&&◌, ◌||◌, ℕ, List, [], ◌∷◌, Option,
  some, if◌then◌else◌, ◌==◌, Bool-cases,
}
use kelemetry.Base.Map.{Map, lookup, insert, has, lookup-insert, has-insert}
use kelemetry.Aggregator.{Key}
use kelemetry.SpanTree.{struct}
use kelemetry.Merge.{
  AbLink, AbLinkMap, TargetLink, key_eq, peers_or_empty, peers_of, insert_directed, insert_link,
  ab_link_from_target_link,
}
use kelemetry.Merge.Components.{KeySet, find_connected_components}
use kelemetry.Merge.Components.Paints.{Reaches}
use kelemetry.Merge.Components.Partition.{Symmetric}
use kelemetry.Merge.Components.Collected.{InComponent}
use kelemetry.Merge.Components.Connected.{find_connected_components-Reaches}
use kelemetry.Merge.Objects.{Object}

unfoldable pub insert_target_links : Key → List TargetLink → AbLinkMap → AbLinkMap
unfolding ab_link_from_target_link insert_link
insert_target_links key [] ab_links = ab_links
insert_target_links key (link ∷ links) ab_links =
    insert_target_links key links (insert_link (ab_link_from_target_link key link) ab_links)

module _ {ℓ κ μ} {I : Type ℓ} {L : Type κ} {M : Type μ} where
  unfoldable pub insert_all_links : Map Key (Object I L M) → AbLinkMap → AbLinkMap
  unfolding insert_target_links
  insert_all_links [] ab_links = ab_links
  insert_all_links ((key, obj) ∷ objects) ab_links =
      insert_all_links objects (insert_target_links obj.key obj.links ab_links)

  unfoldable pub keys_of : Map Key (Object I L M) → KeySet
  keys_of [] = []
  keys_of ((key, obj) ∷ objects) = (key, struct) ∷ keys_of objects

  -- The first half of `MergeTraces`: the components whose traces it then merges.
  unfoldable pub components_of : Map Key (Object I L M) → Option (List (List Key))
  unfolding insert_all_links keys_of find_connected_components
  components_of objects = find_connected_components (keys_of objects) (insert_all_links objects [])

peers_of-insert :
    (k j : Key) (peers : Map Key AbLink) (m : AbLinkMap)
    → peers_of j (insert k peers m) ≡ (if k == j then peers else peers_of j m)
unfolding peers_of peers_or_empty
peers_of-insert k j peers m =
    ap peers_or_empty (lookup-insert k j peers m)
    ∙ elim (Bool-cases (k == j)) [ inl t ↦ rw t refl | inr t ↦ rw t refl ]

has-insert_directed :
    (k1 k2 : Key) (link : AbLink) (m : AbLinkMap) (u v : Key)
    → has v (peers_of u (insert_directed k1 k2 link m))
      ≡ ((k1 == u && k2 == v) || has v (peers_of u m))
unfolding insert_directed
has-insert_directed k1 k2 link m u v =
    ap (has v) (peers_of-insert k1 u (insert k2 link (peers_of k1 m)) m)
    ∙ elim (Bool-cases (k1 == u)) [
      | inl t ↦
          rw (t, (key_eq.beq_iff k1 u).0 t)
            (has-insert k2 v link (peers_of u m)
              ∙ elim (Bool-cases (k2 == v)) [ inl s ↦ rw s refl | inr s ↦ rw s refl ])
      | inr t ↦ rw t refl
    ]

has-insert_link :
    (link : AbLink) (m : AbLinkMap) (u v : Key)
    → has v (peers_of u (insert_link link m)) ≡ (
        (link.beta == u && link.alpha == v)
        || ((link.alpha == u && link.beta == v) || has v (peers_of u m)))
unfolding insert_link
has-insert_link link m u v =
    has-insert_directed link.beta link.alpha link (insert_directed link.alpha link.beta link m) u v
    ∙ ap (λ b. (link.beta == u && link.alpha == v) || b)
        (has-insert_directed link.alpha link.beta link m u v)

and_comm : (a b : Bool) → (a && b) ≡ (b && a)
and_comm true true = refl
and_comm true false = refl
and_comm false true = refl
and_comm false false = refl

swap_ends :
    (x y old old' : Bool)
    → (old ≡ true → old' ≡ true)
    → (x || (y || old)) ≡ true
    → (y || (x || old')) ≡ true
swap_ends true true old old' f h = refl
swap_ends true false old old' f h = refl
swap_ends false true old old' f h = refl
swap_ends false false old old' f h = f h

insert_link-Symmetric :
    (link : AbLink) (m : AbLinkMap) → Symmetric m → Symmetric (insert_link link m)
unfolding insert_link
insert_link-Symmetric link m both u v h =
    has-insert_link link m v u
    ∙ (λ i.
        and_comm (link.beta == v) (link.alpha == u) i
        || (and_comm (link.alpha == v) (link.beta == u) i || has u (peers_of v m)))
    ∙ swap_ends (link.beta == u && link.alpha == v) (link.alpha == u && link.beta == v)
        (has v (peers_of u m)) (has u (peers_of v m)) (both u v)
        (sym (has-insert_link link m u v) ∙ h)

insert_target_links-Symmetric :
    (key : Key) (links : List TargetLink) (m : AbLinkMap)
    → Symmetric m
    → Symmetric (insert_target_links key links m)
unfolding insert_target_links
insert_target_links-Symmetric key [] m both = both
insert_target_links-Symmetric key (link ∷ links) m both =
    insert_target_links-Symmetric key links (insert_link (ab_link_from_target_link key link) m)
      (insert_link-Symmetric (ab_link_from_target_link key link) m both)

empty-Symmetric : Symmetric []
unfolding peers_of peers_or_empty lookup has
empty-Symmetric u v h = absurd (cc)

module _ {ℓ κ μ} {I : Type ℓ} {L : Type κ} {M : Type μ} where
  insert_all_links-Symmetric :
      (objects : Map Key (Object I L M)) (m : AbLinkMap)
      → Symmetric m
      → Symmetric (insert_all_links objects m)
  unfolding insert_all_links
  insert_all_links-Symmetric [] m both = both
  insert_all_links-Symmetric ((key, obj) ∷ objects) m both =
      insert_all_links-Symmetric objects (insert_target_links obj.key obj.links m)
        (insert_target_links-Symmetric obj.key obj.links m both)

  has-keys_of :
      (objects : Map Key (Object I L M)) (k : Key) → has k (keys_of objects) ≡ has k objects
  unfolding has keys_of
  has-keys_of [] k = refl
  has-keys_of ((key, obj) ∷ objects) k = elim (Bool-cases (key == k)) [
    | inl t ↦ rw t refl
    | inr t ↦ rw t (has-keys_of objects k)
  ]

  -- The search for the components of any objects ends; every object is in a component, every member of
  -- a component is an object, and of two members the components are the same if and only if links, in
  -- whichever direction they were recorded, lead from one to the other through objects of the merger.
  pub components_of-Reaches :
      (objects : Map Key (Object I L M))
      → (components : List (List Key)) × (components_of objects ≡ some components)
        × ((u : Key) → has u objects ≡ true → (i : ℕ) × InComponent components i u)
        × ((u : Key) (i : ℕ) → InComponent components i u → has u objects ≡ true)
        × ((u v : Key) (i j : ℕ)
            → InComponent components i u
            → InComponent components j v
            → (i ≡ j) ↔ Reaches (keys_of objects) (insert_all_links objects []) u v)
  unfolding components_of
  components_of-Reaches objects =
      let empty : AbLinkMap = [] in
      let found =
        find_connected_components-Reaches (keys_of objects) (insert_all_links objects empty)
          (insert_all_links-Symmetric objects empty empty-Symmetric) in
      (
        found.0,
        found.1,
        λ u h. found.2 u (has-keys_of objects u ∙ h),
        λ u i h. sym (has-keys_of objects u) ∙ found.3 u i h,
        found.4,
      )
