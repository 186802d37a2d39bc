-- ===== src/Merge/Components/Connected.antt =====
-- `findConnectedComponents` of pkg/frontend/reader/merge/merge.go finds the connected components.
use kelemetry.Base.{ℕ, ◌≡◌, refl, sym, subst, ◌∙◌, ◌↔◌, true, List, [], some, arith, length, nat_eq}
use kelemetry.Base.Map.{Map, lookup, has}
use kelemetry.Aggregator.{Key}
use kelemetry.Merge.{AbLinkMap, key_eq}
use kelemetry.Merge.Components.{KeySet, find_connected_components}
use kelemetry.Merge.Components.Paints.{Reaches, here, step}
use kelemetry.Merge.Components.Partition.{Symmetric, Painted, AllPainted, taint_all-AllPainted}
use kelemetry.Merge.Components.Collected.{InComponent, collect-ByColour}

module _ (objects : KeySet) (ab_links : AbLinkMap) where
  Reaches-alike :
      (painted : ℕ × Map Key ℕ)
      → AllPainted objects ab_links painted
      → (u v : Key) → has u objects ≡ true
      → Reaches objects ab_links u v
      → lookup v painted.1 ≡ lookup u painted.1
  unfolding has
  Reaches-alike painted inv u v inside (here _) = refl
  Reaches-alike painted inv u v inside (step _ t _ linked there p) =
      Reaches-alike painted inv t v there p ∙ (inv.alike u t inside refl linked there).1

  -- If each link stands at both its ends, the search for components ends; every object is in a
  -- component, every member of a component is an object, and of two members the components are the
  -- same if and only if links from object to object lead from one to the other.
  pub find_connected_components-Reaches :
      Symmetric ab_links
      → (components : List (List Key)) × (find_connected_components objects ab_links
          ≡ some components)
        × ((u : Key) → has u objects ≡ true → (i : ℕ) × InComponent components i u)
        × ((u : Key) (i : ℕ) → InComponent components i u → has u objects ≡ true)
        × ((u v : Key) (i j : ℕ)
            → InComponent components i u
            → InComponent components j v
            → (i ≡ j) ↔ Reaches objects ab_links u v)
  unfolding find_connected_components has lookup
  find_connected_components-Reaches both =
      let start : Painted objects ab_links 0 (record { keys = objects; taints = [] }) = record {
        within = λ k h. h;
        all_gone = λ u h gone. absurd (cc);
        coloured = λ u i h. absurd (cc);
        alike = λ u v h gone linked there. absurd (cc);
        joined = λ u v i hu hv. absurd (cc);
        once = tt;
      } in
      let run =
        taint_all-AllPainted objects ab_links both (length objects) 0 objects [] start
          (omega arith) in
      let inv = run.2 in
      let all = collect-ByColour run.0.0 run.0.1 inv.once (λ k i h. (inv.coloured k i h).0) in
      (
        all.0,
        rw (run.1, find_connected_components) all.1,
        λ u inside. let c = inv.all_gone u inside refl in (c.0, (all.2 c.0 u).1 c.1),
        λ u i inside. (inv.coloured u i ((all.2 i u).0 inside)).1,
        λ u v i j hu hv. (
          λ same.
              inv.joined u v i ((all.2 i u).0 hu)
                (subst (λ c. lookup v run.0.1 ≡ some c) (sym same) ((all.2 j v).0 hv)),
          λ way.
              let a : lookup u run.0.1 ≡ some i = (all.2 i u).0 hu in
              let b : lookup v run.0.1 ≡ some j = (all.2 j v).0 hv in
              let same : lookup v run.0.1 ≡ lookup u run.0.1 =
                Reaches-alike run.0 inv u v (inv.coloured u i a).1 way in
              cc,
        ),
      )
