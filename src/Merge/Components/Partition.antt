-- ===== src/Merge/Components/Partition.antt =====
-- The colours that `findConnectedComponents` of pkg/frontend/reader/merge/merge.go gives: one for
-- each connected component.
use kelemetry.Base.{
  ℕ, zero, suc, ◌≤◌, ◌<◌, ◌≡◌, refl, sym, ◌∙◌, ◌⊎◌, inl, inr, true, false, [], ◌∷◌, some, arith,
  length, Bool-cases,
}
use kelemetry.Base.Map.{Map, lookup, has, IsMap}
use kelemetry.Aggregator.{Key}
use kelemetry.Merge.{AbLinkMap, key_eq, peers_of}
use kelemetry.Merge.Components.{KeySet, Tainting, taint_all}
use kelemetry.Merge.Components.Paints.{Reaches, here, step, Paints, Within, Searches}
use kelemetry.Merge.Components.Search.{dfs_taint-Searches}

-- Each link stands at both its ends.
abbrev pub Symmetric : AbLinkMap → Type 0
Symmetric ab_links =
    (u v : Key) → has v (peers_of u ab_links) ≡ true → has u (peers_of v ab_links) ≡ true

module _ (objects : KeySet) (ab_links : AbLinkMap) where
  Reaches-trans :
      (u v w : Key)
      → Reaches objects ab_links u v
      → Reaches objects ab_links v w
      → Reaches objects ab_links u w
  Reaches-trans u v w (here _) q = q
  Reaches-trans u v w (step _ t _ linked there p) q =
      step u t w linked there (Reaches-trans t v w p q)

  Reaches-sym :
      Symmetric ab_links
      → (u v : Key) → has u objects ≡ true
      → Reaches objects ab_links u v
      → Reaches objects ab_links v u
  Reaches-sym both u v inside (here _) = here u
  Reaches-sym both u v inside (step _ t _ linked there p) =
      Reaches-trans v t u (Reaches-sym both t v there p)
        (step t u u (both u t linked) inside (here u))

-- What the colours below `n` say while some objects are left.
pub record Painted (objects : KeySet) (ab_links : AbLinkMap) (n : ℕ) (t : Tainting) : Type 0 where
  pub within : Within objects t
  pub all_gone :
      (u : Key)
      → has u objects ≡ true
      → has u t.keys ≡ false
      → (i : ℕ) × (lookup u t.taints ≡ some i)
  pub coloured :
      (u : Key) (i : ℕ)
      → lookup u t.taints ≡ some i
      → (i < n) × (has u objects ≡ true) × (has u t.keys ≡ false)
  pub alike :
      (u v : Key)
      → has u objects ≡ true
      → has u t.keys ≡ false
      → has v (peers_of u ab_links) ≡ true
      → has v objects ≡ true
      → (has v t.keys ≡ false) × (lookup v t.taints ≡ lookup u t.taints)
  pub joined :
      (u v : Key) (i : ℕ)
      → lookup u t.taints ≡ some i
      → lookup v t.taints ≡ some i
      → Reaches objects ab_links u v
  pub once : IsMap t.taints

module _ (taint_id : ℕ) (t t' : Tainting) (p : Paints taint_id t t') where
  taint_new :
      (k : Key) → has k t.keys ≡ true → has k t'.keys ≡ false → lookup k t'.taints ≡ some taint_id
  taint_new k h gone = p.2 k ∙ rw (h, gone) refl

  taint_old : (k : Key) → has k t.keys ≡ false → lookup k t'.taints ≡ lookup k t.taints
  taint_old k h = p.2 k ∙ rw h refl

  taint_left : (k : Key) → has k t'.keys ≡ true → lookup k t'.taints ≡ lookup k t.taints
  taint_left k h = p.2 k ∙ rw h (rw (p.0 k h) refl)

-- A colour is old, or it is the one of the search.
abbrev Origin : ℕ → Tainting → Tainting → Key → ℕ → Type 0
Origin n t t' u i =
    ((has u t.keys ≡ false) × (lookup u t.taints ≡ some i))
    ⊎ ((has u t.keys ≡ true) × (has u t'.keys ≡ false) × (i ≡ n))

module _ (objects : KeySet) (ab_links : AbLinkMap) (n : ℕ) (seed : Key) (t t' : Tainting) where
  origin :
      Painted objects ab_links n t
      → Paints n t t'
      → (u : Key) (i : ℕ) → lookup u t'.taints ≡ some i
      → Origin n t t' u i
  origin inv p u i h = elim (Bool-cases (has u t.keys)) [
    | inl there ↦ elim (Bool-cases (has u t'.keys)) [
      | inl left ↦
          let was = (inv.coloured u i (sym (taint_left n t t' p u left) ∙ h)).2 in absurd (cc)
      | inr gone ↦
          let same : some i ≡ some n = sym h ∙ taint_new n t t' p u there gone in
          inr (there, gone, cc)
    ]
    | inr gone ↦ inl (gone, sym (taint_old n t t' p u gone) ∙ h)
  ]

  Searches-Painted :
      Symmetric ab_links
      → Painted objects ab_links n t
      → Searches objects ab_links n seed t t'
      → has seed objects ≡ true
      → Painted objects ab_links (suc n) t'
  Searches-Painted both inv s inside = record {
    within = λ k h. inv.within k (s.0.0 k h);
    all_gone = λ u h gone. elim (Bool-cases (has u t.keys)) [
      | inl there ↦ (n, taint_new n t t' s.0 u there gone)
      | inr was ↦ let old = inv.all_gone u h was in (old.0, taint_old n t t' s.0 u was ∙ old.1)
    ];
    coloured = λ u i h. elim (origin inv s.0 u i h) [
      | inl old ↦
          let c = inv.coloured u i old.1 in
          (omega (arith, c.0), c.1, ground (arith, s.0.0 u, old.0))
      | inr new ↦ (omega (arith, new.2), inv.within u new.0, new.1)
    ];
    alike = λ u v h gone linked inside'. elim (Bool-cases (has u t.keys)) [
      | inl there ↦
          let gone' = s.1 u v there gone linked in
          elim (Bool-cases (has v t.keys)) [
            | inl there' ↦ (
              gone',
              taint_new n t t' s.0 v there' gone' ∙ sym (taint_new n t t' s.0 u there gone),
            )
            | inr was ↦ let back = (inv.alike v u inside' was (both u v linked) h).0 in absurd (cc)
          ]
      | inr was ↦
          let old = inv.alike u v h was linked inside' in
          (
            ground (arith, s.0.0 v, old.0),
            taint_old n t t' s.0 v old.0 ∙ old.1 ∙ sym (taint_old n t t' s.0 u was),
          )
    ];
    joined = λ u v i hu hv. elim (origin inv s.0 u i hu) [
      | inl old ↦ elim (origin inv s.0 v i hv) [
        | inl old' ↦ inv.joined u v i old.1 old'.1
        | inr new' ↦ let c = (inv.coloured u i old.1).0 in absurd (omega (arith, c, new'.2))
      ]
      | inr new ↦ elim (origin inv s.0 v i hv) [
        | inl old' ↦ let c = (inv.coloured v i old'.1).0 in absurd (omega (arith, c, new.2))
        | inr new' ↦
            Reaches-trans objects ab_links u seed v
              (Reaches-sym objects ab_links both seed u inside (s.3 u new.0 new.1))
              (s.3 v new'.0 new'.1)
      ]
    ];
    once = s.0.3 inv.once;
  }

-- Nothing is left to paint.
abbrev pub AllPainted : KeySet → AbLinkMap → ℕ × Map Key ℕ → Type 0
AllPainted objects ab_links painted =
    Painted objects ab_links painted.0 (record { keys = []; taints = painted.1 })

-- As many rounds as there are objects are enough, and as many calls deep.
pub taint_all-AllPainted :
    (objects : KeySet) (ab_links : AbLinkMap)
    → Symmetric ab_links
    → (fuel n : ℕ) (keys : KeySet) (taints : Map Key ℕ)
    → Painted objects ab_links n (record { keys = keys; taints = taints })
    → length keys ≤ fuel
    → (painted : ℕ × Map Key ℕ) × (taint_all fuel ab_links n keys taints ≡ some painted)
      × AllPainted objects ab_links painted
unfolding taint_all has
taint_all-AllPainted objects ab_links both fuel n [] taints inv small = ((n, taints), refl, inv)
taint_all-AllPainted objects ab_links both zero n (entry ∷ keys) taints inv small =
    absurd (omega arith)
taint_all-AllPainted objects ab_links both (suc fuel) n (entry ∷ keys) taints inv small =
    let t : Tainting = record { keys = entry ∷ keys; taints = taints } in
    let there : has entry.0 t.keys ≡ true = rw ((key_eq.beq_iff entry.0 entry.0).1 refl) refl in
    let search =
      dfs_taint-Searches objects ab_links n (suc (length keys)) t entry.0 inv.within there
        (omega arith) in
    let next =
      Searches-Painted objects ab_links n entry.0 t search.0 both inv search.2
        (inv.within entry.0 there) in
    let rest =
      taint_all-AllPainted objects ab_links both fuel (suc n) search.0.keys search.0.taints next
        (omega (arith, search.2.4, small)) in
    (rest.0, rw (search.1, taint_all) rest.1, rest.2)
