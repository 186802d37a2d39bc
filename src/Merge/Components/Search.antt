-- ===== src/Merge/Components/Search.antt =====
-- What one search of pkg/frontend/reader/merge/merge.go, `dfsTaint`, paints.
use kelemetry.Base.{
  ℕ, zero, suc, ◌≤◌, ◌≡◌, refl, sym, subst, ◌∙◌, inl, inr, true, false, [], ◌∷◌, Option, some,
  arith, if◌then◌else◌, ◌==◌, length, Bool-cases,
}
use kelemetry.Base.Map.{length-erase_lt, Map, erase, has, has-erase}
use kelemetry.Aggregator.{Key}
use kelemetry.Merge.{AbLink, AbLinkMap, key_eq, peers_of}
use kelemetry.Merge.Components.{KeySet, Tainting, taint, visit_peers, dfs_taint}
use kelemetry.Merge.Components.Paints.{
  Reaches, here, step, Within, Searches, Dives, Visits, Paints-refl, Paints-trans, Paints-taint,
  Closed-trans, not_has,
}

module _ (objects : KeySet) (ab_links : AbLinkMap) (taint_id : ℕ) (seed : Key) where
  -- A peer that is left is searched before the others.
  Visits-Searches :
      (peer : Key) (link : AbLink) (peers : Map Key AbLink) (t t' t'' : Tainting)
      → has peer (peers_of seed ab_links) ≡ true
      → has peer objects ≡ true
      → Searches objects ab_links taint_id peer t t'
      → Visits objects ab_links taint_id seed peers t' t''
      → Visits objects ab_links taint_id seed ((peer, link) ∷ peers) t t''
  unfolding has
  Visits-Searches peer link peers t t' t'' linked there p q = (
    Paints-trans taint_id t t' t'' p.0 q.0,
    Closed-trans ab_links taint_id t t' t'' p.1 q.1 q.0,
    λ v h. elim (Bool-cases (peer == v)) [
      | inl same ↦
          not_has taint_id t' t'' v q.0
            (subst (λ k. has k t'.keys ≡ false) ((key_eq.beq_iff peer v).0 same) p.2)
      | inr other ↦ q.2 v (subst (λ b. (if b then true else has v peers) ≡ true) other h)
    ],
    λ u h gone. elim (Bool-cases (has u t'.keys)) [
      | inl still ↦ q.3 u still gone
      | inr left ↦ step seed peer u linked there (p.3 u h left)
    ],
  )

  -- A peer that is gone is passed over.
  Visits-gone :
      (peer : Key) (link : AbLink) (peers : Map Key AbLink) (t t' : Tainting)
      → has peer t.keys ≡ false
      → Visits objects ab_links taint_id seed peers t t'
      → Visits objects ab_links taint_id seed ((peer, link) ∷ peers) t t'
  unfolding has
  Visits-gone peer link peers t t' gone q = (
    q.0,
    q.1,
    λ v h. elim (Bool-cases (peer == v)) [
      | inl same ↦
          not_has taint_id t t' v q.0
            (subst (λ k. has k t.keys ≡ false) ((key_eq.beq_iff peer v).0 same) gone)
      | inr other ↦ q.2 v (subst (λ b. (if b then true else has v peers) ≡ true) other h)
    ],
    q.3,
  )

  visit_peers-Visits :
      (dive : Tainting → Key → Option Tainting) (n : ℕ)
      → Dives objects ab_links taint_id dive n
      → (peers : Map Key AbLink)
      → ((v : Key) → has v peers ≡ true → has v (peers_of seed ab_links) ≡ true)
      → (t : Tainting) → Within objects t
      → length t.keys ≤ n
      → (t' : Tainting) × (visit_peers dive peers t ≡ some t')
        × Visits objects ab_links taint_id seed peers t t'
  unfolding visit_peers has
  visit_peers-Visits dive n d [] sub t w small = (
    t,
    refl,
    (
      Paints-refl taint_id t,
      λ u v h gone peer. absurd (cc),
      λ v h. absurd (cc),
      λ u h gone. absurd (cc),
    ),
  )
  visit_peers-Visits dive n d ((peer, link) ∷ peers) sub t w small =
      let later : (v : Key) → has v peers ≡ true → has v (peers_of seed ab_links) ≡ true =
        λ v h. sub v (elim (Bool-cases (peer == v)) [ inl t ↦ rw t refl | inr t ↦ rw t h ]) in
      elim (Bool-cases (has peer t.keys)) [
        | inl there ↦
            let first = d t peer w there small in
            let rest =
              visit_peers-Visits dive n d peers later first.0 (λ k h. w k (first.2.0.0 k h))
                (omega (arith, first.2.0.1)) in
            (
              rest.0,
              rw there (rw first.1 rest.1),
              Visits-Searches peer link peers t first.0 rest.0
                  (sub peer (rw ((key_eq.beq_iff peer peer).1 refl) refl)) (w peer there) first.2
                  rest.2,
            )
        | inr gone ↦
            let rest = visit_peers-Visits dive n d peers later t w small in
            (rest.0, rw gone rest.1, Visits-gone peer link peers t rest.0 gone rest.2)
      ]

module _ (objects : KeySet) (ab_links : AbLinkMap) (taint_id : ℕ) where
  -- A search that removed its seed first.
  Searches-Visits :
      (seed : Key) (t t' : Tainting)
      → has seed t.keys ≡ true
      → Visits objects ab_links taint_id seed (peers_of seed ab_links) (taint taint_id t seed) t'
      → Searches objects ab_links taint_id seed t t'
  unfolding taint
  Searches-Visits seed t t' there q =
      let other : (u : Key)
          → (seed == u) ≡ false
          → has u t.keys ≡ true
          → has u (erase seed t.keys) ≡ true =
        λ u differ h. rw (has-erase seed u t.keys) (rw differ h) in
      (
        Paints-trans taint_id t (taint taint_id t seed) t' (Paints-taint taint_id t seed there) q.0,
        λ u v h gone peer. elim (Bool-cases (seed == u)) [
          | inl same ↦ q.2 v (
              subst (λ k. has v (peers_of k ab_links) ≡ true) (sym ((key_eq.beq_iff seed u).0 same))
                peer)
          | inr differ ↦ q.1 u v (other u differ h) gone peer
        ],
        not_has taint_id (taint taint_id t seed) t' seed q.0
            (has-erase seed seed t.keys ∙ rw ((key_eq.beq_iff seed seed).1 refl) refl),
        λ u h gone. elim (Bool-cases (seed == u)) [
          | inl same ↦
              subst (λ k. Reaches objects ab_links seed k) ((key_eq.beq_iff seed u).0 same)
                (here seed)
          | inr differ ↦ q.3 u (other u differ h) gone
        ],
        omega (arith, q.0.1, length-erase_lt seed t.keys there),
      )

  -- As many calls deep as there are keys is deep enough.
  pub dfs_taint-Searches :
      (fuel : ℕ) → Dives objects ab_links taint_id (dfs_taint fuel ab_links taint_id) fuel
  unfolding dfs_taint taint
  dfs_taint-Searches zero t seed w there small =
      absurd (omega (arith, length-erase_lt seed t.keys there))
  dfs_taint-Searches (suc fuel) t seed w there small =
      let rest =
        visit_peers-Visits objects ab_links taint_id seed (dfs_taint fuel ab_links taint_id) fuel
          (dfs_taint-Searches fuel) (peers_of seed ab_links) (λ v h. h) (taint taint_id t seed)
          (λ k h. w k ((Paints-taint taint_id t seed there).0 k h))
          (omega (arith, length-erase_lt seed t.keys there)) in
      (rest.0, rest.1, Searches-Visits seed t rest.0 there rest.2)
