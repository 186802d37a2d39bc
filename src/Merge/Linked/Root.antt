-- ===== src/Merge/Linked/Root.antt =====
-- The search for a root in pkg/frontend/reader/merge/merge.go, `dfsRoot`.
use kelemetry.Base.{
  ℕ, zero, suc, ◌<◌, ◌≡◌, refl, sym, subst, ◌∙◌, inl, inr, Bool, true, false, ◌&&◌, [], ◌∷◌, none,
  some, arith, if◌then◌else◌, ◌==◌, length, Bool-cases, Option-cases,
}
use kelemetry.Base.Map.{Map, insert, erase, has, has-insert, has-erase, length-erase_lt}
use kelemetry.Aggregator.{Key}
use kelemetry.SpanTree.{struct}
use kelemetry.Merge.{AbLink, AbLinkMap, key_eq, peers_of, is_parent}
use kelemetry.Merge.Components.{KeySet}
use kelemetry.Merge.Linked.{first_parent, dfs_root, detect_root}

and_left : (a b : Bool) → (a && b) ≡ true → a ≡ true
and_left true b h = refl
and_left false b h = h

first_parent-passes :
    (vertex_filter : Key → Bool) (peers : Map Key AbLink) (parent : Key)
    → first_parent vertex_filter peers ≡ some parent
    → vertex_filter parent ≡ true
unfolding first_parent
first_parent-passes vertex_filter [] parent h = absurd (cc)
first_parent-passes vertex_filter ((peer, link) ∷ peers) parent h =
    elim (Bool-cases (vertex_filter peer && is_parent link peer)) [
      | inl t ↦
          let found : some peer ≡ some parent =
            subst (λ b. (if b then some peer else first_parent vertex_filter peers) ≡ some parent) t
              h in
          let same : peer ≡ parent = cc in
          subst (λ k. vertex_filter k ≡ true) same
            (and_left (vertex_filter peer) (is_parent link peer) t)
      | inr t ↦ first_parent-passes vertex_filter peers parent (
          subst (λ b. (if b then some peer else first_parent vertex_filter peers) ≡ some parent) t
            h)
    ]

-- From an object upwards along links to parents.
pub data Ascends (ab_links : AbLinkMap) (vertex_filter : Key → Bool) : Key → Key → Type 0 where
  stay : (k : Key) → Ascends ab_links vertex_filter k k
  up :
      (k parent top : Key)
      → first_parent vertex_filter (peers_of k ab_links) ≡ some parent
      → Ascends ab_links vertex_filter parent top
      → Ascends ab_links vertex_filter k top

up_again :
    (ab_links : AbLinkMap) (vertex_filter : Key → Bool) (k top parent : Key)
    → Ascends ab_links vertex_filter k top
    → first_parent vertex_filter (peers_of top ab_links) ≡ some parent
    → Ascends ab_links vertex_filter k parent
up_again ab_links vertex_filter _ _ parent (stay k) h = up k parent parent h (stay parent)
up_again ab_links vertex_filter _ _ parent (up k next top above way) h =
    up k next parent above (up_again ab_links vertex_filter next top parent way h)

-- One link upwards at least.
abbrev pub Climbs : AbLinkMap → (Key → Bool) → Key → Key → Type 0
Climbs ab_links vertex_filter k top =
    (parent : Key) × (first_parent vertex_filter (peers_of k ab_links) ≡ some parent)
    × Ascends ab_links vertex_filter parent top

-- What the search answers: an object above the seed, without parent, or else on a cycle of parents.
abbrev pub FindsRoot : AbLinkMap → (Key → Bool) → Key → Key × Bool → Type 0
FindsRoot ab_links vertex_filter seed found =
    (vertex_filter found.0 ≡ true)
    × Ascends ab_links vertex_filter seed found.0
    × (found.1 ≡ false → first_parent vertex_filter (peers_of found.0 ab_links) ≡ none)
    × (found.1 ≡ true → Climbs ab_links vertex_filter found.0 found.0)

module _ (ab_links : AbLinkMap) (vertex_filter : Key → Bool) where
  -- The search came to an object from all those that it has visited.
  abbrev Passed : KeySet → Key → Type 0
  Passed visited key = (k : Key) → has k visited ≡ true → Climbs ab_links vertex_filter k key

  still-Passed :
      (visited : KeySet) (key parent : Key)
      → Passed visited key
      → first_parent vertex_filter (peers_of key ab_links) ≡ some parent
      → Passed (insert key struct visited) parent
  still-Passed visited key parent passed above k h =
      let was = sym (has-insert key k struct visited) ∙ h in
      elim (Bool-cases (key == k)) [
        | inl t ↦
            subst (λ i. Climbs ab_links vertex_filter i parent) ((key_eq.beq_iff key k).0 t)
              (parent, above, stay parent)
        | inr t ↦
            let (next, link, way) =
              passed k (subst (λ b. (if b then true else has k visited) ≡ true) t was) in
            (next, link, up_again ab_links vertex_filter next key parent way above)
      ]

module _ {κ} {V : Type κ} (ab_links : AbLinkMap) (vertex_filter : Key → Bool) where
  -- `left` holds the objects that the search has not met, at least.
  abbrev Covers : KeySet → Map Key V → Type 0
  Covers visited left =
      (k : Key) → vertex_filter k ≡ true → has k visited ≡ false → has k left ≡ true

  still_covered :
      (visited : KeySet) (key : Key) (left : Map Key V)
      → Covers visited left
      → Covers (insert key struct visited) (erase key left)
  still_covered visited key left cover k h fresh =
      let was = sym (has-insert key k struct visited) ∙ fresh in
      elim (Bool-cases (key == k)) [
        | inl t ↦
            let no : true ≡ false =
              subst (λ b. (if b then true else has k visited) ≡ false) t was in
            absurd (cc)
        | inr t ↦
            has-erase key k left
            ∙ rw t (cover k h (subst (λ b. (if b then true else has k visited) ≡ false) t was))
      ]

  dfs_root-FindsRoot :
      (fuel : ℕ) (visited : KeySet) (key : Key) (left : Map Key V)
      → Covers visited left
      → Passed ab_links vertex_filter visited key
      → vertex_filter key ≡ true
      → length left < fuel
      → (found : Key × Bool) × (dfs_root fuel ab_links vertex_filter visited key ≡ some found)
        × FindsRoot ab_links vertex_filter key found
  unfolding dfs_root
  dfs_root-FindsRoot zero visited key left cover passed passes small = absurd (omega arith)
  dfs_root-FindsRoot (suc fuel) visited key left cover passed passes small =
      elim (Bool-cases (has key visited)) [
        | inl t ↦
            ((key, true), rw t refl, (passes, stay key, (λ no. absurd (cc)), λ yes. passed key t))
        | inr t ↦ elim (Option-cases (first_parent vertex_filter (peers_of key ab_links))) [
          | inl alone ↦ (
            (key, false),
            rw t (rw (alone, dfs_root) refl),
            (passes, stay key, (λ no. alone), λ yes. absurd (cc)),
          )
          | inr (parent, above) ↦
              let rest =
                dfs_root-FindsRoot fuel (insert key struct visited) parent (erase key left)
                  (still_covered visited key left cover)
                  (still-Passed ab_links vertex_filter visited key parent passed above)
                  (first_parent-passes vertex_filter (peers_of key ab_links) parent above)
                  (omega (arith, small, length-erase_lt key left (cover key passes t))) in
              (
                rest.0,
                rw t (rw (above, dfs_root) rest.1),
                (rest.2.0, up key parent rest.0.0 above rest.2.1, rest.2.2, rest.2.3),
              )
        ]
      ]

pub detect_root-FindsRoot {κ} :
    {V : Type κ} (ab_links : AbLinkMap) (trees : Map Key V) (seed : Key)
    → has seed trees ≡ true
    → (found : Key × Bool) × (detect_root (suc (length trees)) ab_links (λ key. has key trees) seed
        ≡ some found)
      × FindsRoot ab_links (λ key. has key trees) seed found
unfolding detect_root has
detect_root-FindsRoot ab_links trees seed there =
    dfs_root-FindsRoot ab_links (λ key. has key trees) (suc (length trees)) [] seed trees
      (λ k h fresh. h) (λ k h. absurd (cc)) there (omega arith)
