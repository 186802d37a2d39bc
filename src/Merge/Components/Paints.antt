-- ===== src/Merge/Components/Paints.antt =====
-- What a part of the search of pkg/frontend/reader/merge/merge.go, `dfsTaint`, may do to the keys
-- and the colours.
use kelemetry.Base.{
  ℕ, ◌≤◌, ◌<◌, ◌≡◌, refl, subst, ◌∙◌, inl, inr, true, false, not, ◌&&◌, Option, some, arith,
  if◌then◌else◌, ◌==◌, length, Bool-cases,
}
use kelemetry.Base.Map.{
  length-erase_le, Map, lookup, has, has-erase, lookup-insert, IsMap, insert-IsMap,
}
use kelemetry.Aggregator.{Key}
use kelemetry.Merge.{AbLink, AbLinkMap, key_eq, peers_of}
use kelemetry.Merge.Components.{KeySet, Tainting, taint}

-- From one object to another along links, each to an object of the merger.
pub data Reaches (objects : KeySet) (ab_links : AbLinkMap) : Key → Key → Type 0 where
  here : (u : Key) → Reaches objects ab_links u u
  step :
      (u v w : Key)
      → has v (peers_of u ab_links) ≡ true
      → has v objects ≡ true
      → Reaches objects ab_links v w
      → Reaches objects ab_links u w

-- A part of a search removes keys and paints what it removes.
abbrev pub Paints : ℕ → Tainting → Tainting → Type 0
Paints taint_id t t' =
    ((k : Key) → has k t'.keys ≡ true → has k t.keys ≡ true)
    × (length t'.keys ≤ length t.keys)
    × ((k : Key)
        → lookup k t'.taints
          ≡ (if has k t.keys && not (has k t'.keys) then some taint_id else lookup k t.taints))
    × (IsMap t.taints → IsMap t'.taints)

-- The peers of what is removed are gone.
abbrev pub Closed : AbLinkMap → Tainting → Tainting → Type 0
Closed ab_links t t' =
    (u v : Key)
    → has u t.keys ≡ true
    → has u t'.keys ≡ false
    → has v (peers_of u ab_links) ≡ true
    → has v t'.keys ≡ false

-- What is removed is reached from the seed.
abbrev pub Found : KeySet → AbLinkMap → Key → Tainting → Tainting → Type 0
Found objects ab_links seed t t' =
    (u : Key) → has u t.keys ≡ true → has u t'.keys ≡ false → Reaches objects ab_links seed u

abbrev pub Within : KeySet → Tainting → Type 0
Within objects t = (k : Key) → has k t.keys ≡ true → has k objects ≡ true

abbrev pub Searches : KeySet → AbLinkMap → ℕ → Key → Tainting → Tainting → Type 0
Searches objects ab_links taint_id seed t t' =
    Paints taint_id t t'
    × Closed ab_links t t'
    × (has seed t'.keys ≡ false)
    × Found objects ab_links seed t t'
    × (length t'.keys < length t.keys)

-- What the recursive call promises on up to `n` keys.
abbrev pub Dives : KeySet → AbLinkMap → ℕ → (Tainting → Key → Option Tainting) → ℕ → Type 0
Dives objects ab_links taint_id dive n =
    (t : Tainting) (peer : Key)
    → Within objects t
    → has peer t.keys ≡ true
    → length t.keys ≤ n
    → (t' : Tainting) × (dive t peer ≡ some t') × Searches objects ab_links taint_id peer t t'

-- What the loop over the peers of a seed promises.
abbrev pub Visits : KeySet → AbLinkMap → ℕ → Key → Map Key AbLink → Tainting → Tainting → Type 0
Visits objects ab_links taint_id seed peers t t' =
    Paints taint_id t t'
    × Closed ab_links t t'
    × ((v : Key) → has v peers ≡ true → has v t'.keys ≡ false)
    × Found objects ab_links seed t t'

module _ (taint_id : ℕ) where
  pub Paints-refl : (t : Tainting) → Paints taint_id t t
  Paints-refl t = (λ k h. h, omega arith, λ k. ground arith, λ m. m)

  pub Paints-trans :
      (t t' t'' : Tainting) → Paints taint_id t t' → Paints taint_id t' t'' → Paints taint_id t t''
  Paints-trans t t' t'' p q = (
    λ k h. p.0 k (q.0 k h),
    omega (arith, p.1, q.1),
    λ k. ground (arith, p.0 k, q.0 k, p.2 k, q.2 k),
    λ m. q.3 (p.3 m),
  )

  pub Paints-taint :
      (t : Tainting) (seed : Key)
      → has seed t.keys ≡ true
      → Paints taint_id t (taint taint_id t seed)
  unfolding taint
  Paints-taint t seed h = (
    λ k g. ground (arith, has-erase seed k t.keys),
    length-erase_le seed t.keys,
    λ k. lookup-insert seed k taint_id t.taints ∙ elim (Bool-cases (seed == k)) [
      | inl same ↦
          let there : has k t.keys ≡ true =
            subst (λ j. has j t.keys ≡ true) ((key_eq.beq_iff seed k).0 same) h in
          rw (same, there, has-erase seed k t.keys) (rw same refl)
      | inr other ↦ rw (other, has-erase seed k t.keys) (rw other (ground arith))
    ],
    insert-IsMap seed taint_id t.taints,
  )

pub Closed-trans :
    (ab_links : AbLinkMap) (taint_id : ℕ) (t t' t'' : Tainting)
    → Closed ab_links t t'
    → Closed ab_links t' t''
    → Paints taint_id t' t''
    → Closed ab_links t t''
Closed-trans ab_links taint_id t t' t'' c d q u v there gone peer =
    elim (Bool-cases (has u t'.keys)) [
      | inl still ↦ d u v still gone peer
      | inr left ↦ let closed = c u v there left peer in ground (arith, q.0 v)
    ]

pub not_has :
    (taint_id : ℕ) (t t' : Tainting) (k : Key)
    → Paints taint_id t t'
    → has k t.keys ≡ false
    → has k t'.keys ≡ false
not_has taint_id t t' k p h = ground (arith, p.0 k)
