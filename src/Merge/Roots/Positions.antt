-- ===== src/Merge/Roots/Positions.antt =====
-- The positions of the tags that `mergeRootTags` of pkg/frontend/reader/merge/merge.go collects, and
-- what a write at such a position does.
use kelemetry.Base.{
  ℕ, zero, suc, ◌+◌, ◌≡◌, ◌⊎◌, refl, sym, subst, ◌∙◌, inl, inr, true, false, [], ◌∷◌, Option, none,
  some, String, arith, if◌then◌else◌, ◌==◌, string_eq, Bool-cases, get_elem?, set,
}
use kelemetry.Base.Map.{Map, lookup, insert, has, IsMap, lookup-insert}
use kelemetry.Merge.Roots.{Tags, tag_positions}

-- The key stands at the position.
abbrev pub At : Tags → String → ℕ → Type 0
At tags k pos = (v : String) × (get_elem? tags pos ≡ some (k, v))

pub tag_positions-some :
    (pos : ℕ) (tags : Tags) (tag_pos : Map String ℕ) (k : String) (i : ℕ)
    → lookup k (tag_positions pos tags tag_pos) ≡ some i
    → (lookup k tag_pos ≡ some i) ⊎ ((j : ℕ) × (i ≡ pos + j) × At tags k j)
unfolding tag_positions
tag_positions-some pos [] tag_pos k i h = inl h
tag_positions-some pos ((l, v) ∷ tags) tag_pos k i h =
    elim (tag_positions-some (suc pos) tags (insert l pos tag_pos) k i h) [
      | inl before ↦ elim (Bool-cases (l == k)) [
        | inl same ↦
            let here : some pos ≡ some i =
              sym (lookup-insert l k pos tag_pos ∙ rw same refl) ∙ before in
            let now : pos ≡ i = cc in
            inr (0, omega (arith, now), (v, λ t. some ((string_eq.beq_iff l k).0 same t, v)))
        | inr other ↦ inl (sym (lookup-insert l k pos tag_pos ∙ rw other refl) ∙ before)
      ]
      | inr later ↦ inr (suc later.0, omega (arith, later.1), later.2)
    ]

pub tag_positions-none :
    (pos : ℕ) (tags : Tags) (tag_pos : Map String ℕ) (k : String)
    → lookup k (tag_positions pos tags tag_pos) ≡ none
    → (lookup k tag_pos ≡ none) × (has k tags ≡ false)
unfolding tag_positions has
tag_positions-none pos [] tag_pos k h = (h, refl)
tag_positions-none pos ((l, v) ∷ tags) tag_pos k h =
    let rest = tag_positions-none (suc pos) tags (insert l pos tag_pos) k h in
    let inserted = sym (lookup-insert l k pos tag_pos) ∙ rest.0 in
    elim (Bool-cases (l == k)) [
      | inl same ↦
          let here : some pos ≡ none =
            subst (λ b. (if b then some pos else lookup k tag_pos) ≡ none) same inserted in
          absurd (cc)
      | inr other ↦ (
        subst (λ b. (if b then some pos else lookup k tag_pos) ≡ none) other inserted,
        rw other rest.1,
      )
    ]

pub key_of :
    (l w k v : String) → ◌≡◌ {A = Option (String × String)} (some (l, w)) (some (k, v)) → l ≡ k
key_of l w k v h = cc

-- A write at the position of a key puts the new value under it, and leaves the other keys.
pub has-set :
    (tags : Tags) (k j v : String) (pos : ℕ)
    → At tags k pos
    → has j (set tags pos (k, v)) ≡ has j tags
unfolding has
has-set [] k j v pos at = refl
has-set ((l, w) ∷ tags) k j v zero at =
    let same = key_of l w k at.0 at.1 in λ t. if sym same t == j then true else has j tags
has-set ((l, w) ∷ tags) k j v (suc pos) at = elim (Bool-cases (l == j)) [
  | inl same ↦ rw same refl
  | inr other ↦ rw other (has-set tags k j v pos at)
]

pub set-IsMap :
    (tags : Tags) (k v : String) (pos : ℕ)
    → At tags k pos
    → IsMap tags
    → IsMap (set tags pos (k, v))
set-IsMap [] k v pos at m = tt
set-IsMap ((l, w) ∷ tags) k v zero at m =
    let same = key_of l w k at.0 at.1 in (subst (λ i. has i tags ≡ false) same m.0, m.1)
set-IsMap ((l, w) ∷ tags) k v (suc pos) at m =
    (has-set tags k l v pos at ∙ m.0, set-IsMap tags k v pos at m.1)

pub has-At : (tags : Tags) (k : String) (pos : ℕ) → At tags k pos → has k tags ≡ true
unfolding has
has-At [] k pos at = absurd (let h = at.1 in cc)
has-At ((l, w) ∷ tags) k zero at =
    let same = key_of l w k at.0 at.1 in rw ((string_eq.beq_iff l k).1 same) refl
has-At ((l, w) ∷ tags) k (suc pos) at = elim (Bool-cases (l == k)) [
  | inl same ↦ rw same refl
  | inr other ↦ rw other (has-At tags k pos at)
]

pub lookup-set :
    (tags : Tags) (k j v : String) (pos : ℕ)
    → At tags k pos
    → IsMap tags
    → lookup j (set tags pos (k, v)) ≡ (if k == j then some v else lookup j tags)
unfolding lookup
lookup-set [] k j v pos at m = absurd (let h = at.1 in cc)
lookup-set ((l, w) ∷ tags) k j v zero at m =
    let same = key_of l w k at.0 at.1 in
    elim (Bool-cases (k == j)) [ inl t ↦ rw t refl | inr t ↦ rw t (rw (same, t) refl) ]
lookup-set ((l, w) ∷ tags) k j v (suc pos) at m = elim (Bool-cases (l == j)) [
  | inl t ↦
      let twice : k ≡ j → has l tags ≡ true = λ e.
        subst (λ i. has i tags ≡ true) (e ∙ sym ((string_eq.beq_iff l j).0 t))
          (has-At tags k pos at) in
      elim (Bool-cases (k == j)) [
        | inl u ↦ let again = twice ((string_eq.beq_iff k j).0 u) in let alone = m.0 in absurd (cc)
        | inr u ↦ rw (t, u) refl
      ]
  | inr t ↦ rw t (lookup-set tags k j v pos at m.1)
]
