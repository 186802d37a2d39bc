-- ===== src/Base/Map.antt =====
-- Go maps as association lists. The order of the list is the order in which `range` visits the
-- entries, which Go leaves open.
use Prim.Native.Nat.{◌≤◌, ◌<◌}
use mathlib.Core.Path.{◌≡◌, refl, subst, ◌∙◌}
use mathlib.Core.Logic.{◌↔◌, inl, inr}
use mathlib.Core.Bool.{Bool, true, false}
use mathlib.Core.List.{List, [], ◌∷◌}
use mathlib.Core.Option.{Option, none, some}
use native.Mathlib.Omega.{arith}
use kelemetry.Base.Compare.{if◌then◌else◌, Bool-cases}
use kelemetry.Base.Lists.{length}
use kelemetry.Base.Equality.{Eq, ◌==◌}

abbrev pub Map {ℓ κ} : (K : Type ℓ) (V : Type κ) → Type (ℓ ⊔ κ)
Map K V = List (K × V)

module _ {ℓ κ} {K : Type ℓ} {V : Type κ} ⦃e : Eq K⦄ where
  -- `v, ok := m[k]`
  unfoldable pub lookup : K → Map K V → Option V
  lookup k [] = none
  lookup k ((j, v) ∷ m) = if j == k then some v else lookup k m

  -- `m[k] = v`
  unfoldable pub insert : K → V → Map K V → Map K V
  insert k v [] = (k, v) ∷ []
  insert k v ((j, w) ∷ m) = if j == k then (j, v) ∷ m else (j, w) ∷ insert k v m

  -- `delete(m, k)`
  unfoldable pub erase : K → Map K V → Map K V
  erase k [] = []
  erase k ((j, w) ∷ m) = if j == k then erase k m else (j, w) ∷ erase k m

  -- `_, ok := m[k]`
  unfoldable pub has : K → Map K V → Bool
  has k [] = false
  has k ((j, v) ∷ m) = if j == k then true else has k m

module _ {ℓ κ} {K : Type ℓ} {V : Type κ} ⦃e : Eq K⦄ where
  pub lookup-insert :
      (k j : K) (v : V) (m : Map K V)
      → lookup j (insert k v m) ≡ (if k == j then some v else lookup j m)
  unfolding lookup insert
  lookup-insert k j v [] = refl
  lookup-insert k j v ((other, old) ∷ more) =
      ground (arith, e.beq_iff other j, e.beq_iff other k, e.beq_iff k j, lookup-insert k j v more)

  pub lookup-erase :
      (k j : K) (m : Map K V) → lookup j (erase k m) ≡ (if k == j then none else lookup j m)
  unfolding lookup erase
  lookup-erase k j [] = ground (arith, e.beq_iff k j)
  lookup-erase k j ((i, w) ∷ m) =
      ground (arith, e.beq_iff k j, e.beq_iff i k, e.beq_iff i j, lookup-erase k j m)

  pub has-lookup : (k : K) (m : Map K V) → (has k m ≡ false) ↔ (lookup k m ≡ none)
  unfolding lookup has
  has-lookup k [] = (λ _. refl, λ _. refl)
  has-lookup k ((j, v) ∷ m) = ground (arith, has-lookup k m)

  pub has-insert :
      (k j : K) (v : V) (m : Map K V) → has j (insert k v m) ≡ (if k == j then true else has j m)
  unfolding insert has
  has-insert k j v [] = refl
  has-insert k j v ((i, w) ∷ m) =
      ground (arith, e.beq_iff k j, e.beq_iff i k, e.beq_iff i j, has-insert k j v m)

  pub has-erase : (k j : K) (m : Map K V) → has j (erase k m) ≡ (if k == j then false else has j m)
  unfolding erase has
  has-erase k j [] = ground (arith, e.beq_iff k j)
  has-erase k j ((i, w) ∷ m) =
      ground (arith, e.beq_iff k j, e.beq_iff i k, e.beq_iff i j, has-erase k j m)

-- Each key stands once: what a Go map gives, and the operations keep.
abbrev pub IsMap {ℓ κ} : {K : Type ℓ} {V : Type κ} ⦃e : Eq K⦄ → Map K V → Type 0
IsMap [] = Unit
IsMap ((k, v) ∷ m) = (has k m ≡ false) × IsMap m

module _ {ℓ κ} {K : Type ℓ} {V : Type κ} ⦃e : Eq K⦄ where
  pub insert-IsMap : (k : K) (v : V) (m : Map K V) → IsMap m → IsMap (insert k v m)
  unfolding insert has
  insert-IsMap k v [] h = (refl, tt)
  insert-IsMap k v ((j, w) ∷ m) h = elim (Bool-cases (j == k)) [
    | inl same ↦ rw same h
    | inr other ↦ rw other (
      has-insert k j v m ∙ ground (arith, h.0, e.beq_iff k j, e.beq_iff j k),
      insert-IsMap k v m h.1,
    )
  ]

  pub erase-IsMap : (k : K) (m : Map K V) → IsMap m → IsMap (erase k m)
  unfolding erase has
  erase-IsMap k [] h = tt
  erase-IsMap k ((j, w) ∷ m) h = elim (Bool-cases (j == k)) [
    | inl same ↦ rw same (erase-IsMap k m h.1)
    | inr other ↦
        rw other
          (has-erase k j m ∙ ground (arith, h.0, e.beq_iff k j, e.beq_iff j k), erase-IsMap k m h.1)
  ]

  pub if_IsMap : (b : Bool) (x y : Map K V) → IsMap x → IsMap y → IsMap (if b then x else y)
  if_IsMap true x y hx hy = hx
  if_IsMap false x y hx hy = hy

  pub has-cons :
      (k j : K) (v : V) (m : Map K V)
      → has k ((j, v) ∷ m) ≡ false
      → ((j == k) ≡ false) × (has k m ≡ false)
  unfolding has
  has-cons k j v m h = ground arith

  pub lookup-cons_self : (k : K) (v : V) (m : Map K V) → lookup k ((k, v) ∷ m) ≡ some v
  unfolding lookup
  lookup-cons_self k v m = rw ((e.beq_iff k k).1 refl) refl

  pub lookup-cons_of_lookup :
      (k j : K) (v w : V) (m : Map K V)
      → has k m ≡ false
      → lookup j m ≡ some w
      → lookup j ((k, v) ∷ m) ≡ some w
  unfolding lookup
  lookup-cons_of_lookup k j v w m h found = elim (Bool-cases (k == j)) [
    | inl t ↦
        let gone = subst (λ i. lookup i m ≡ none) ((e.beq_iff k j).0 t) ((has-lookup k m).0 h) in
        absurd (cc)
    | inr t ↦ rw t found
  ]

  pub length-erase_le : (k : K) (m : Map K V) → length (erase k m) ≤ length m
  unfolding erase
  length-erase_le k [] = omega arith
  length-erase_le k ((j, s) ∷ m) = elim (Bool-cases (j == k)) [
    | inl t ↦ rw t (omega (arith, length-erase_le k m))
    | inr t ↦ rw t (omega (arith, length-erase_le k m))
  ]

  pub length-erase_lt : (k : K) (m : Map K V) → has k m ≡ true → length (erase k m) < length m
  unfolding erase has
  length-erase_lt k [] h = absurd (cc)
  length-erase_lt k ((j, s) ∷ m) h = elim (Bool-cases (j == k)) [
    | inl t ↦ rw t (omega (arith, length-erase_le k m))
    | inr t ↦
        let later = length-erase_lt k m (subst (λ b. (if b then true else has k m) ≡ true) t h) in
        rw t (omega (arith, later))
  ]
