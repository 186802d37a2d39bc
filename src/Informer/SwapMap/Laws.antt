-- ===== src/Informer/SwapMap/Laws.antt =====
-- What the writes of pkg/util/informer/swap_map.go leave in the map, and what their answers tell.
use kelemetry.Base.{
  ◌≡◌, refl, subst, inl, inr, Bool, true, false, Option, none, some, if◌then◌else◌, Eq, ◌==◌,
  Bool-cases,
}
use kelemetry.Base.Map.{Map, IsMap, lookup, lookup-insert, lookup-erase, insert-IsMap, erase-IsMap}
use kelemetry.Informer.SwapMap.{noop, add, remove, replace, SwapResult, swap_found, swap_if, swap}

-- The answer that fits a change of one key, from the value before and the value after.
abbrev pub answer {ℓ} : {V : Type ℓ} → Option V → Option V → SwapResult V
answer none none = record { kind = noop; old_value = none; new_value = none }
answer none (some n) = record { kind = add; old_value = none; new_value = some n }
answer (some o) none = record { kind = remove; old_value = some o; new_value = none }
answer (some o) (some n) = record { kind = replace; old_value = some o; new_value = some n }

module _ {ℓ κ} {K : Type ℓ} {V : Type κ} ⦃e : Eq K⦄ where
  -- The map with one key set, or cleared if there is no new value.
  abbrev updated : Map K V → K → Option V → K → Option V
  updated m k new j = if k == j then new else lookup j m

  found_lookup :
      (k j : K) (new : Option V) (m : Map K V) (o : Option V)
      → lookup k m ≡ o
      → lookup j (swap_found k (λ _ _. true) m o new).0 ≡ updated m k new j
  unfolding swap_found
  found_lookup k j (some v) m (some o) h = lookup-insert k j v m
  found_lookup k j (some v) m none h = lookup-insert k j v m
  found_lookup k j none m (some o) h = lookup-erase k j m
  found_lookup k j none m none h = elim (Bool-cases (k == j)) [
    | inl t ↦ rw t (subst (λ i. lookup i m ≡ none) ((e.beq_iff k j).0 t) h)
    | inr t ↦ rw t refl
  ]

  found_IsMap :
      (k : K) (c : V → V → Bool) (new : Option V) (m : Map K V) (o : Option V)
      → IsMap m
      → IsMap (swap_found k c m o new).0
  unfolding swap_found
  found_IsMap k c (some v) m (some o) h = elim (Bool-cases (c o v)) [
    | inl t ↦ rw t (insert-IsMap k v m h)
    | inr t ↦ rw t h
  ]
  found_IsMap k c (some v) m none h = insert-IsMap k v m h
  found_IsMap k c none m (some o) h = erase-IsMap k m h
  found_IsMap k c none m none h = h

  found_answer :
      (k : K) (new : Option V) (m : Map K V) (o : Option V)
      → (swap_found k (λ _ _. true) m o new).1 ≡ answer o new
  unfolding swap_found
  found_answer k (some v) m (some o) = refl
  found_answer k (some v) m none = refl
  found_answer k none m (some o) = refl
  found_answer k none m none = refl

  -- A swap sets its key to the new value, or clears it, and touches no other key; its answer states
  -- the value that the key had and the value that it has now.
  pub swap_lem :
      (k : K) (new : Option V) (m : Map K V)
      → ((j : K) → lookup j (swap k new m).0 ≡ (if k == j then new else lookup j m))
        × ((swap k new m).1 ≡ answer (lookup k m) new)
        × (IsMap m → IsMap (swap k new m).0)
  unfolding swap
  swap_lem k new m = (
    λ j. found_lookup k j new m (lookup k m) refl,
    found_answer k new m (lookup k m),
    found_IsMap k (λ _ _. true) new m (lookup k m),
  )

  -- Where both values exist and the condition fails, nothing changes and the answer is no change.
  pub swap_if_refused :
      (k : K) (old new : V) (condition : V → V → Bool) (m : Map K V)
      → lookup k m ≡ some old
      → condition old new ≡ false
      → swap_if k (some new) condition m
        ≡ (m, record { kind = noop; old_value = none; new_value = none })
  unfolding swap_if
  swap_if_refused k old new condition m h c = rw (h, swap_found) (rw c refl)
