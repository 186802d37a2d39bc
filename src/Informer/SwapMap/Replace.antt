-- ===== src/Informer/SwapMap/Replace.antt =====
-- `SwapMapReplace` of pkg/util/informer/swap_map.go: a whole new content, and an answer for every
-- key that was or is there.
use kelemetry.Base.{◌≡◌, refl, ◌∙◌, [], ◌∷◌, Option, none, some, arith, if◌then◌else◌, Eq}
use kelemetry.Base.Map.{
  Map, IsMap, lookup, insert, erase, has, lookup-insert, lookup-erase, has-lookup, insert-IsMap,
  erase-IsMap, if_IsMap,
}
use kelemetry.Informer.SwapMap.{
  remove, SwapResult, swap, remove_missing, swap_all, swap_map_replace,
}
use kelemetry.Informer.SwapMap.Laws.{answer, swap_lem}

-- A value where there is one, and otherwise a default.
abbrev pub fold_option {ℓ κ} : {U : Type ℓ} {X : Type κ} → Option U → (U → X) → X → X
fold_option none f d = d
fold_option (some u) f d = f u

abbrev removed {ℓ} : {V : Type ℓ} → V → SwapResult V
removed v = record { kind = remove; old_value = some v; new_value = none }

module _ {ℓ κ μ} {K : Type ℓ} {V : Type κ} {U : Type μ} ⦃e : Eq K⦄ (values : Map K U) where
  lookup-remove_missing :
      (j : K) (visited m : Map K V) (output : Map K (SwapResult V))
      → lookup j (remove_missing values visited m output).0
        ≡ (if has j values then lookup j m else if has j visited then none else lookup j m)
  unfolding remove_missing has
  lookup-remove_missing j [] m output = ground arith
  lookup-remove_missing j ((k, v) ∷ visited) m output =
      lookup-remove_missing j visited (if has k values then m else erase k m) _
      ∙ ground (arith, lookup-erase k j m, e.beq_iff k j)

  answer-remove_missing :
      (j : K) (visited m : Map K V) (output : Map K (SwapResult V))
      → IsMap visited
      → lookup j (remove_missing values visited m output).1 ≡ (
          if has j values
          then lookup j output
          else fold_option (lookup j visited) (λ v. some (removed v)) (lookup j output))
  unfolding remove_missing lookup
  answer-remove_missing j [] m output h = ground arith
  answer-remove_missing j ((k, v) ∷ visited) m output h =
      answer-remove_missing j visited _
        (if has k values then output else insert k (removed v) output) h.1
      ∙ ground
          (arith, lookup-insert k j (removed v) output, e.beq_iff k j, has-lookup k visited, h.0)

  remove_missing-IsMap :
      (visited m : Map K V) (output : Map K (SwapResult V))
      → IsMap m
      → IsMap output
      → IsMap (remove_missing values visited m output).0
        × IsMap (remove_missing values visited m output).1
  unfolding remove_missing
  remove_missing-IsMap [] m output hm ho = (hm, ho)
  remove_missing-IsMap ((k, v) ∷ visited) m output hm ho =
      remove_missing-IsMap visited _ _
        (if_IsMap (has k values) m (erase k m) hm (erase-IsMap k m hm))
        (if_IsMap (has k values) output _ ho (insert-IsMap k (removed v) output ho))

-- What a key answers when a whole new content comes in: nothing if it is in neither.
abbrev pub replace_answer {ℓ κ} :
    {V : Type ℓ} {U : Type κ} → (U → V) → Option V → Option U → Option (SwapResult V)
replace_answer transform none none = none
replace_answer transform (some o) none = some (answer (some o) none)
replace_answer transform none (some u) = some (answer none (some (transform u)))
replace_answer transform (some o) (some u) = some (answer (some o) (some (transform u)))

module _ {ℓ κ μ} {K : Type ℓ} {V : Type κ} {U : Type μ} ⦃e : Eq K⦄ (transform : U → V) where
  -- The answers and the map after the second loop.
  lookup-swap_all :
      (j : K) (values : Map K U) (m : Map K V) (output : Map K (SwapResult V))
      → IsMap values
      → lookup j (swap_all transform values m output).0
        ≡ fold_option (lookup j values) (λ u. some (transform u)) (lookup j m)
  unfolding swap_all lookup swap
  lookup-swap_all j [] m output h = refl
  lookup-swap_all j ((k, u) ∷ values) m output h =
      let (sets, tells, _) = swap_lem k (some (transform u)) m in
      lookup-swap_all j values (swap k (some (transform u)) m).0 _ h.1
      ∙ ground (arith, sets j, e.beq_iff k j, has-lookup k values, h.0)

  answer-swap_all :
      (j : K) (values : Map K U) (m : Map K V) (output : Map K (SwapResult V))
      → IsMap values
      → lookup j (swap_all transform values m output).1
        ≡ fold_option
            (lookup j values)
            (λ u. some (answer (lookup j m) (some (transform u))))
            (lookup j output)
  unfolding swap_all lookup swap
  answer-swap_all j [] m output h = refl
  answer-swap_all j ((k, u) ∷ values) m output h =
      let (sets, tells, _) = swap_lem k (some (transform u)) m in
      answer-swap_all j values (swap k (some (transform u)) m).0
        (insert k (swap k (some (transform u)) m).1 output) h.1
      ∙ ground (
        arith,
        sets j,
        tells,
        lookup-insert k j (swap k (some (transform u)) m).1 output,
        e.beq_iff k j,
        has-lookup k values,
        h.0,
      )

  -- A replacement leaves exactly the new content, each value transformed, and answers for each key
  -- that was or is there with the change of that key, and for no other key.
  pub swap_map_replace_lem :
      (m : Map K V) (values : Map K U)
      → IsMap m
      → IsMap values
      → (j : K)
      → (lookup j (swap_map_replace m values transform).0
          ≡ fold_option (lookup j values) (λ u. some (transform u)) none)
        × (lookup j (swap_map_replace m values transform).1
            ≡ replace_answer transform (lookup j m) (lookup j values))
  unfolding swap_map_replace lookup
  swap_map_replace_lem m values hm hv j =
      let kept = (remove_missing values m m []).0 in
      let removals = (remove_missing values m m []).1 in
      let keeps = lookup-remove_missing values j m m [] in
      let tells = answer-remove_missing values j m m [] hm in
      (
        lookup-swap_all j values kept removals hv
            ∙ ground (arith, keeps, has-lookup j values, has-lookup j m),
        answer-swap_all j values kept removals hv
            ∙ ground (arith, keeps, tells, has-lookup j values, has-lookup j m),
      )

  swap_all-IsMap :
      (values : Map K U) (m : Map K V) (output : Map K (SwapResult V))
      → IsMap m
      → IsMap output
      → IsMap (swap_all transform values m output).0 × IsMap (swap_all transform values m output).1
  unfolding swap_all swap
  swap_all-IsMap [] m output hm ho = (hm, ho)
  swap_all-IsMap ((k, u) ∷ values) m output hm ho =
      let (_, _, keeps) = swap_lem k (some (transform u)) m in
      swap_all-IsMap values (swap k (some (transform u)) m).0 _ (keeps hm)
        (insert-IsMap k (swap k (some (transform u)) m).1 output ho)

  pub swap_map_replace-IsMap :
      (m : Map K V) (values : Map K U)
      → IsMap m
      → IsMap (swap_map_replace m values transform).0
        × IsMap (swap_map_replace m values transform).1
  unfolding swap_map_replace
  swap_map_replace-IsMap m values hm =
      let (kept, removals) = remove_missing-IsMap values m m [] hm tt in
      swap_all-IsMap values _ _ kept removals
