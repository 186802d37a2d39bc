-- ===== src/Informer/SwapMap.antt =====
-- pkg/util/informer/swap_map.go: a map whose writes answer with what they replaced. Each method
-- holds the map's mutex, so it is one function of the state.
pub mod Laws
pub mod Replace
use kelemetry.Base.{Bool, true, false, List, [], ◌∷◌, Option, none, some, if◌then◌else◌, Eq, ◌==◌}
use kelemetry.Base.Map.{Map, lookup, insert, erase, has}

pub data SwapResultKind : Type 0 where
  noop add remove replace : SwapResultKind

-- A field that the source leaves at the zero value is `none`.
pub record SwapResult {ℓ} (V : Type ℓ) : Type ℓ where
  pub kind : SwapResultKind
  pub old_value : Option V
  pub new_value : Option V

module _ {ℓ κ} {K : Type ℓ} {V : Type κ} ⦃e : Eq K⦄ where
  -- The four branches, on what the map holds and on what is offered.
  swap_found : K → (V → V → Bool) → Map K V → Option V → Option V → Map K V × SwapResult V
  swap_found key condition m (some old) (some new) =
      if condition old new
      then (insert key new m, record { kind = replace; old_value = some old; new_value = some new })
      else (m, record { kind = noop; old_value = none; new_value = none })
  swap_found key condition m (some old) none =
      (erase key m, record { kind = remove; old_value = some old; new_value = none })
  swap_found key condition m none (some new) =
      (insert key new m, record { kind = add; old_value = none; new_value = some new })
  swap_found key condition m none none =
      (m, record { kind = noop; old_value = none; new_value = none })

  -- `newValue` with `hasNewValue` is an `Option`.
  unfoldable pub locked_swap_if : K → Option V → (V → V → Bool) → Map K V → Map K V × SwapResult V
  unfolding swap_found
  locked_swap_if key new condition m = swap_found key condition m (lookup key m) new

  unfoldable pub swap_if : K → Option V → (V → V → Bool) → Map K V → Map K V × SwapResult V
  unfolding locked_swap_if
  swap_if key new condition m = locked_swap_if key new condition m

  unfoldable pub swap : K → Option V → Map K V → Map K V × SwapResult V
  unfolding swap_if
  swap key new m = swap_if key new (λ _ _. true) m

  -- The first loop of `SwapMapReplace`: the entries of the map whose key is not among the new ones
  -- go, each with its answer.
  unfoldable pub remove_missing {μ} :
      {U : Type μ}
      → Map K U
      → Map K V
      → Map K V
      → Map K (SwapResult V)
      → Map K V × Map K (SwapResult V)
  remove_missing values [] m output = (m, output)
  remove_missing values ((key, value) ∷ visited) m output =
      remove_missing values visited (if has key values then m else erase key m) (
        if has key values
        then output
        else insert key (record { kind = remove; old_value = some value; new_value = none }) output)

  -- The second loop: each new entry is swapped in.
  unfoldable pub swap_all {μ} :
      {U : Type μ}
      → (U → V)
      → Map K U
      → Map K V
      → Map K (SwapResult V)
      → Map K V × Map K (SwapResult V)
  unfolding locked_swap_if
  swap_all transform [] m output = (m, output)
  swap_all transform ((key, value) ∷ values) m output =
      let (m', result) = locked_swap_if key (some (transform value)) (λ _ _. true) m in
      swap_all transform values m' (insert key result output)

  unfoldable pub swap_map_replace {μ} :
      {U : Type μ} → Map K V → Map K U → (U → V) → Map K V × Map K (SwapResult V)
  unfolding remove_missing swap_all
  swap_map_replace m values transform =
      let (kept, removed) = remove_missing values m m [] in swap_all transform values kept removed
