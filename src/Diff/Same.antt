-- ===== src/Diff/Same.antt =====
-- What pkg/diff/cmp/cmp.go reports: nothing between a value and itself, and an added key twice.
use kelemetry.Base.{
  ℕ, zero, suc, ◌+◌, ◌≤◌, ◌≡◌, refl, ap, inl, inr, Bool, true, false, List, [], ◌∷◌, ◌++◌, Option,
  some, arith, String, ◌==◌, nat_eq, string_eq, Bool-cases, Option-cases,
}
use kelemetry.Diff.{
  Value, null, string_value, bool_value, int_value, float_value, map_value, slice_value, Fields,
  no_fields, field, Items, no_items, item, Diff, push_diff, same_bool, field_of, keys_of, item_at,
  compare_maybe_primitive, compare_key, compare_keys, compare_items, compare_structures, compare_at,
  depth, depth_fields, depth_items,
}

depth_pos : (v : Value) → 1 ≤ depth v
unfolding depth
depth_pos null = omega arith
depth_pos (string_value s) = omega arith
depth_pos (bool_value b) = omega arith
depth_pos (int_value s n) = omega arith
depth_pos (float_value n) = omega arith
depth_pos (map_value fs) = omega arith
depth_pos (slice_value items) = omega arith

depth-field_of :
    (key : String) (fs : Fields) (v : Value) → field_of key fs ≡ some v → depth v ≤ depth_fields fs
unfolding depth_fields
depth-field_of key no_fields v h = absurd (cc)
depth-field_of key (field k w more) v h = elim (Bool-cases (k == key)) [
  | inl t ↦
      let h' : some w ≡ some v = rw t at h in
      let same : depth w ≡ depth v = ap depth (cc) in omega arith
  | inr t ↦
      let h' : field_of key more ≡ some v = rw t at h in omega (arith, depth-field_of key more v h')
]

depth_fields_pos : (fs : Fields) → 1 ≤ depth_fields fs
unfolding depth_fields
depth_fields_pos no_fields = omega arith
depth_fields_pos (field k v more) = omega (arith, depth_pos v)

depth_items_pos : (items : Items) → 1 ≤ depth_items items
unfolding depth_items
depth_items_pos no_items = omega arith
depth_items_pos (item v more) = omega (arith, depth_pos v)

depth-item_at : (items : Items) (i : ℕ) → depth (item_at items i) ≤ depth_items items
unfolding depth depth_items
depth-item_at no_items i = omega arith
depth-item_at (item v more) zero = omega arith
depth-item_at (item v more) (suc i) = omega (arith, depth-item_at more i)

same_bool_self : (b : Bool) → same_bool b b ≡ true
same_bool_self true = refl
same_bool_self false = refl

-- Every key of the list has a value.
abbrev pub Found : Fields → List String → Type 0
Found fs [] = Unit
Found fs (key ∷ keys) = ((v : Value) × (field_of key fs ≡ some v)) × Found fs keys

-- A difference for each key, from no value to the value in the map.
abbrev pub added : List String → (fs : Fields) (keys : List String) → Found fs keys → List Diff
added path fs [] h = []
added path fs (key ∷ keys) ((v, _), h) = push_diff (path ++ key ∷ []) null v ++ added path fs keys h

abbrev pub twice : List Diff → List Diff
twice [] = []
twice (d ∷ ds) = d ∷ (d ∷ twice ds)

module _ (sorted_keys : List String → List String) (format_index : ℕ → String)
    (float_eq : ℕ → ℕ → Bool) where
  -- A comparison that finds nothing between the values that it is asked for.
  abbrev Silent : (List String → Value → Value → Option (List Diff)) → Value → Type 0
  Silent deeper v = (path : List String) → deeper path v v ≡ some []

  compare_keys-same :
      (deeper : List String → Value → Value → Option (List Diff)) (path : List String) (fs : Fields)
      (keys : List String)
      → Silent deeper null
      → ((key : String) (v : Value) → field_of key fs ≡ some v → Silent deeper v)
      → compare_keys sorted_keys format_index float_eq deeper path fs fs keys ≡ some []
  unfolding compare_keys compare_key
  compare_keys-same deeper path fs [] nothing each = refl
  compare_keys-same deeper path fs (key ∷ keys) nothing each =
      let later = compare_keys-same deeper path fs keys nothing each in
      elim (Option-cases (field_of key fs)) [
        | inl missing ↦ rw (missing, nothing (path ++ key ∷ []), later) refl
        | inr (v, there) ↦ rw (there, each key v there (path ++ key ∷ []), later) refl
      ]

  compare_items-same :
      (deeper : List String → Value → Value → Option (List Diff)) (path : List String)
      (items : Items) (rounds i : ℕ)
      → ((i : ℕ) → Silent deeper (item_at items i))
      → compare_items sorted_keys format_index float_eq deeper path rounds i items items ≡ some []
  unfolding compare_items
  compare_items-same deeper path items zero i each = refl
  compare_items-same deeper path items (suc rounds) i each =
      rw
        (
          each i (path ++ format_index i ∷ []),
          compare_items-same deeper path items rounds (i + 1) each,
        )
        refl

  -- A value does not differ from itself, given fuel for its depth. Floats must equal themselves, as
  -- those of a JSON text do.
  pub compare_at-same :
      (fuel : ℕ) (path : List String) (v : Value)
      → ((n : ℕ) → float_eq n n ≡ true)
      → depth v ≤ fuel
      → compare_at sorted_keys format_index float_eq fuel path v v ≡ some []
  unfolding compare_at compare_maybe_primitive compare_structures depth
  compare_at-same zero path v f h = absurd (omega (arith, depth_pos v))
  compare_at-same (suc fuel) path null f h = refl
  compare_at-same (suc fuel) path (string_value s) f h = rw ((string_eq.beq_iff s s).1 refl) refl
  compare_at-same (suc fuel) path (bool_value b) f h = rw (same_bool_self b) refl
  compare_at-same (suc fuel) path (int_value s n) f h =
      rw (same_bool_self s, (nat_eq.beq_iff n n).1 refl) refl
  compare_at-same (suc fuel) path (float_value n) f h = rw (f n) refl
  compare_at-same (suc fuel) path (map_value fs) f h =
      compare_keys-same (λ p o n. compare_at sorted_keys format_index float_eq fuel p o n) path fs _
        (λ p. compare_at-same fuel p null f (omega (arith, depth_fields_pos fs)))
        (λ key v there p. compare_at-same fuel p v f (omega (arith, depth-field_of key fs v there)))
  compare_at-same (suc fuel) path (slice_value items) f h =
      compare_items-same (λ p o n. compare_at sorted_keys format_index float_eq fuel p o n) path
        items _ 0
        (λ i p. compare_at-same fuel p (item_at items i) f (omega (arith, depth-item_at items i)))

  compare_keys-added :
      (deeper : List String → Value → Value → Option (List Diff)) (path : List String) (fs : Fields)
      (keys : List String) (h : Found fs keys)
      → compare_keys sorted_keys format_index float_eq deeper path no_fields fs keys
        ≡ some (twice (added path fs keys h))
  unfolding compare_keys compare_key
  compare_keys-added deeper path fs [] h = refl
  compare_keys-added deeper path fs (key ∷ keys) ((v, there), h) =
      rw (there, compare_keys-added deeper path fs keys h) refl

  -- Against the empty map, each key of a map is reported as added, and each of them twice. The keys
  -- that the sort gives back must be keys of the map.
  pub compare_at-added :
      (fuel : ℕ) (path : List String) (fs : Fields) (h : Found fs (sorted_keys (keys_of fs)))
      → compare_at sorted_keys format_index float_eq
          (suc fuel)
          path
          (map_value no_fields)
          (map_value fs)
        ≡ some (twice (added path fs (sorted_keys (keys_of fs)) h))
  unfolding compare_at compare_maybe_primitive compare_structures
  compare_at-added fuel path fs h =
      compare_keys-added (λ p o n. compare_at sorted_keys format_index float_eq fuel p o n) path fs
        (sorted_keys (keys_of fs)) h
