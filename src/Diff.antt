-- ===== src/Diff.antt =====
-- pkg/diff/cmp/cmp.go: the differences between two JSON values, each with its path.
pub mod Same
mod Tests
use Prim.Native.String.{◌++◌ as ◌<>◌}
use kelemetry.Base.{
  ℕ, zero, suc, ◌+◌, Bool, true, false, ◌&&◌, ◌||◌, List, [], ◌∷◌, ◌++◌, Option, none, some, String,
  length, ltb, max, if◌then◌else◌, Eq, ◌==◌, nat_eq, string_eq,
}

-- `any`, as the JSON parser makes it. An `int64` is its sign and its size, and a `float64` its bits.
mutual
  pub data Value : Type 0 where
    null : Value
    string_value : String → Value
    bool_value : Bool → Value
    int_value : Bool → ℕ → Value
    float_value : ℕ → Value
    map_value : Fields → Value
    slice_value : Items → Value

  pub data Fields : Type 0 where
    no_fields : Fields
    field : String → Value → Fields → Fields

  pub data Items : Type 0 where
    no_items : Items
    item : Value → Items → Items

pub record Diff : Type 0 where
  pub json_path : String
  pub old_value : Value
  pub new_value : Value

-- `strings.Join(path, ".")`
abbrev pub join_path : List String → String
join_path [] = ""
join_path (s ∷ []) = s
join_path (s ∷ (t ∷ path)) = s <> ("." <> join_path (t ∷ path))

abbrev pub push_diff : List String → Value → Value → List Diff
push_diff path old_value new_value =
    record { json_path = join_path path; old_value = old_value; new_value = new_value } ∷ []

abbrev pub same_bool : Bool → Bool → Bool
same_bool true b = b
same_bool false true = false
same_bool false false = true

-- The value of a key, and the keys in the order of `range`.
abbrev pub field_of : String → Fields → Option Value
field_of key no_fields = none
field_of key (field k v more) = if k == key then some v else field_of key more

abbrev pub keys_of : Fields → List String
keys_of no_fields = []
keys_of (field k v more) = k ∷ keys_of more

abbrev pub item_at : Items → ℕ → Value
item_at no_items i = null
item_at (item v more) zero = v
item_at (item v more) (suc i) = item_at more i

abbrev pub count_items : Items → ℕ
count_items no_items = 0
count_items (item v more) = suc (count_items more)

-- `sorted_keys` is `sort.Strings` on the keys of the set that `collectKeys` fills from both maps;
-- `format_index` is `[%d]`, and `float_eq` is `==` on floats.
module _ (sorted_keys : List String → List String) (format_index : ℕ → String)
    (float_eq : ℕ → ℕ → Bool) where
  -- `none` is not conclusive.
  unfoldable pub compare_maybe_primitive : Value → Value → Option Bool
  compare_maybe_primitive null null = some true
  compare_maybe_primitive null new = some false
  compare_maybe_primitive old null = some false
  compare_maybe_primitive (string_value a) (string_value b) = some (a == b)
  compare_maybe_primitive (bool_value a) (bool_value b) = some (same_bool a b)
  compare_maybe_primitive (int_value s a) (int_value t b) = some (same_bool s t && a == b)
  compare_maybe_primitive (float_value a) (float_value b) = some (float_eq a b)
  compare_maybe_primitive old new = none

  -- One round of the loop of `compareMaps`; `deeper` compares two values at a path.
  unfoldable pub compare_key :
      (List String → Value → Value → Option (List Diff))
      → List String
      → Option Value
      → Option Value
      → Option (List Diff)
  compare_key deeper path (some old) none = some (push_diff path old null)
  compare_key deeper path none (some new) =
      some (push_diff path null new ++ push_diff path null new)
  compare_key deeper path none none = deeper path null null
  compare_key deeper path (some old) (some new) = deeper path old new

  abbrev pub both : Option (List Diff) → Option (List Diff) → Option (List Diff)
  both none later = none
  both (some first) none = none
  both (some first) (some later) = some (first ++ later)

  unfoldable pub compare_keys :
      (List String → Value → Value → Option (List Diff))
      → List String
      → Fields
      → Fields
      → List String
      → Option (List Diff)
  unfolding compare_key
  compare_keys deeper path old new [] = some []
  compare_keys deeper path old new (key ∷ keys) =
      both (compare_key deeper (path ++ key ∷ []) (field_of key old) (field_of key new))
        (compare_keys deeper path old new keys)

  -- The loop of `compareSlices`, with the number of rounds that are left.
  unfoldable pub compare_items :
      (List String → Value → Value → Option (List Diff))
      → List String
      → ℕ
      → ℕ
      → Items
      → Items
      → Option (List Diff)
  compare_items deeper path zero i old new = some []
  compare_items deeper path (suc rounds) i old new =
      both (deeper (path ++ format_index i ∷ []) (item_at old i) (item_at new i))
        (compare_items deeper path rounds (i + 1) old new)

  unfoldable pub compare_structures :
      (List String → Value → Value → Option (List Diff))
      → List String
      → Value
      → Value
      → Option (List Diff)
  unfolding compare_keys compare_items
  compare_structures deeper path (map_value old) (map_value new) =
      compare_keys deeper path old new (sorted_keys (keys_of old ++ keys_of new))
  compare_structures deeper path (slice_value old) (slice_value new) =
      compare_items deeper path (max (count_items old) (count_items new)) 0 old new
  compare_structures deeper path old new = some (push_diff path old new)

  concluded : Option Bool → List String → Value → Value → Option (List Diff) → Option (List Diff)
  concluded (some true) path old new structures = some []
  concluded (some false) path old new structures = some (push_diff path old new)
  concluded none path old new structures = structures

  -- The recursion goes as deep as the values; `none` is the fuel at its end.
  unfoldable pub compare_at : ℕ → List String → Value → Value → Option (List Diff)
  unfolding compare_maybe_primitive compare_structures concluded
  compare_at zero path old new = none
  compare_at (suc fuel) path old new =
      concluded (compare_maybe_primitive old new) path old new
        (compare_structures (λ p o n. compare_at fuel p o n) path old new)

mutual
  pub depth : Value → ℕ
  depth null = 1
  depth (string_value s) = 1
  depth (bool_value b) = 1
  depth (int_value s n) = 1
  depth (float_value n) = 1
  depth (map_value fs) = suc (depth_fields fs)
  depth (slice_value items) = suc (depth_items items)

  pub depth_fields : Fields → ℕ
  depth_fields no_fields = 1
  depth_fields (field k v more) = max (depth v) (depth_fields more)

  pub depth_items : Items → ℕ
  depth_items no_items = 1
  depth_items (item v more) = max (depth v) (depth_items more)
