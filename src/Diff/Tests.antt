-- ===== src/Diff/Tests.antt =====
-- Runs of the comparison of pkg/diff/cmp/cmp.go on small values.
use kelemetry.Base.{
  ℕ, ◌≡◌, refl, Bool, true, List, [], ◌∷◌, some, arith, String, nat_eq, string_eq, ◌==◌,
}
use kelemetry.Diff.{
  Value, null, string_value, bool_value, map_value, slice_value, no_fields, field, no_items, item,
  compare_at, depth,
}
use kelemetry.Diff.Same.{Found, added, twice, compare_at-same, compare_at-added}

abbrev unsorted : List String → List String
unsorted keys = keys

abbrev spec_keys : List String → List String
spec_keys keys = "args" ∷ "replicas" ∷ []

abbrev index : ℕ → String
index n = "[0]"

abbrev float_eq : ℕ → ℕ → Bool
float_eq a b = a == b

abbrev spec : Value
spec = map_value (
    field "replicas" (bool_value true)
      (field "args" (slice_value (item (string_value "x") no_items)) no_fields))

abbrev changed : Value
changed = map_value (
    field "replicas" (bool_value true)
      (field "args" (slice_value (item (string_value "y") no_items)) no_fields))

change_found :
    compare_at spec_keys index float_eq 5 [] spec changed
    ≡ some (
        record {
          json_path = "args.[0]";
          old_value = string_value "x";
          new_value = string_value "y";
        }
        ∷ [])
unfolding compare_at
change_found = refl

floats_self : (n : ℕ) → float_eq n n ≡ true
floats_self n = (nat_eq.beq_iff n n).1 refl

compare_at-same_example : compare_at spec_keys index float_eq 5 [] spec spec ≡ some []
unfolding depth
compare_at-same_example =
    compare_at-same spec_keys index float_eq 5 [] spec floats_self (omega arith)

one_found : Found (field "a" null no_fields) ("a" ∷ [])
one_found = ((null, refl), tt)

compare_at-added_example :
    compare_at unsorted index float_eq 1 []
      (map_value no_fields)
      (map_value (field "a" null no_fields))
    ≡ some (twice (added [] (field "a" null no_fields) ("a" ∷ []) one_found))
compare_at-added_example =
    compare_at-added unsorted index float_eq 0 [] (field "a" null no_fields) one_found
