-- ===== src/Filter.antt =====
-- pkg/util/marshal/marshal.go: the string and object filters of the frontend's configuration. A
-- value of `Optional` is an `Option`; the parsing of JSON is left out.
pub mod CaseFold
use kelemetry.Base.{
  ℕ, ◌+◌, Bool, true, false, not, ◌&&◌, ◌||◌, List, [], ◌∷◌, Option, none, some, String, ltb,
  if◌then◌else◌, Eq, ◌==◌, string_eq,
}
use kelemetry.Aggregator.{Key}

abbrev pub is_set {ℓ} : {A : Type ℓ} → Option A → Bool
is_set none = false
is_set (some a) = true

abbrev pub get_or {ℓ} : {A : Type ℓ} → Option A → A → A
get_or none default = default
get_or (some a) default = a

pub record Fields : Type 0 where
  pub exact : Option String
  pub one_of : Option (List String)
  pub case_fold : Option String
  pub regex : Option String
  pub then_value : Option Bool

-- A filter is written as a string, or as an object with fields.
pub data Source : Type 0 where
  plain : String → Source
  structured : Fields → Source

-- `fn`, which is nil in a filter that was not parsed.
pub record StringFilter : Type 0 where
  pub fn : Option (String → Bool)

abbrev bit : Bool → ℕ
bit true = 1
bit false = 0

abbrev pub member : String → List String → Bool
member s [] = false
member s (t ∷ ts) = t == s || member s ts

-- `compile` is `regexp.Compile` with `MatchString`, and `equal_fold` is `strings.EqualFold`.
module _ (compile : String → Option (String → Bool)) (equal_fold : String → String → Bool) where
  abbrev set_count : Fields → ℕ
  set_count f =
      bit (is_set f.exact) + bit (is_set f.one_of) + bit (is_set f.case_fold) + bit (is_set f.regex)

  -- The chain of tests on which field is set.
  abbrev first_set :
      Option String → Option (List String) → Option String → Option String → Option (String → Bool)
  first_set (some value) one_of case_fold regex = some (λ s. s == value)
  first_set none (some options) case_fold regex = some (λ s. member s options)
  first_set none none (some value) regex = some (λ s. equal_fold value value)
  first_set none none none (some pattern) = compile pattern
  first_set none none none none = some (λ s. true)

  -- `none` is an error.
  unfoldable pub get_base_predicate : Fields → Option (String → Bool)
  get_base_predicate f =
      if ltb 1 (set_count f) then none else first_set f.exact f.one_of f.case_fold f.regex

  abbrev with_then : Bool → Option (String → Bool) → Option StringFilter
  with_then then_value none = none
  with_then then_value (some predicate) =
      some (record { fn = some (λ s. if predicate s then then_value else not then_value) })

  unfoldable pub unmarshal_string_filter : Source → Option StringFilter
  unfolding get_base_predicate
  unmarshal_string_filter (plain pattern) = some (record { fn = some (λ s. s == pattern) })
  unmarshal_string_filter (structured f) =
      with_then (get_or f.then_value true) (get_base_predicate f)

abbrev pub run_filter : Option (String → Bool) → String → Bool
run_filter none subject = true
run_filter (some fn) subject = fn subject

unfoldable pub matches : StringFilter → String → Bool
matches f subject = run_filter f.fn subject

pub record ObjectFilter : Type 0 where
  pub cluster : Option StringFilter
  pub group : Option StringFilter
  pub resource : Option StringFilter
  pub namespace : Option StringFilter
  pub name : Option StringFilter

abbrev pub field_matches : Option StringFilter → String → Bool
field_matches none subject = true
field_matches (some f) subject = matches f subject

unfoldable pub object_matches : ObjectFilter → Key → Bool
object_matches f key =
    if not (field_matches f.cluster key.cluster)
    then false
    else if not (field_matches f.group key.group)
    then false
    else if not (field_matches f.resource key.resource)
    then false
    else if not (field_matches f.namespace key.namespace)
    then false
    else if not (field_matches f.name key.name)
    then false
    else true
