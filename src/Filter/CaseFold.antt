-- ===== src/Filter/CaseFold.antt =====
-- The field `caseInsensitive` of a string filter of pkg/util/marshal/marshal.go.
use kelemetry.Base.{◌≡◌, refl, Bool, true, Option, none, some, String}
use kelemetry.Filter.{
  structured, StringFilter, get_or, get_base_predicate, unmarshal_string_filter, matches,
}

-- A filter that sets `caseInsensitive` alone does not look at the subject: it parses, and then
-- answers every subject alike, with the field `then`, or with true if that is not set. `EqualFold`
-- must find a string equal to itself.
case_insensitive_ignores_subject :
    (compile : String → Option (String → Bool)) (equal_fold : String → String → Bool)
    (value : String) (then_value : Option Bool)
    → ((s : String) → equal_fold s s ≡ true)
    → (f : StringFilter) × (unmarshal_string_filter compile equal_fold (
          structured (record {
            exact = none;
            one_of = none;
            case_fold = some value;
            regex = none;
            then_value = then_value;
          }))
        ≡ some f)
      × ((subject : String) → matches f subject ≡ get_or then_value true)
unfolding unmarshal_string_filter get_base_predicate matches
case_insensitive_ignores_subject compile equal_fold value then_value same =
    (_, refl, λ subject. rw (same value) refl)
