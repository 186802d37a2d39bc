-- ===== src/Merge/Roots.antt =====
-- `mergeRoot` of pkg/frontend/reader/merge/merge.go: the root span of a trace takes over what the
-- root of another trace of the same object says.
pub mod Interval
pub mod Positions
pub mod Rounds
pub mod Tags
use kelemetry.Base.{
  ℕ, zero, suc, ◌+◌, ◌-◌, Bool, true, false, List, [], ◌∷◌, ◌++◌, Option, none, some, String,
  if◌then◌else◌, ltb, set, string_eq,
}
use kelemetry.Base.Map.{Map, lookup, insert}

-- Tags in their order; `FindByKey` is `lookup`, which takes the first of several with one key.
abbrev pub Tags : Type 0
Tags = Map String String

-- A span less its ids; `L` is the type of log entries.
pub record Content {ℓ} (L : Type ℓ) : Type ℓ where
  pub operation_name : String
  pub service_name : String
  pub start_time : ℕ
  pub duration : ℕ
  pub tags : Tags
  pub logs : List L
  pub warnings : List String

module _ {ℓ} {L : Type ℓ} where
  unfoldable pub end_time : Content L → ℕ
  end_time span = span.start_time + span.duration

  unfoldable pub merge_root_interval : Content L → Content L → Content L
  unfolding end_time
  merge_root_interval base tail =
      let start =
        if ltb tail.start_time base.start_time then tail.start_time else base.start_time in
      let end = if ltb (end_time base) (end_time tail) then end_time tail else end_time base in
      record base { start_time = start; duration = end - start }

-- `tagPos[tag.Key] = pos`, from `pos` on.
unfoldable pub tag_positions : ℕ → Tags → Map String ℕ → Map String ℕ
tag_positions pos [] tag_pos = tag_pos
tag_positions pos (tag ∷ tags) tag_pos = tag_positions (suc pos) tags (insert tag.0 pos tag_pos)

unfoldable pub merge_tag : Bool → Map String ℕ → Tags → String × String → Tags
merge_tag newer tag_pos tags tag = elim (lookup tag.0 tag_pos) [
  | none ↦ tags ++ tag ∷ []
  | some pos ↦ if newer then set tags pos tag else tags
]

unfoldable pub merge_tags : Bool → Map String ℕ → Tags → Tags → Tags
unfolding merge_tag
merge_tags newer tag_pos tags [] = tags
merge_tags newer tag_pos tags (tag ∷ more) =
    merge_tags newer tag_pos (merge_tag newer tag_pos tags tag) more

module _ {ℓ} {L : Type ℓ} where
  unfoldable pub merge_root_tags : Content L → Content L → Content L
  unfolding tag_positions merge_tags
  merge_root_tags base tail = record base {
    tags =
        merge_tags (ltb base.start_time tail.start_time) (tag_positions 0 base.tags []) base.tags
          tail.tags;
  }

  unfoldable pub merge_root_logs : Content L → Content L → Content L
  merge_root_logs base tail = record base { logs = base.logs ++ tail.logs }

  unfoldable pub merge_root : Content L → Content L → Content L
  unfolding merge_root_interval merge_root_tags merge_root_logs
  merge_root base tail = merge_root_logs (merge_root_tags (merge_root_interval base tail) tail) tail
