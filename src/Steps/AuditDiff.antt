-- ===== src/Steps/AuditDiff.antt =====
-- The classes of changed fields in pkg/frontend/tf/defaults/step/collapse_nesting.go.
pub mod Nearest
use Prim.Native.Char.{Char, code}
use Prim.Native.String.{String}
use kelemetry.Base.{
  ℕ, zero, suc, Bool, true, false, List, [], ◌∷◌, ◌++◌, Option, none, some, if◌then◌else◌, ◌==◌,
  nat_eq, string_eq,
}
use kelemetry.Base.Map.{Map, lookup, insert}

pub record AuditDiffClass : Type 0 where
  pub should_display : Bool
  pub name : String
  pub priority : ℕ

-- `field_map` has the classes of single fields, such as `metadata.resourceVersion`.
pub record AuditDiffClassification : Type 0 where
  pub field_map : Map String AuditDiffClass
  pub default_class : AuditDiffClass

-- `UnmarshalJSON`, of the parsed list: each field gets the class it is listed with last.
unfoldable pub class_fields :
    List String → AuditDiffClass → Map String AuditDiffClass → Map String AuditDiffClass
class_fields [] class specific = specific
class_fields (field ∷ fields) class specific =
    class_fields fields class (insert field class specific)

unfoldable pub class_all :
    List (List String × AuditDiffClass) → Map String AuditDiffClass → Map String AuditDiffClass
unfolding class_fields
class_all [] specific = specific
class_all ((fields, class) ∷ raw) specific = class_all raw (class_fields fields class specific)

abbrev pub text_length : String → ℕ
text_length String.[] = 0
text_length (String.◌∷◌ c s) = suc (text_length s)

abbrev pub prepend_some : Char → Option String → Option String
prepend_some c none = none
prepend_some c (some s) = some (String.◌∷◌ c s)

abbrev pub cut_before_dot : Char → Option String → Option String
cut_before_dot c none = if code c == 46 then some String.[] else none
cut_before_dot c (some p) = some (String.◌∷◌ c p)

-- `prefix[:strings.LastIndex(prefix, ".")]`, if there is a dot.
unfoldable pub before_last_dot : String → Option String
before_last_dot String.[] = none
before_last_dot (String.◌∷◌ c s) = cut_before_dot c (before_last_dot s)

-- `Get`; `none` is too little fuel.
unfoldable pub get_class : ℕ → AuditDiffClassification → String → Option AuditDiffClass
unfolding before_last_dot
get_class zero classes prefix = none
get_class (suc fuel) classes prefix =
    let shorter : Option AuditDiffClass = elim (before_last_dot prefix) [
      | none ↦ some classes.default_class
      | some p ↦ get_class fuel classes p
    ] in
    let found : Option AuditDiffClass = elim (lookup prefix classes.field_map) [
      | some class ↦ some class
      | none ↦ shorter
    ] in
    if text_length prefix == 0 then some classes.default_class else found

-- `auditDiffCollector`
pub record AuditDiffCollector : Type 0 where
  pub class_map : Map String (List String)
  pub class_priorities : Map String ℕ

-- The text before the first space, if there is one.
unfoldable pub before_space : String → Option String
before_space String.[] = none
before_space (String.◌∷◌ c s) =
    let rest = before_space s in if code c == 32 then some String.[] else prepend_some c rest

abbrev pub first_line_with : Char → List String → List String
first_line_with c [] = String.◌∷◌ c String.[] ∷ []
first_line_with c (line ∷ lines) = String.◌∷◌ c line ∷ lines

-- `strings.Split(message, "\n")`
unfoldable pub split_lines : String → List String
split_lines String.[] = String.[] ∷ []
split_lines (String.◌∷◌ c s) =
    let rest = split_lines s in if code c == 10 then String.[] ∷ rest else first_line_with c rest

abbrev pub or_no_lines : Option (List String) → List String
or_no_lines none = []
or_no_lines (some lines) = lines

unfoldable pub collect_line : AuditDiffCollector → String → AuditDiffClass → AuditDiffCollector
collect_line collector diff_line class =
    if class.should_display
    then record {
      class_map =
          insert class.name (or_no_lines (lookup class.name collector.class_map) ++ diff_line ∷ [])
            collector.class_map;
      class_priorities = insert class.name class.priority collector.class_priorities;
    }
    else collector

unfoldable pub process_line :
    AuditDiffClassification → AuditDiffCollector → String → Option AuditDiffCollector
unfolding before_space get_class collect_line
process_line classes collector diff_line = elim (before_space diff_line) [
  | none ↦ some collector
  | some prefix ↦
      let classed : Option AuditDiffCollector =
        elim (get_class (suc (text_length prefix)) classes prefix) [
          | none ↦ none
          | some class ↦ some (collect_line collector diff_line class)
        ] in
      if text_length prefix == 0 then some collector else classed
]

unfoldable pub process_lines :
    AuditDiffClassification → AuditDiffCollector → List String → Option AuditDiffCollector
unfolding process_line
process_lines classes collector [] = some collector
process_lines classes collector (line ∷ lines) = elim (process_line classes collector line) [
  | none ↦ none
  | some collector' ↦ process_lines classes collector' lines
]

-- `auditDiffCollector.process`
unfoldable pub process :
    AuditDiffClassification → AuditDiffCollector → String → Option AuditDiffCollector
unfolding process_lines split_lines
process classes collector message = process_lines classes collector (split_lines message)
