-- ===== src/Steps/Collapse.antt =====
-- pkg/frontend/tf/defaults/step/collapse_nesting.go: child spans become logs of the span above them.
-- `none` is a panic, or a tree deeper than the fuel.
use kelemetry.Base.{
  ℕ, Bool, List, [], ◌∷◌, ◌++◌, Option, none, some, String, if◌then◌else◌, ltb, Eq, ◌==◌, string_eq,
}
use kelemetry.Base.Map.{Map, lookup, insert, has}
use kelemetry.SpanTree.{Span, SpanTree, children_of}
use kelemetry.SpanTree.Subtree.{delete}
use kelemetry.SpanTree.Visit.{ids_of}
use kelemetry.Filter.{StringFilter, matches}
use kelemetry.Merge.Roots.{Tags, Content}
use kelemetry.Steps.{Log}
use kelemetry.Steps.AuditDiff.{AuditDiffClassification, AuditDiffCollector, process}
use kelemetry.Steps.Naming.{join}
use kelemetry.Steps.Nesting.{or_empty_text}

pub record TagMapping : Type 0 where
  pub from_span_tag : String
  pub to_log_field : String

-- `CollapseNestingVisitor`
pub record CollapseNesting : Type 0 where
  pub should_collapse : StringFilter
  pub tag_mappings : Map String (List TagMapping)
  pub audit_diff_classes : AuditDiffClassification
  pub log_type_mapping : Map String String

abbrev pub or_no_mappings : Option (List TagMapping) → List TagMapping
or_no_mappings none = []
or_no_mappings (some mappings) = mappings

-- The tags of the child that a mapping makes fields, less empty ones.
unfoldable pub mapped_fields : List TagMapping → Tags → Tags
mapped_fields [] tags = []
mapped_fields (mapping ∷ mappings) tags =
    let rest = mapped_fields mappings tags in
    elim (lookup mapping.from_span_tag tags) [
      | none ↦ rest
      | some value ↦ if value == "" then rest else (mapping.to_log_field, value) ∷ rest
    ]

-- The loop over the logs of the child: diffs are collected by class, others by their type.
unfoldable pub collect_logs :
    CollapseNesting → List Log → AuditDiffCollector → Tags → Option (AuditDiffCollector × Tags)
unfolding process
collect_logs visitor [] collector other_logs = some (collector, other_logs)
collect_logs visitor (log ∷ logs) collector other_logs =
    let log_type = or_empty_text (lookup "zzz-logType" log.fields) in
    let event = or_empty_text (lookup "event" log.fields) in
    let with_diff : Option (AuditDiffCollector × Tags) =
      elim (process visitor.audit_diff_classes collector event) [
        | none ↦ none
        | some collector' ↦ collect_logs visitor logs collector' other_logs
      ] in
    let without_diff : Option (AuditDiffCollector × Tags) =
      elim (lookup log_type visitor.log_type_mapping) [
        | none ↦ collect_logs visitor logs collector other_logs
        | some field_name ↦
            collect_logs visitor logs collector (other_logs ++ (field_name, event) ∷ [])
      ] in
    if log_type == "audit/objectDiff" then with_diff else without_diff

unfoldable pub diff_classes : Map String (List String) → Tags
unfolding join
diff_classes [] = []
diff_classes ((class_name, class) ∷ class_map) =
    (class_name, join "\n" class) ∷ diff_classes class_map

abbrev pub priority_of : Map String ℕ → String → ℕ
priority_of priorities name = elim (lookup name priorities) [ none ↦ 0 | some n ↦ n ]

-- `sort` sorts by a test on two tags, as `sort.Slice` does.
unfoldable pub collapsed_fields :
    ((String × String → String × String → Bool) → Tags → Tags)
    → CollapseNesting
    → String
    → Content Log
    → Option Tags
unfolding mapped_fields collect_logs diff_classes
collapsed_fields sort visitor trace_source child =
    let first : Tags =
      ("zzz-traceSource", trace_source)
      ∷ (trace_source, child.operation_name)
      ∷ mapped_fields (or_no_mappings (lookup trace_source visitor.tag_mappings)) child.tags in
    elim (collect_logs visitor child.logs (record { class_map = []; class_priorities = [] }) []) [
      | none ↦ none
      | some (collector, other_logs) ↦
          let by_priority = λ (i j : String × String).
            ltb (priority_of collector.class_priorities i.0)
              (priority_of collector.class_priorities j.0) in
          some (first ++ (sort by_priority (diff_classes collector.class_map) ++ other_logs))
    ]

module _ {ℓ} {I : Type ℓ} ⦃e : Eq I⦄
    (sort : (String × String → String × String → Bool) → Tags → Tags)
    (visitor : CollapseNesting) where
  -- The log joins the logs of the span, and the child is deleted.
  unfoldable pub move_into_log :
      ℕ
      → I
      → I
      → Content Log
      → String
      → SpanTree I (Content Log)
      → Option (SpanTree I (Content Log))
  unfolding collapsed_fields delete
  move_into_log fuel id child_id child trace_source tree = elim (lookup id tree.span_map) [
    | none ↦ none
    | some span ↦ elim (collapsed_fields sort visitor trace_source child) [
      | none ↦ none
      | some fields ↦
          let log : Log = record { timestamp = child.start_time; fields = fields } in
          let content = record span.payload { logs = span.payload.logs ++ log ∷ [] } in
          delete fuel child_id
            (record tree { span_map = insert id (record span { payload = content }) tree.span_map })
    ]
  ]

  -- `processChild`, for a child of the span `id`.
  unfoldable pub process_child :
      ℕ → I → I → SpanTree I (Content Log) → Option (SpanTree I (Content Log))
  unfolding move_into_log
  process_child fuel id child_id tree = elim (lookup child_id tree.span_map) [
    | none ↦ none
    | some child ↦
        let collapsed : Option (SpanTree I (Content Log)) =
          elim (lookup "zzz-traceSource" child.payload.tags) [
            | none ↦ some tree
            | some trace_source ↦
                if matches visitor.should_collapse trace_source
                then move_into_log fuel id child_id child.payload trace_source tree
                else some tree
          ] in
        if has "zzz-pseudoType" child.payload.tags then some tree else collapsed
  ]

  unfoldable pub process_children :
      ℕ → I → List I → SpanTree I (Content Log) → Option (SpanTree I (Content Log))
  unfolding process_child
  process_children fuel id [] tree = some tree
  process_children fuel id (child_id ∷ children) tree = elim (process_child fuel id child_id tree) [
    | none ↦ none
    | some tree' ↦ process_children fuel id children tree'
  ]

  -- `CollapseNestingVisitor.Enter`. The loop goes over the children as they were: a deletion takes
  -- the child that the loop is at and spans below it.
  unfoldable pub collapse_nesting :
      ℕ → Span I (Content Log) → SpanTree I (Content Log) → Option (SpanTree I (Content Log))
  unfolding process_children
  collapse_nesting fuel span tree =
      if has "zzz-pseudoType" span.payload.tags
      then process_children fuel span.id (ids_of (children_of span.id tree.children_map)) tree
      else some tree
