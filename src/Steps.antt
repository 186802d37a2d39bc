-- ===== src/Steps.antt =====
-- Steps that rewrite a trace for display, from pkg/frontend/tf/defaults/step: compact_duration.go,
-- group_by_trace_source.go and prune_tags.go. Each is the part of a visitor that works on one span.
pub mod Duration
pub mod Grouping
pub mod AuditDiff
pub mod Naming
pub mod Nesting
pub mod Collapse
pub mod Transform
mod Tests
use Prim.Native.String.{◌++◌ as ◌<>◌}
use text.Mathlib.Text.{starts_with}
use kelemetry.Base.{
  ℕ, zero, suc, ◌+◌, ◌-◌, ◌*◌, ◌/◌, ◌^◌, Bool, true, false, ◌&&◌, List, [], ◌∷◌, ◌++◌, Option, none,
  some, String, if◌then◌else◌, ltb, Eq, ◌==◌, string_eq,
}
use kelemetry.Base.Map.{Map, lookup, insert, has}
use kelemetry.SpanTree.{Struct, IdSet, Span, SpanTree, children_of, add}
use kelemetry.Filter.{StringFilter, matches}
use kelemetry.Merge.Roots.{Tags, Content}

-- A log entry of a span: a time and fields, which are tags.
pub record Log : Type 0 where
  pub timestamp : ℕ
  pub fields : Tags

-- `timeRange`
pub record TimeRange : Type 0 where
  pub start : ℕ
  pub end : ℕ
  pub has_start : Bool
  pub has_end : Bool

abbrev pub no_range : TimeRange
no_range = record { start = 0; end = 0; has_start = false; has_end = false }

-- `zconstants.DummyDuration`, a second
abbrev pub dummy_duration : ℕ
dummy_duration = 10 ^ 9

unfoldable pub first_start : Bool → ℕ → ℕ → ℕ
first_start false old new = new
first_start true old new = if ltb new old then new else old

unfoldable pub last_end : Bool → ℕ → ℕ → ℕ
last_end false old new = new
last_end true old new = if ltb old new then new else old

-- Each bound is set if it was not, or if the new one is further out.
unfoldable pub union : TimeRange → ℕ → ℕ → TimeRange
unfolding first_start last_end
union r start end = record {
  start = first_start r.has_start r.start start;
  end = last_end r.has_end r.end end;
  has_start = true;
  has_end = true;
}

unfoldable pub union_logs : TimeRange → List Log → TimeRange
unfolding union
union_logs r [] = r
union_logs r (log ∷ logs) = union_logs (union r log.timestamp (log.timestamp + dummy_duration)) logs

-- Five per cent before and behind the root, for display.
unfoldable pub padded : Content Log → Content Log
padded span =
    let padding = span.duration / 20 in
    record span { start_time = span.start_time - padding; duration = span.duration + padding * 2 }

unfoldable pub with_range : Bool → TimeRange → Content Log → Content Log
unfolding padded
with_range is_root r span =
    if r.has_start && r.has_end
    then (let compact = record span { start_time = r.start; duration = r.end - r.start } in
        if is_root then padded compact else compact)
    else span

module _ {ℓ} {I : Type ℓ} ⦃e : Eq I⦄ where
  -- The contents of the children; a child that is not in the tree is a nil span, whose read panics.
  unfoldable pub contents_of : IdSet I → Map I (Span I (Content Log)) → Option (List (Content Log))
  contents_of [] span_map = some []
  contents_of ((id, s) ∷ ids) span_map = elim (lookup id span_map) [
    | none ↦ none
    | some span ↦ elim (contents_of ids span_map) [
      | none ↦ none
      | some contents ↦ some (span.payload ∷ contents)
    ]
  ]

unfoldable pub union_children : TimeRange → List (Content Log) → TimeRange
unfolding union
union_children r [] = r
union_children r (child ∷ children) =
    union_children (union r child.start_time (child.start_time + child.duration)) children

unfoldable pub compacted : Bool → List (Content Log) → Content Log → Content Log
unfolding union_children union_logs with_range
compacted is_root children span =
    with_range is_root (union_logs (union_children no_range children) span.logs) span

module _ {ℓ} {I : Type ℓ} ⦃e : Eq I⦄ where
  -- `CompactDurationVisitor.Exit`
  unfoldable pub compact_duration :
      SpanTree I (Content Log) → Span I (Content Log) → Option (Span I (Content Log))
  unfolding contents_of compacted children_of
  compact_duration tree span =
      if has "zzz-pseudoType" span.payload.tags
      then elim (contents_of (children_of span.id tree.children_map) tree.span_map) [
        | none ↦ none
        | some children ↦
            some (record span { payload = compacted (tree.root == span.id) children span.payload })
      ]
      else some span

-- `removeZconstantKeys`
unfoldable pub remove_zconstant_keys : Tags → Tags
remove_zconstant_keys [] = []
remove_zconstant_keys (tag ∷ tags) =
    let rest = remove_zconstant_keys tags in if starts_with tag.0 "zzz-" then rest else tag ∷ rest

-- `ReplaceNameVisitor.Enter`, which takes the first tag with a name.
unfoldable pub replace_name : Content Log → Content Log
replace_name span = elim (lookup "zzz-kelemetryName" span.tags) [
  | none ↦ span
  | some name ↦ record span { operation_name = name }
]

unfoldable pub prune_logs : List Log → List Log
unfolding remove_zconstant_keys
prune_logs [] = []
prune_logs (log ∷ logs) = record log { fields = remove_zconstant_keys log.fields } ∷ prune_logs logs

-- `PruneTagsVisitor.Enter`; `format` writes the time of day, as package `time` does.
unfoldable pub prune_tags : (ℕ → String) → Bool → Content Log → Content Log
unfolding remove_zconstant_keys prune_logs
prune_tags format is_root span =
    let pruned = record span {
      tags = remove_zconstant_keys span.tags;
      logs = prune_logs span.logs;
    } in
    if is_root
    then record pruned {
      operation_name =
          span.operation_name
          <> " / "
          <> format span.start_time
          <> ".."
          <> format (span.start_time + span.duration);
    }
    else pruned

-- The trace source of a log, if the filter wants it grouped.
unfoldable pub grouped_source : StringFilter → Log → Option String
grouped_source filter log = elim (lookup "zzz-traceSource" log.fields) [
  | none ↦ none
  | some trace_source ↦ if matches filter trace_source then some trace_source else none
]

-- The loop of `GroupByTraceSourceVisitor.Enter`: the logs that remain, and those of each source.
pub record Grouped : Type 0 where
  pub remaining_logs : List Log
  pub index : Map String (List Log)

unfoldable pub logs_or_empty : Option (List Log) → List Log
logs_or_empty none = []
logs_or_empty (some logs) = logs

unfoldable pub group_log : Option String → Grouped → Log → Grouped
unfolding logs_or_empty
group_log none g log = record g { remaining_logs = g.remaining_logs ++ log ∷ [] }
group_log (some trace_source) g log = record g {
  index = insert trace_source (logs_or_empty (lookup trace_source g.index) ++ log ∷ []) g.index;
}

unfoldable pub group_logs : StringFilter → Grouped → List Log → Grouped
unfolding group_log grouped_source
group_logs filter g [] = g
group_logs filter g (log ∷ logs) =
    group_logs filter (group_log (grouped_source filter log) g log) logs

-- The span of a group.
unfoldable pub group_content : Content Log → String → List Log → Content Log
group_content span trace_source logs = record {
  operation_name = trace_source;
  service_name = trace_source;
  start_time = span.start_time;
  duration = span.duration;
  tags = ("zzz-pseudoType", "groupByTraceSource") ∷ [];
  logs = logs;
  warnings = [];
}

module _ {ℓ} {I : Type ℓ} ⦃e : Eq I⦄ (random_id : ℕ → I) where
  -- `random_id n` is the id of the n-th group; `none` is a panic of `Add`.
  unfoldable pub add_groups :
      ℕ
      → Span I (Content Log)
      → Map String (List Log)
      → SpanTree I (Content Log)
      → Option (SpanTree I (Content Log))
  unfolding group_content add
  add_groups n span [] tree = some tree
  add_groups n span ((trace_source, logs) ∷ index) tree =
      let group : Span I (Content Log) = record {
        id = random_id n;
        parent = none;
        payload = group_content span.payload trace_source logs;
      } in
      elim (add tree group span.id) [
        | none ↦ none
        | some tree' ↦ add_groups (suc n) span index tree'
      ]

  unfoldable pub is_grouped : Tags → Bool
  is_grouped tags = elim (lookup "zzz-pseudoType" tags) [
    | none ↦ false
    | some pseudo_type ↦ pseudo_type == "groupByTraceSource"
  ]

  -- `GroupByTraceSourceVisitor.Enter`
  unfoldable pub group_by_trace_source :
      StringFilter
      → Span I (Content Log)
      → SpanTree I (Content Log)
      → Option (SpanTree I (Content Log))
  unfolding is_grouped group_logs add_groups
  group_by_trace_source filter span tree =
      let grouped =
        group_logs filter (record { remaining_logs = []; index = [] }) span.payload.logs in
      let content = record span.payload { logs = grouped.remaining_logs } in
      let rest = record tree {
        span_map = insert span.id (record span { payload = content }) tree.span_map;
      } in
      if is_grouped span.payload.tags then some tree else add_groups 0 span grouped.index rest
