-- ===== src/Steps/Tests.antt =====
-- The steps of pkg/frontend/tf/defaults/step on the spans of a deployment.
use kelemetry.Base.Map.{erase}
use kelemetry.Base.Map.{insert}
use kelemetry.Filter.{matches}
use kelemetry.Steps.{grouped_source}
use kelemetry.Base.{
  arith, ℕ, ◌≡◌, refl, true, List, [], ◌∷◌, none, some, String, nat_eq, string_eq, ◌==◌,
}
use kelemetry.Base.Map.{lookup, has}
use kelemetry.Filter.{StringFilter}
use kelemetry.Merge.Roots.{Tags, Content}
use kelemetry.SpanTree.{Span, SpanTree, struct, children_of}
use kelemetry.Steps.{Log, contents_of, compact_duration, group_logs, replace_name, prune_tags}
use kelemetry.Steps.Duration.{HoldsChildren, HoldsLogs, compact_duration-Holds}
use kelemetry.Steps.AuditDiff.{AuditDiffClass, AuditDiffClassification, get_class, process}
use kelemetry.Steps.AuditDiff.Nearest.{Nearest, get_class-Nearest}
use kelemetry.Steps.Nesting.{extract_nesting}
use kelemetry.Steps.Grouping.{logs_of, with_source, group_logs-with_source}

abbrev log_from : String → ℕ → Log
log_from trace_source timestamp = record {
  timestamp = timestamp;
  fields = ("zzz-traceSource", trace_source) ∷ ("verb", "update") ∷ [];
}

abbrev content : ℕ → ℕ → Tags → List Log → Content Log
content start duration tags logs = record {
  operation_name = "web";
  service_name = "deployments";
  start_time = start;
  duration = duration;
  tags = tags;
  logs = logs;
  warnings = [];
}

abbrev pseudo : Tags
pseudo = ("zzz-pseudoType", "object") ∷ ("zzz-kelemetryName", "web-1") ∷ ("group", "apps") ∷ []

abbrev root : Span ℕ (Content Log)
root = record {
  id = 1;
  parent = none;
  payload =
      content 0 1800 pseudo
        (log_from "audit" 500 ∷ log_from "event" 100 ∷ log_from "audit" 900 ∷ []);
}

abbrev child : Span ℕ (Content Log)
child = record { id = 2; parent = some 1; payload = content 300 40 [] [] }

abbrev tree : SpanTree ℕ (Content Log)
tree = record {
  span_map = (1, root) ∷ (2, child) ∷ [];
  children_map = (1, (2, struct) ∷ []) ∷ (2, []) ∷ [];
  visitor_stack = [];
  exited = [];
  root = 1;
}

compact_duration-Holds_example :
    (out : Content Log) × (compact_duration tree root ≡ some (record root { payload = out }))
    × HoldsChildren out (child.payload ∷ [])
    × HoldsLogs out root.payload.logs
unfolding has lookup contents_of children_of
compact_duration-Holds_example = compact_duration-Holds tree root (child.payload ∷ []) refl refl

abbrev audits : StringFilter
audits = record { fn = some (λ s. s == "audit") }

group_logs-with_source_example :
    logs_of
      (group_logs audits (record { remaining_logs = []; index = [] }) root.payload.logs)
      (some "audit")
    ≡ with_source audits (some "audit") root.payload.logs
group_logs-with_source_example = group_logs-with_source audits (some "audit") root.payload.logs

audits_are_grouped :
    with_source audits (some "audit") root.payload.logs
    ≡ log_from "audit" 500 ∷ log_from "audit" 900 ∷ []
unfolding grouped_source lookup matches
audits_are_grouped = refl

named_and_pruned :
    prune_tags (λ time. "0") true (replace_name child.payload)
    ≡ record child.payload { operation_name = "web / 0..0" }
unfolding prune_tags replace_name lookup
named_and_pruned = refl

abbrev class_named : String → AuditDiffClass
class_named name = record { should_display = true; name = name; priority = 1 }

abbrev classes : AuditDiffClassification
classes = record {
  field_map = ("metadata", class_named "meta") ∷ ("spec.replicas", class_named "scale") ∷ [];
  default_class = class_named "other";
}

get_class-Nearest_example :
    (class : AuditDiffClass) × (get_class 20 classes "metadata.labels.app" ≡ some class)
    × Nearest classes "metadata.labels.app" class
get_class-Nearest_example = get_class-Nearest 20 classes "metadata.labels.app" (omega arith) refl

two_levels_up : get_class 20 classes "metadata.labels.app" ≡ some (class_named "meta")
unfolding get_class lookup
two_levels_up = refl

by_class :
    process classes (record { class_map = []; class_priorities = [] }) "metadata.uid 1 -> 2\nx y"
    ≡ some (record {
      class_map = ("meta", "metadata.uid 1 -> 2" ∷ []) ∷ ("other", "x y" ∷ []) ∷ [];
      class_priorities = ("meta", 1) ∷ ("other", 1) ∷ [];
    })
unfolding process lookup insert
by_class = refl

-- The child has no children of its own: it is deleted, and nothing moves.
extracted_child :
    extract_nesting 2
      (record { fn = none })
      (record child { payload = content 300 40 pseudo [] })
      tree
    ≡ some (record tree { span_map = (1, root) ∷ []; children_map = (1, []) ∷ [] })
unfolding extract_nesting lookup matches has insert erase
extracted_child = refl
