-- ===== src/Steps/Naming.antt =====
-- pkg/frontend/tf/defaults/step/operation_service.go: what its two visitors do to a span.
use Prim.Native.String.{◌++◌ as ◌<>◌}
use kelemetry.Base.{◌&&◌, not, List, [], ◌∷◌, none, some, String, if◌then◌else◌, ◌==◌, string_eq}
use kelemetry.Base.Map.{lookup}
use kelemetry.Merge.Roots.{Tags, Content}
use kelemetry.Steps.{Log}

-- `strings.Join`
unfoldable pub join : String → List String → String
join separator [] = ""
join separator (s ∷ []) = s
join separator (s ∷ t ∷ rest) = s <> (separator <> join separator (t ∷ rest))

-- `ReplaceDest`; any other text replaces nothing.
pub data ReplaceDest : Type 0 where
  service : ReplaceDest
  operation : ReplaceDest
  other : ReplaceDest

-- The values of the tags in question, less empty ones and the namespace `default`.
unfoldable pub sources_of : Tags → List String → List String
sources_of tags [] = []
sources_of tags (source ∷ sources) =
    let rest = sources_of tags sources in
    elim (lookup source tags) [
      | none ↦ rest
      | some value ↦
          if not (value == "") && not (source == "namespace" && value == "default")
          then value ∷ rest
          else rest
    ]

unfoldable pub replace_dest : ReplaceDest → String → Content Log → Content Log
replace_dest service text span = record span { service_name = text }
replace_dest operation text span = record span { operation_name = text }
replace_dest other text span = span

-- `ServiceOperationReplaceVisitor.Enter`
unfoldable pub replace_service_operation :
    String → ReplaceDest → List String → Content Log → Content Log
unfolding sources_of join replace_dest
replace_service_operation trace_source dest source span =
    elim (lookup "zzz-traceSource" span.tags) [
      | none ↦ span
      | some own ↦
          if own == trace_source
          then replace_dest dest (join " " (sources_of span.tags source)) span
          else span
    ]

-- `ClusterNameVisitor.Enter`: the span, and the cluster that its children compare theirs with.
unfoldable pub enter_cluster : String → Content Log → Content Log × String
enter_cluster parent_cluster span = elim (lookup "cluster" span.tags) [
  | none ↦ (span, parent_cluster)
  | some cluster ↦
      let named = record span { service_name = cluster <> (" " <> span.service_name) } in
      (if cluster == parent_cluster then span else named, cluster)
]
