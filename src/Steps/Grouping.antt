-- ===== src/Steps/Grouping.antt =====
-- The groups of `GroupByTraceSourceVisitor` in
-- pkg/frontend/tf/defaults/step/group_by_trace_source.go.
use mathlib.Core.List.{append-nil}
use kelemetry.Base.{
  ◌≡◌, refl, sym, ap, ◌∙◌, inl, inr, List, [], ◌∷◌, ◌++◌, Option, none, some, String, if◌then◌else◌,
  ◌==◌, string_eq, Bool-cases,
}
use kelemetry.Base.Map.{lookup, lookup-insert}
use kelemetry.Filter.{StringFilter}
use kelemetry.Steps.{Log, Grouped, logs_or_empty, grouped_source, group_log, group_logs}

-- The logs with this source, in order; `none` is no source that is grouped.
abbrev pub add_if_same : Option String → Option String → Log → List Log → List Log
add_if_same none none log rest = log ∷ rest
add_if_same none (some t) log rest = rest
add_if_same (some s) none log rest = rest
add_if_same (some s) (some t) log rest = if t == s then log ∷ rest else rest

abbrev pub with_source : StringFilter → Option String → List Log → List Log
with_source filter source [] = []
with_source filter source (log ∷ logs) =
    add_if_same source (grouped_source filter log) log (with_source filter source logs)

-- The logs of a source in the groups, or those that remain.
abbrev pub logs_of : Grouped → Option String → List Log
logs_of g none = g.remaining_logs
logs_of g (some s) = logs_or_empty (lookup s g.index)

append_one : (xs ys : List Log) (log : Log) → (xs ++ log ∷ []) ++ ys ≡ xs ++ log ∷ ys
append_one [] ys log = refl
append_one (x ∷ xs) ys log = ap (λ rest. x ∷ rest) (append_one xs ys log)

logs_of-group_log :
    (source : Option String) (own : Option String) (g : Grouped) (log : Log) (rest : List Log)
    → logs_of (group_log own g log) source ++ rest
      ≡ logs_of g source ++ add_if_same source own log rest
unfolding group_log logs_or_empty
logs_of-group_log none none g log rest = append_one g.remaining_logs rest log
logs_of-group_log none (some t) g log rest = refl
logs_of-group_log (some s) none g log rest = refl
logs_of-group_log (some s) (some t) g log rest =
    ap (λ o. logs_or_empty o ++ rest)
      (lookup-insert t s (logs_or_empty (lookup t g.index) ++ log ∷ []) g.index)
    ∙ elim (Bool-cases (t == s)) [
      | inl same ↦ rw same (
          append_one (logs_or_empty (lookup t g.index)) rest log
          ∙ ap (λ k. logs_or_empty (lookup k g.index) ++ log ∷ rest)
              ((string_eq.beq_iff t s).0 same))
      | inr other ↦ rw other refl
    ]

logs_of-group_logs :
    (filter : StringFilter) (source : Option String) (g : Grouped) (logs : List Log)
    → logs_of (group_logs filter g logs) source ≡ logs_of g source ++ with_source filter source logs
unfolding group_logs
logs_of-group_logs filter source g [] = sym (append-nil (logs_of g source))
logs_of-group_logs filter source g (log ∷ logs) =
    logs_of-group_logs filter source (group_log (grouped_source filter log) g log) logs
    ∙ logs_of-group_log source (grouped_source filter log) g log (with_source filter source logs)

-- Grouping loses no log and puts none in two places: the logs that remain are those without a source
-- that the filter wants grouped, and the group of a source has the logs of this source, in order.
pub group_logs-with_source :
    (filter : StringFilter) (source : Option String) (logs : List Log)
    → logs_of (group_logs filter (record { remaining_logs = []; index = [] }) logs) source
      ≡ with_source filter source logs
unfolding lookup logs_or_empty
group_logs-with_source filter none logs =
    logs_of-group_logs filter none (record { remaining_logs = []; index = [] }) logs
group_logs-with_source filter (some s) logs =
    logs_of-group_logs filter (some s) (record { remaining_logs = []; index = [] }) logs
