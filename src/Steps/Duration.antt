-- ===== src/Steps/Duration.antt =====
-- What `CompactDurationVisitor` of pkg/frontend/tf/defaults/step/compact_duration.go leaves of a span.
use kelemetry.Base.{
  ℕ, ◌+◌, ◌-◌, ◌*◌, ◌/◌, ◌≤◌, ◌≡◌, refl, Bool, true, false, List, [], ◌∷◌, some, arith, string_eq,
  Eq, ◌==◌,
}
use kelemetry.Base.Map.{has}
use kelemetry.Merge.Roots.{Content}
use kelemetry.Steps.{
  Log, TimeRange, no_range, dummy_duration, union, first_start, last_end, union_logs,
  union_children, padded, with_range, compacted, contents_of, compact_duration,
}
use kelemetry.SpanTree.{Span, SpanTree, children_of}

-- The range has a start and an end, and holds both times.
abbrev pub Covers : TimeRange → ℕ → ℕ → Type 0
Covers r start end = (r.has_start ≡ true) × (r.has_end ≡ true) × (r.start ≤ start) × (end ≤ r.end)

first_start_le : (b : Bool) (old new : ℕ) → first_start b old new ≤ new
unfolding first_start
first_start_le false old new = omega arith
first_start_le true old new = ground arith

le_last_end : (b : Bool) (old new : ℕ) → new ≤ last_end b old new
unfolding last_end
le_last_end false old new = omega arith
le_last_end true old new = ground arith

first_start_keeps : (b : Bool) (old new : ℕ) → b ≡ true → first_start b old new ≤ old
unfolding first_start
first_start_keeps false old new h = absurd (cc)
first_start_keeps true old new h = ground arith

last_end_keeps : (b : Bool) (old new : ℕ) → b ≡ true → old ≤ last_end b old new
unfolding last_end
last_end_keeps false old new h = absurd (cc)
last_end_keeps true old new h = ground arith

union-Covers : (r : TimeRange) (start end : ℕ) → Covers (union r start end) start end
unfolding union
union-Covers r start end =
    (refl, refl, first_start_le r.has_start r.start start, le_last_end r.has_end r.end end)

Covers-union :
    (r : TimeRange) (start end start' end' : ℕ)
    → Covers r start' end'
    → Covers (union r start end) start' end'
unfolding union
Covers-union r start end start' end' c = (
  refl,
  refl,
  omega (arith, first_start_keeps r.has_start r.start start c.0, c.2),
  omega (arith, last_end_keeps r.has_end r.end end c.1, c.3),
)

Covers-union_children :
    (r : TimeRange) (children : List (Content Log)) (start end : ℕ)
    → Covers r start end
    → Covers (union_children r children) start end
unfolding union_children
Covers-union_children r [] start end c = c
Covers-union_children r (child ∷ children) start end c =
    Covers-union_children (union r child.start_time (child.start_time + child.duration)) children
      start end (Covers-union r child.start_time (child.start_time + child.duration) start end c)

Covers-union_logs :
    (r : TimeRange) (logs : List Log) (start end : ℕ)
    → Covers r start end
    → Covers (union_logs r logs) start end
unfolding union_logs
Covers-union_logs r [] start end c = c
Covers-union_logs r (log ∷ logs) start end c =
    Covers-union_logs (union r log.timestamp (log.timestamp + dummy_duration)) logs start end
      (Covers-union r log.timestamp (log.timestamp + dummy_duration) start end c)

-- The time that a span takes holds a time.
abbrev pub Holds : Content Log → ℕ → ℕ → Type 0
Holds span start end = (span.start_time ≤ start) × (end ≤ span.start_time + span.duration)

abbrev pub HoldsChildren : Content Log → List (Content Log) → Type 0
HoldsChildren span [] = Unit
HoldsChildren span (child ∷ children) =
    Holds span child.start_time (child.start_time + child.duration) × HoldsChildren span children

abbrev pub HoldsLogs : Content Log → List Log → Type 0
HoldsLogs span [] = Unit
HoldsLogs span (log ∷ logs) =
    Holds span log.timestamp (log.timestamp + dummy_duration) × HoldsLogs span logs

padded_holds :
    (first last padding start end : ℕ)
    → first ≤ start
    → end ≤ last
    → (first - padding ≤ start) × (end ≤ first - padding + (last - first + padding * 2))
padded_holds first last padding start end h k = (omega (arith, h), omega (arith, h, k))

with_range-Holds :
    (is_root : Bool) (r : TimeRange) (span : Content Log) (start end : ℕ)
    → Covers r start end
    → Holds (with_range is_root r span) start end
unfolding with_range padded
with_range-Holds false r span start end c = rw (c.0, c.1) (c.2, omega (arith, c.2, c.3))
with_range-Holds true r span start end c =
    rw (c.0, c.1) (padded_holds r.start r.end ((r.end - r.start) / 20) start end c.2 c.3)

-- A span that holds all that a range covers holds what went into the range.
children-Holds :
    (out : Content Log) (r : TimeRange) (children : List (Content Log))
    → ((start end : ℕ) → Covers (union_children r children) start end → Holds out start end)
    → HoldsChildren out children
unfolding union_children
children-Holds out r [] h = tt
children-Holds out r (child ∷ children) h =
    let end = child.start_time + child.duration in
    let grown = union r child.start_time end in
    (
      h child.start_time end (
          Covers-union_children grown children child.start_time end
            (union-Covers r child.start_time end)),
      children-Holds out grown children h,
    )

logs-Holds :
    (out : Content Log) (r : TimeRange) (logs : List Log)
    → ((start end : ℕ) → Covers (union_logs r logs) start end → Holds out start end)
    → HoldsLogs out logs
unfolding union_logs
logs-Holds out r [] h = tt
logs-Holds out r (log ∷ logs) h =
    let end = log.timestamp + dummy_duration in
    let grown = union r log.timestamp end in
    (
      h log.timestamp end
          (Covers-union_logs grown logs log.timestamp end (union-Covers r log.timestamp end)),
      logs-Holds out grown logs h,
    )

module _ {ℓ} {I : Type ℓ} ⦃e : Eq I⦄ where
  -- A pseudo span whose children are all in the tree is given a time that holds the time of each of
  -- its children and of each of its logs, whether it is the root or not.
  pub compact_duration-Holds :
      (tree : SpanTree I (Content Log)) (span : Span I (Content Log))
      (children : List (Content Log))
      → has "zzz-pseudoType" span.payload.tags ≡ true
      → contents_of (children_of span.id tree.children_map) tree.span_map ≡ some children
      → (out : Content Log) × (compact_duration tree span ≡ some (record span { payload = out }))
        × HoldsChildren out children
        × HoldsLogs out span.payload.logs
  unfolding compact_duration compacted
  compact_duration-Holds tree span children pseudo there =
      let is_root = tree.root == span.id in
      let r = union_children no_range children in
      let out = with_range is_root (union_logs r span.payload.logs) span.payload in
      let holds : (start end : ℕ)
          → Covers (union_logs r span.payload.logs) start end
          → Holds out start end =
        λ start end c.
          with_range-Holds is_root (union_logs r span.payload.logs) span.payload start end c in
      (
        out,
        rw (pseudo, there, compact_duration) refl,
        children-Holds out no_range children
            (λ start end c. holds start end (Covers-union_logs r span.payload.logs start end c)),
        logs-Holds out r span.payload.logs holds,
      )
