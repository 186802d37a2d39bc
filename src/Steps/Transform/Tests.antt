-- ===== src/Steps/Transform/Tests.antt =====
-- A run of pkg/frontend/tf/transform.go on a small trace with one cached extension.
use kelemetry.Base.{
  ℕ, ◌≡◌, refl, inl, inr, [], ◌∷◌, List, Option, none, some, String, nat_eq, string_eq, Bool-cases,
  ◌==◌,
}
use kelemetry.Base.Map.{Map, lookup, insert, has}
use kelemetry.SpanTree.{Span, SpanTree, move, new_span_tree}
use kelemetry.SpanTree.Load.{find, DistinctIds}
use kelemetry.Steps.Transform.{
  ExtensionCache, LoadCache, Config, transformed, load_extensions, run_steps, finished, config_for,
  transform,
}
use kelemetry.Steps.Transform.Prepared.{Extends, transform-Extends}
use kelemetry.Steps.Transform.Spans.{Disjoint}

abbrev top_span : Span ℕ ℕ
top_span = record { id = 1; parent = none; payload = 10 }

abbrev call_span : Span ℕ ℕ
call_span = record { id = 2; parent = some 1; payload = 10 }

abbrev hop_span : Option ℕ → ℕ → Span ℕ ℕ
hop_span parent trace = record { id = 3; parent = parent; payload = trace }

abbrev cached_hop : ExtensionCache ℕ
cached_hop = record {
  parent_span_id = 2;
  provider_kind = "http";
  provider_config = "";
  cached_identifier = "x";
}

abbrev load_hop : LoadCache ℕ ℕ
load_hop identifier = some (some (hop_span none 77 ∷ []))

abbrev factories : Map String (String → Option (LoadCache ℕ ℕ))
factories = ("http", λ config. some load_hop) ∷ []

-- One step, which moves the hop below the top span.
abbrev hop_up : Config ℕ ℕ ℕ
hop_up = record { extensions = []; steps = (λ tree. move tree 3 1) ∷ [] }

abbrev configs : Map ℕ (Config ℕ ℕ ℕ)
configs = (5, hop_up) ∷ []

abbrev hops : List (Span ℕ ℕ)
hops = hop_span (some 2) 10 ∷ []

trace-DistinctIds : DistinctIds (top_span ∷ call_span ∷ [])
unfolding find
trace-DistinctIds = (refl, (refl, tt))

hops-DistinctIds : DistinctIds hops
unfolding find
hops-DistinctIds = (refl, tt)

hops-Disjoint : Disjoint hops (top_span ∷ call_span ∷ [])
unfolding find
hops-Disjoint j = elim (Bool-cases (3 == j)) [
  | inl t ↦ inr (rw (← (nat_eq.beq_iff 3 j).0 t) refl)
  | inr t ↦ inl (rw t refl)
]

-- The hop comes into the trace and ends up below the top span.
hop_moves_up :
    transform configs 5 9
      (λ extensions spans. load_extensions factories (λ t. 10) (cached_hop ∷ []))
      (top_span ∷ call_span ∷ [])
    ≡ some (transformed (hop_span (some 1) 10 ∷ top_span ∷ call_span ∷ []))
unfolding transform load_extensions config_for lookup insert has run_steps new_span_tree move
hop_moves_up = refl

transform-Extends_example :
    (tree : SpanTree ℕ ℕ) × Extends hops (top_span ∷ call_span ∷ []) tree
    × (transform configs 5 9
          (λ extensions spans. load_extensions factories (λ t. 10) (cached_hop ∷ []))
          (top_span ∷ call_span ∷ [])
        ≡ finished (run_steps hop_up.steps tree))
unfolding config_for lookup load_extensions
transform-Extends_example =
    transform-Extends configs 5 9 hop_up factories (λ t. 10) (cached_hop ∷ []) top_span
      (call_span ∷ []) hops trace-DistinctIds refl refl refl hops-DistinctIds hops-Disjoint
