-- ===== src/Steps/Transform.antt =====
-- pkg/frontend/tf/transform.go, with the part of extension.go that loads the spans of extensions
-- from a cache. A step is a function on trees, of which `none` is a panic.
pub mod Prepared
pub mod Rootless
pub mod Spans
mod Tests
use kelemetry.Base.{List, [], ◌∷◌, ◌++◌, Option, none, some, String, Eq, string_eq}
use kelemetry.Base.Map.{Map, lookup}
use kelemetry.SpanTree.{Span, SpanTree, new_span_tree}

pub data ExtensionError : Type 0 where
  no_factory invalid_factory cannot_load : ExtensionError

-- The spans that extensions add, or an error.
pub data Loaded {ℓ κ} (I : Type ℓ) (D : Type κ) : Type (ℓ ⊔ κ) where
  loaded : List (Span I D) → Loaded I D
  load_failed : ExtensionError → Loaded I D

pub record ExtensionCache {ℓ} (I : Type ℓ) : Type ℓ where
  pub parent_span_id : I
  pub provider_kind : String
  pub provider_config : String
  pub cached_identifier : String

-- `LoadCache` of a configured provider: an error, nil, or spans.
abbrev pub LoadCache {ℓ κ} : Type ℓ → Type κ → Type (ℓ ⊔ κ)
LoadCache I D = String → Option (Option (List (Span I D)))

-- What a trace is turned into, by steps and with extensions `E`.
pub record Config {ℓ κ μ} (I : Type ℓ) (D : Type κ) (E : Type μ) : Type (ℓ ⊔ κ ⊔ μ) where
  pub extensions : List E
  pub steps : List (SpanTree I D → Option (SpanTree I D))

pub data Transformed {ℓ κ} (I : Type ℓ) (D : Type κ) : Type (ℓ ⊔ κ) where
  transformed : List (Span I D) → Transformed I D
  empty_trace : Transformed I D
  extension_failed : ExtensionError → Transformed I D

unfoldable pub parent_or {ℓ} : {I : Type ℓ} → I → Option I → I
parent_or parent none = parent
parent_or parent (some id) = id

module _ {ℓ κ} {I : Type ℓ} {D : Type κ} where
  -- `GetSpans`, in the order of the map.
  unfoldable pub get_spans : Map I (Span I D) → List (Span I D)
  get_spans [] = []
  get_spans ((id, span) ∷ more) = span ∷ get_spans more

  unfoldable pub set_root_parent : I → List (Span I D) → List (Span I D)
  unfolding parent_or
  set_root_parent parent [] = []
  set_root_parent parent (span ∷ spans) =
      record span { parent = some (parent_or parent span.parent) } ∷ set_root_parent parent spans

  -- The trace id is a part of the payload, and `with_trace` writes it.
  unfoldable pub set_trace_id : (D → D) → List (Span I D) → List (Span I D)
  set_trace_id with_trace [] = []
  set_trace_id with_trace (span ∷ spans) =
      record span { payload = with_trace span.payload } ∷ set_trace_id with_trace spans

  unfoldable pub placed_under : (D → D) → I → Option (Option (List (Span I D))) → Loaded I D
  unfolding set_root_parent set_trace_id
  placed_under with_trace parent none = load_failed cannot_load
  placed_under with_trace parent (some none) = loaded []
  placed_under with_trace parent (some (some spans)) =
      loaded (set_root_parent parent (set_trace_id with_trace spans))

  unfoldable pub load_configured : (D → D) → ExtensionCache I → Option (LoadCache I D) → Loaded I D
  unfolding placed_under
  load_configured with_trace cache none = load_failed invalid_factory
  load_configured with_trace cache (some load) =
      placed_under with_trace cache.parent_span_id (load cache.cached_identifier)

  unfoldable pub load_from :
      (D → D) → ExtensionCache I → Option (String → Option (LoadCache I D)) → Loaded I D
  unfolding load_configured
  load_from with_trace cache none = load_failed no_factory
  load_from with_trace cache (some configure) =
      load_configured with_trace cache (configure cache.provider_config)

  -- The spans of one cache before those of the rest, or the first error.
  unfoldable pub and_then : Loaded I D → Loaded I D → Loaded I D
  and_then (load_failed x) rest = load_failed x
  and_then (loaded spans) (load_failed x) = load_failed x
  and_then (loaded spans) (loaded more) = loaded (spans ++ more)

  -- `LoadExtensionCache.ProcessExtensions`
  unfoldable pub load_extensions :
      Map String (String → Option (LoadCache I D)) → (D → D) → List (ExtensionCache I) → Loaded I D
  unfolding and_then load_from
  load_extensions factories with_trace [] = loaded []
  load_extensions factories with_trace (cache ∷ caches) =
      let rest = load_extensions factories with_trace caches in
      and_then (load_from with_trace cache (lookup cache.provider_kind factories)) rest

  unfoldable pub run_steps :
      List (SpanTree I D → Option (SpanTree I D)) → SpanTree I D → Option (SpanTree I D)
  run_steps [] tree = some tree
  run_steps (step ∷ steps) tree = elim (step tree) [
    | none ↦ none
    | some next ↦ run_steps steps next
  ]

  unfoldable pub finished : Option (SpanTree I D) → Option (Transformed I D)
  unfolding get_spans
  finished none = none
  finished (some tree) = some (transformed (get_spans tree.span_map))

  unfoldable pub stepped :
      List (SpanTree I D → Option (SpanTree I D)) → Option (SpanTree I D) → Option (Transformed I D)
  unfolding run_steps finished
  stepped steps none = none
  stepped steps (some tree) = finished (run_steps steps tree)

module _ {ℓ κ} {I : Type ℓ} {D : Type κ} ⦃e : Eq I⦄ where
  unfoldable pub extended :
      List (SpanTree I D → Option (SpanTree I D))
      → SpanTree I D
      → Loaded I D
      → Option (Transformed I D)
  unfolding stepped get_spans
  extended steps tree (load_failed x) = some (extension_failed x)
  extended steps tree (loaded spans) =
      stepped steps (new_span_tree (spans ++ get_spans tree.span_map))

module _ {ℓ κ μ} {I : Type ℓ} {D : Type κ} {E : Type μ} ⦃e : Eq I⦄ where
  unfoldable pub transform_by :
      (List E → List (Span I D) → Loaded I D)
      → List (Span I D)
      → Option (Config I D E)
      → Option (SpanTree I D)
      → Option (Transformed I D)
  unfolding extended
  transform_by process spans none tree = none
  transform_by process spans (some config) none = none
  transform_by process spans (some config) (some tree) =
      extended config.steps tree (process config.extensions spans)

module _ {ℓ κ μ ν} {I : Type ℓ} {D : Type κ} {E : Type μ} {C : Type ν} ⦃e : Eq I⦄
    ⦃config_eq : Eq C⦄ where
  -- `GetById`, and else the default.
  unfoldable pub config_for :
      Map C (Config I D E) → C → Option (Config I D E) → Option (Config I D E)
  config_for configs default_id none = lookup default_id configs
  config_for configs default_id (some config) = some config

  unfoldable pub transform :
      Map C (Config I D E)
      → C
      → C
      → (List E → List (Span I D) → Loaded I D)
      → List (Span I D)
      → Option (Transformed I D)
  unfolding config_for transform_by
  transform configs default_id config_id process [] = some empty_trace
  transform configs default_id config_id process (span ∷ spans) =
      transform_by process (span ∷ spans) (config_for configs default_id (lookup config_id configs))
        (new_span_tree (span ∷ spans))
