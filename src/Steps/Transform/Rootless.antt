-- ===== src/Steps/Transform/Rootless.antt =====
-- The spans that come with the extensions of pkg/frontend/tf/extension.go have parents.
use kelemetry.Base.{
  ◌≡◌, refl, inl, inr, false, List, [], ◌∷◌, ◌++◌, Option, none, some, String, Eq, string_eq,
  Bool-cases,
}
use kelemetry.Base.Map.{Map, lookup}
use kelemetry.SpanTree.{Span}
use kelemetry.SpanTree.Load.{has_root, is_root}
use kelemetry.Steps.Transform.{
  Loaded, loaded, load_failed, ExtensionCache, LoadCache, set_root_parent, set_trace_id,
  placed_under, load_configured, load_from, and_then, load_extensions,
}

module _ {ℓ κ} {I : Type ℓ} {D : Type κ} ⦃e : Eq I⦄ where
  -- Spans that a root parent was set for have no root among them.
  has_root-set_root_parent :
      (parent : I) (spans : List (Span I D)) → has_root (set_root_parent parent spans) ≡ false
  unfolding set_root_parent
  has_root-set_root_parent parent [] = refl
  has_root-set_root_parent parent (span ∷ spans) = has_root-set_root_parent parent spans

  has_root-append :
      (xs ys : List (Span I D))
      → has_root xs ≡ false
      → has_root ys ≡ false
      → has_root (xs ++ ys) ≡ false
  has_root-append [] ys h h' = h'
  has_root-append (x ∷ xs) ys h h' = elim (Bool-cases (is_root x)) [
    | inl t ↦ absurd (cc (rw t at h))
    | inr t ↦ rw t (has_root-append xs ys (rw t at h) h')
  ]

  abbrev pub Rootless : Loaded I D → Type 0
  Rootless (loaded spans) = has_root spans ≡ false
  Rootless (load_failed x) = Unit

  placed_under-Rootless :
      (with_trace : D → D) (parent : I) (o : Option (Option (List (Span I D))))
      → Rootless (placed_under with_trace parent o)
  unfolding placed_under
  placed_under-Rootless with_trace parent none = tt
  placed_under-Rootless with_trace parent (some none) = refl
  placed_under-Rootless with_trace parent (some (some spans)) =
      has_root-set_root_parent parent (set_trace_id with_trace spans)

  load_configured-Rootless :
      (with_trace : D → D) (cache : ExtensionCache I) (o : Option (LoadCache I D))
      → Rootless (load_configured with_trace cache o)
  unfolding load_configured
  load_configured-Rootless with_trace cache none = tt
  load_configured-Rootless with_trace cache (some load) =
      placed_under-Rootless with_trace cache.parent_span_id (load cache.cached_identifier)

  load_from-Rootless :
      (with_trace : D → D) (cache : ExtensionCache I) (o : Option (String → Option (LoadCache I D)))
      → Rootless (load_from with_trace cache o)
  unfolding load_from
  load_from-Rootless with_trace cache none = tt
  load_from-Rootless with_trace cache (some configure) =
      load_configured-Rootless with_trace cache (configure cache.provider_config)

  and_then-Rootless : (a b : Loaded I D) → Rootless a → Rootless b → Rootless (and_then a b)
  unfolding and_then
  and_then-Rootless (load_failed x) b h h' = tt
  and_then-Rootless (loaded xs) (load_failed x) h h' = tt
  and_then-Rootless (loaded xs) (loaded ys) h h' = has_root-append xs ys h h'

  -- Whatever the caches hold, none of the spans that they give is a root.
  pub load_extensions-Rootless :
      (factories : Map String (String → Option (LoadCache I D))) (with_trace : D → D)
      (caches : List (ExtensionCache I))
      → Rootless (load_extensions factories with_trace caches)
  unfolding load_extensions
  load_extensions-Rootless factories with_trace [] = refl
  load_extensions-Rootless factories with_trace (cache ∷ caches) =
      and_then-Rootless (load_from with_trace cache (lookup cache.provider_kind factories)) _
        (load_from-Rootless with_trace cache (lookup cache.provider_kind factories))
        (load_extensions-Rootless factories with_trace caches)
