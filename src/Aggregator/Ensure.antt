-- ===== src/Aggregator/Ensure.antt =====
-- `EnsureObjectSpan` of pkg/aggregator/aggregator.go: the span of an object, and a job for the
-- linkers when it is new.
use kelemetry.Base.{
  ℕ, ◌+◌, ◌≤◌, ◌≡◌, ap, true, false, List, [], ◌∷◌, Option, none, some, String, Eq, string_eq,
}
use kelemetry.Base.Map.{lookup}
use kelemetry.Aggregator.{Rich, Options, Span, expiring_window, pseudo_span}
use kelemetry.Aggregator.Creation.{
  Failure, Answer, span, failure, World, Services, get_or_create_pseudo_span,
}
use kelemetry.Aggregator.Idempotence.{Settles, cache_key, created_once}

-- `linkjob.LinkJob`
pub record LinkJob {ℓ} (C : Type ℓ) : Type ℓ where
  pub object : Rich
  pub event_time : ℕ
  pub job_span : C

pub data Ensured {ℓ} (C : Type ℓ) : Type ℓ where
  ensured : C → Ensured C
  not_ensured : Failure → Ensured C

module _ {ℓ κ μ ν} {V : Type ℓ} {U : Type κ} {T : Type μ} {C : Type ν} ⦃e : Eq U⦄
    (services : Services V U T C) (options : Options) where
  unfoldable pub publish_if_new :
      Rich
      → ℕ
      → Option (World V U T × Answer C)
      → Option (World V U T × List (LinkJob C) × Ensured C)
  publish_if_new object event_time none = none
  publish_if_new object event_time (some (w, span c true)) =
      some (w, record { object = object; event_time = event_time; job_span = c } ∷ [], ensured c)
  publish_if_new object event_time (some (w, span c false)) = some (w, [], ensured c)
  publish_if_new object event_time (some (w, failure x)) = some (w, [], not_ensured x)

  -- The jobs that the call publishes are a part of the answer.
  unfoldable pub ensure_object_span :
      World V U T → Rich → ℕ → Option (World V U T × List (LinkJob C) × Ensured C)
  unfolding publish_if_new
  ensure_object_span w object event_time = publish_if_new object event_time (
      get_or_create_pseudo_span services options w object "object" event_time none none [] "object")

  -- Linkers are told once for each object and window: the first call on a key that is missing
  -- creates the span and publishes one job for it; every later call on the cache so left, not after
  -- its entry has expired, for this object and an event of the same window, gives the same span and
  -- publishes none. The assumptions are those of `created_once`.
  pub published_once :
      (settles : Settles services) (w : World V U T) (object : Rich) (event_time : ℕ) (key : String)
      (spec : Span C) (uid new_uid : U) (t : T) (c : C) (v : V)
      → cache_key services options settles object event_time "object" ≡ some key
      → pseudo_span services.format_time services.decorate options object "object" event_time none
          none []
        ≡ some spec
      → lookup key w.cache.entries ≡ none
      → w.randoms w.draws ≡ some uid
      → w.randoms (w.draws + 1) ≡ some new_uid
      → w.clock (w.draws + 1) ≤ w.clock w.draws + options.reserve_ttl
      → services.create_span w.tracer spec ≡ (t, some c)
      → services.inject_carrier c ≡ some v
      → services.extract_carrier v ≡ some c
      → (w' : World V U T) × (ensure_object_span w object event_time
          ≡ some (
            w',
            record { object = object; event_time = event_time; job_span = c } ∷ [],
            ensured c,
          ))
        × (w'.tracer ≡ t)
        × ((later : World V U T) (object' : Rich) (event_time' : ℕ)
            → later.cache ≡ w'.cache
            → later.clock later.draws
              ≤ w.clock (w.draws + 1) + (options.span_ttl + options.span_extra_ttl)
            → object'.key ≡ object.key
            → expiring_window options event_time' ≡ expiring_window options event_time
            → ensure_object_span later object' event_time'
              ≡ some (record later { draws = later.draws + 1 }, [], ensured c))
  unfolding ensure_object_span
  published_once settles w object event_time key spec uid new_uid t c v keyed specified missing draw
        next_draw in_time makes writes reads =
      let (w', ran, traced, again) =
        created_once services options settles w object "object" event_time none none [] "object" key
          spec uid new_uid t c v keyed specified missing draw next_draw in_time makes writes
          reads in
      (
        w',
        ap (publish_if_new object event_time) ran,
        traced,
        λ later object' event_time' same_cache fresh same_key same_window.
            ap (publish_if_new object' event_time') (
              again later object' "object" event_time' none none [] same_cache fresh same_key
                same_window),
      )
