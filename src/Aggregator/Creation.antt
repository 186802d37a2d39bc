-- ===== src/Aggregator/Creation.antt =====
-- `GetOrCreatePseudoSpan` of pkg/aggregator/aggregator.go over the in-memory span cache.
use kelemetry.Base.{ℕ, ◌+◌, Bool, true, false, Option, none, some, String, Eq, string_eq}
use kelemetry.Base.Map.{Map}
use kelemetry.SpanCache.{
  CacheError, should_retry, Result, ok, err, Entry, Local, fetch_or_reserve, set_reserved,
}
use kelemetry.Aggregator.{Rich, Options, Span, expiring_span_cache_key, pseudo_span}

-- The errors of the span cache, and those of the tracer's three calls.
pub data Failure : Type 0 where
  from_cache : CacheError → Failure
  bad_carrier no_span no_carrier : Failure

-- `spancache.ShouldRetry` looks through the wrapping of the errors.
abbrev pub retriable : Failure → Bool
retriable (from_cache x) = should_retry x
retriable bad_carrier = false
retriable no_span = false
retriable no_carrier = false

-- What `spanCreator.fetchOrReserve` leaves in the creator, or its error.
pub data Attempt {ℓ κ} (C : Type ℓ) (U : Type κ) : Type (ℓ ⊔ κ) where
  fetched : C → Attempt C U
  reserved : U → Attempt C U
  failed : Failure → Attempt C U

pub data Answer {ℓ} (C : Type ℓ) : Type ℓ where
  span : C → Bool → Answer C
  failure : Failure → Answer C

-- `tracer` is what the tracing backend holds. `draws` counts the calls of the cache: `randoms` are
-- the outcomes of `randUid` in them, and `clock` the times at which they are made.
pub record World {ℓ κ μ} (V : Type ℓ) (U : Type κ) (T : Type μ) : Type (ℓ ⊔ κ ⊔ μ) where
  pub cache : Local V U
  pub tracer : T
  pub clock : ℕ → ℕ
  pub randoms : ℕ → Option U
  pub draws : ℕ

abbrev pub Attempts {ℓ κ μ ν} :
    (V : Type ℓ) (U : Type κ) (T : Type μ) (C : Type ν) → Type (ℓ ⊔ κ ⊔ μ ⊔ ν)
Attempts V U T C = World V U T → Option (World V U T × Attempt C U)

-- The tracer's interface, and `retry.OnError` of client-go, which may run the attempt again after
-- a retriable error, with other clients of the cache in between.
pub record Services {ℓ κ μ ν} (V : Type ℓ) (U : Type κ) (T : Type μ) (C : Type ν)
    : Type (ℓ ⊔ κ ⊔ μ ⊔ ν) where
  pub extract_carrier : V → Option C
  pub inject_carrier : C → Option V
  pub create_span : T → Span C → T × Option C
  pub on_error : (Failure → Bool) → Attempts V U T C → Attempts V U T C
  pub format_int : ℕ → String
  pub format_time : ℕ → String
  pub decorate : Rich → String → Map String String → Map String String

module _ {ℓ κ μ ν} {V : Type ℓ} {U : Type κ} {T : Type μ} {C : Type ν} ⦃e : Eq U⦄
    (services : Services V U T C) (options : Options) where
  unfoldable pub extracted : Option C → Attempt C U
  extracted none = failed bad_carrier
  extracted (some c) = fetched c

  unfoldable pub attempt_of : Result (Entry V U) → Attempt C U
  unfolding extracted
  attempt_of (err x) = failed (from_cache x)
  attempt_of (ok entry) = elim entry.value [
    | none ↦ reserved entry.last_uid
    | some v ↦ extracted (services.extract_carrier v)
  ]

  unfoldable pub fetch_or_reserve_attempt : String → Attempts V U T C
  unfolding attempt_of
  fetch_or_reserve_attempt cache_key w =
      elim (fetch_or_reserve w.cache cache_key options.reserve_ttl (w.clock w.draws)
        (w.randoms w.draws)) [
          | none ↦ none
          | some (cache, result) ↦
              some (record w { cache = cache; draws = w.draws + 1 }, attempt_of result)
        ]

  unfoldable pub persisted :
      World V U T → C → Option (Local V U × Option CacheError) → Option (World V U T × Answer C)
  persisted w c none = none
  persisted w c (some (cache, none)) =
      some (record w { cache = cache; draws = w.draws + 1 }, span c true)
  persisted w c (some (cache, some x)) =
      some (record w { cache = cache; draws = w.draws + 1 }, failure (from_cache x))

  unfoldable pub persist : String → U → World V U T → C → Option V → Option (World V U T × Answer C)
  unfolding persisted
  persist cache_key uid w c none = some (w, failure no_carrier)
  persist cache_key uid w c (some v) = persisted w c (
      set_reserved w.cache cache_key (some v) uid (options.span_ttl + options.span_extra_ttl)
        (w.clock w.draws) (w.randoms w.draws))

  unfoldable pub inject : String → U → World V U T → Option C → Option (World V U T × Answer C)
  unfolding persist
  inject cache_key uid w none = some (w, failure no_span)
  inject cache_key uid w (some c) = persist cache_key uid w c (services.inject_carrier c)

  -- `none` is a panic of `CreatePseudoSpan`.
  unfoldable pub create :
      String → U → World V U T → Option (Span C) → Option (World V U T × Answer C)
  unfolding inject
  create cache_key uid w none = none
  create cache_key uid w (some spec) =
      let (tracer, made) = services.create_span w.tracer spec in
      inject cache_key uid (record w { tracer = tracer }) made

  unfoldable pub after_attempt :
      String → Option (Span C) → World V U T → Attempt C U → Option (World V U T × Answer C)
  unfolding create
  after_attempt cache_key spec w (failed x) = some (w, failure x)
  after_attempt cache_key spec w (fetched c) = some (w, span c false)
  after_attempt cache_key spec w (reserved uid) = create cache_key uid w spec

  -- The rest, with the cache key; `spec` is the span that `CreatePseudoSpan` would make.
  unfoldable pub create_or_share :
      Option (Span C) → World V U T → Option String → Option (World V U T × Answer C)
  unfolding after_attempt
  create_or_share spec w none = none
  create_or_share spec w (some cache_key) =
      elim (services.on_error retriable (fetch_or_reserve_attempt cache_key) w) [
        | none ↦ none
        | some (w', attempt) ↦ after_attempt cache_key spec w' attempt
      ]

  unfoldable pub get_or_create_pseudo_span :
      World V U T
      → Rich
      → String
      → ℕ
      → Option C
      → Option C
      → Map String String
      → String
      → Option (World V U T × Answer C)
  unfolding create_or_share
  get_or_create_pseudo_span w object pseudo_type event_time parent follows extra dedup_id =
      create_or_share
        (pseudo_span services.format_time services.decorate options object pseudo_type event_time
          parent follows extra)
        w (expiring_span_cache_key services.format_int options object.key event_time dedup_id)
