-- ===== src/Aggregator/Idempotence.antt =====
-- `GetOrCreatePseudoSpan` of pkg/aggregator/aggregator.go creates a span once and then shares it.
use kelemetry.Base.{
  ℕ, ◌+◌, ◌≤◌, ◌≡◌, refl, sym, ap, subst, ◌∙◌, true, false, Option, none, some, String, Eq,
  string_eq,
}
use kelemetry.Base.Map.{Map, lookup}
use kelemetry.SpanCache.{LocalEntry}
use kelemetry.SpanCache.Protocol.{
  Holds, fetch_or_reserve-missing, fetch_or_reserve-initialised, set_reserved-owner,
}
use kelemetry.Aggregator.{
  Rich, Options, Span, expiring_window, expiring_span_cache_key, key_in_window, pseudo_span,
}
use kelemetry.Aggregator.Creation.{
  retriable, fetched, reserved, span, World, Attempts, Services, extracted, attempt_of,
  fetch_or_reserve_attempt, persisted, persist, inject, create, after_attempt, create_or_share,
  get_or_create_pseudo_span,
}

module _ {ℓ κ μ ν} {V : Type ℓ} {U : Type κ} {T : Type μ} {C : Type ν} ⦃e : Eq U⦄ where
  -- `OnError` does not run an attempt again that has not failed.
  pub record Settles (services : Services V U T C) : Type (ℓ ⊔ κ ⊔ μ ⊔ ν) where
    pub on_reserved :
        (f : Attempts V U T C) (w w' : World V U T) (uid : U)
        → f w ≡ some (w', reserved uid)
        → services.on_error retriable f w ≡ some (w', reserved uid)
    pub on_fetched :
        (f : Attempts V U T C) (w w' : World V U T) (c : C)
        → f w ≡ some (w', fetched c)
        → services.on_error retriable f w ≡ some (w', fetched c)

  module _ (services : Services V U T C) (options : Options) (settles : Settles services) where
    abbrev pub cache_key : Rich → ℕ → String → Option String
    cache_key object event_time dedup_id =
        expiring_span_cache_key services.format_int options object.key event_time dedup_id

    -- On a key that has a value, nothing is created.
    fetched_again :
        (spec : Option (Span C)) (w : World V U T) (key : String) (ent : LocalEntry V U) (v : V)
        (c : C)
        → Holds w.cache key ent
        → ent.value ≡ some v
        → services.extract_carrier v ≡ some c
        → create_or_share services options spec w (some key)
          ≡ some (record w { draws = w.draws + 1 }, span c false)
    unfolding create_or_share fetch_or_reserve_attempt attempt_of extracted after_attempt
    fetched_again spec w key ent v c holds has reads =
        let read =
          fetch_or_reserve-initialised w.cache key ent v options.reserve_ttl (w.clock w.draws)
            (w.randoms w.draws) holds has in
        let attempt : fetch_or_reserve_attempt services options key w
            ≡ some (record w { draws = w.draws + 1 }, fetched c) =
          rw (read, fetch_or_reserve_attempt) (rw (reads, extracted) refl) in
        rw
          (
            settles.on_fetched (fetch_or_reserve_attempt services options key) w _ c attempt,
            create_or_share,
          )
          refl

    -- On a key that is missing, the span is created, and stored for the others.
    created :
        (spec : Span C) (w : World V U T) (key : String) (uid new_uid : U) (t : T) (c : C) (v : V)
        → lookup key w.cache.entries ≡ none
        → w.randoms w.draws ≡ some uid
        → w.randoms (w.draws + 1) ≡ some new_uid
        → w.clock (w.draws + 1) ≤ w.clock w.draws + options.reserve_ttl
        → services.create_span w.tracer spec ≡ (t, some c)
        → services.inject_carrier c ≡ some v
        → (w' : World V U T) × (create_or_share services options (some spec) w (some key)
            ≡ some (w', span c true))
          × (w'.tracer ≡ t)
          × ((ent : LocalEntry V U) × Holds w'.cache key ent × (ent.value ≡ some v))
    unfolding create_or_share fetch_or_reserve_attempt attempt_of after_attempt create inject
        persist persisted
    created spec w key uid new_uid t c v missing draw next_draw in_time makes writes =
        let (cache, ran, held) =
          fetch_or_reserve-missing w.cache key options.reserve_ttl (w.clock w.draws) uid missing in
        let w1 : World V U T = record w { cache = cache; draws = w.draws + 1 } in
        let attempt : fetch_or_reserve_attempt services options key w ≡ some (w1, reserved uid) =
          rw (draw, fetch_or_reserve_attempt) (rw (ran, fetch_or_reserve_attempt) refl) in
        let (filled, wrote, holds) =
          set_reserved-owner cache key _ (some v) (options.span_ttl + options.span_extra_ttl)
            (w.clock (w.draws + 1)) new_uid held refl in_time in
        let w2 : World V U T = record w1 { tracer = t } in
        (
          record w2 { cache = filled; draws = w1.draws + 1 },
          rw
              (
                settles.on_reserved (fetch_or_reserve_attempt services options key) w w1 uid
                    attempt,
                create_or_share,
              )
              (ap (λ p. inject services options key uid (record w1 { tracer = p.0 }) p.1) makes
                ∙ rw (writes, persist) (rw (next_draw, persisted) (rw (wrote, persisted) refl))),
          refl,
          (_, holds, refl),
        )

    -- One span for each object, window and deduplication id, in the lifetime of the cache entry. A
    -- first call on a key that the cache does not have creates the span by one call of the tracer and
    -- answers that it is new. It is assumed that the reservation and the fill get their random UIDs,
    -- that the fill comes before the reservation expires, and that the tracer makes the span, writes
    -- it into a carrier and reads it back. Every later call on the cache so left, not after the entry
    -- has expired, for this object, this deduplication id and an event of the same window, answers
    -- with the same span, not new, and calls the tracer for no span.
    pub created_once :
        (w : World V U T) (object : Rich) (pseudo_type : String) (event_time : ℕ)
        (parent follows : Option C) (extra : Map String String) (dedup_id key : String)
        (spec : Span C) (uid new_uid : U) (t : T) (c : C) (v : V)
        → cache_key object event_time dedup_id ≡ some key
        → pseudo_span services.format_time services.decorate options object pseudo_type event_time
            parent follows extra
          ≡ some spec
        → lookup key w.cache.entries ≡ none
        → w.randoms w.draws ≡ some uid
        → w.randoms (w.draws + 1) ≡ some new_uid
        → w.clock (w.draws + 1) ≤ w.clock w.draws + options.reserve_ttl
        → services.create_span w.tracer spec ≡ (t, some c)
        → services.inject_carrier c ≡ some v
        → services.extract_carrier v ≡ some c
        → (w' : World V U T) × (get_or_create_pseudo_span services options w object pseudo_type
              event_time parent follows extra dedup_id
            ≡ some (w', span c true))
          × (w'.tracer ≡ t)
          × ((later : World V U T) (object' : Rich) (pseudo_type' : String) (event_time' : ℕ)
                (parent' follows' : Option C) (extra' : Map String String)
              → later.cache ≡ w'.cache
              → later.clock later.draws
                ≤ w.clock (w.draws + 1) + (options.span_ttl + options.span_extra_ttl)
              → object'.key ≡ object.key
              → expiring_window options event_time' ≡ expiring_window options event_time
              → get_or_create_pseudo_span services options later object' pseudo_type' event_time'
                  parent' follows' extra' dedup_id
                ≡ some (record later { draws = later.draws + 1 }, span c false))
    unfolding expiring_span_cache_key get_or_create_pseudo_span
    created_once w object pseudo_type event_time parent follows extra dedup_id key spec uid new_uid
          t c v keyed specified missing draw next_draw in_time makes writes reads =
        let (w', ran, traced, (ent, holds, has)) =
          created spec w key uid new_uid t c v missing draw next_draw in_time makes writes in
        (
          w',
          ap (λ o. create_or_share services options o w (cache_key object event_time dedup_id))
                specified
              ∙ ap (create_or_share services options (some spec) w) keyed
              ∙ ran,
          traced,
          λ later object' pseudo_type' event_time' parent' follows' extra' same_cache fresh same_key
                same_window.
              let key_same : cache_key object' event_time' dedup_id ≡ some key =
                (λ i. key_in_window services.format_int (same_key i) dedup_id (same_window i))
                ∙ keyed in
              ap
                (create_or_share services options
                  (pseudo_span services.format_time services.decorate options object' pseudo_type'
                    event_time' parent' follows' extra')
                  later)
                key_same
              ∙ fetched_again _ later key ent v c
                  (subst (λ d. Holds d key ent) (sym same_cache) holds) has reads,
        )
