-- ===== src/Aggregator/Send.antt =====
-- `Send` of pkg/aggregator/aggregator.go: a span for an event below the span of its object.
use kelemetry.Base.{
  ◌+◌, ◌≤◌, ◌≡◌, refl, ap, ◌∙◌, List, [], ◌∷◌, Option, none, some, String, Eq, string_eq,
}
use kelemetry.Base.Map.{Map, lookup, insert}
use kelemetry.Aggregator.{
  Rich, Options, Span, put_all, versioned_key_to_span_tags, expiring_window, pseudo_span,
}
use kelemetry.Aggregator.Event.{Event, get_end_time}
use kelemetry.Aggregator.Creation.{Failure, World, Services}
use kelemetry.Aggregator.Idempotence.{Settles, cache_key}
use kelemetry.Aggregator.Ensure.{
  LinkJob, Ensured, ensured, not_ensured, ensure_object_span, published_once,
}

pub data SendError : Type 0 where
  no_object_span : Failure → SendError
  no_event_span : SendError

-- `fmt.Sprint` of each value of a map of tags.
unfoldable pub sprint_all {ℓ} : {A : Type ℓ} → (A → String) → Map String A → Map String String
sprint_all sprint [] = []
sprint_all sprint ((k, a) ∷ tags) = (k, sprint a) ∷ sprint_all sprint tags

module _ {ℓ} {A : Type ℓ} (sprint : A → String) where
  unfoldable pub event_tags : Options → Rich → Event A → Map String String
  unfolding versioned_key_to_span_tags put_all sprint_all
  event_tags options object event =
      let base =
        insert "zzz-traceSource" event.trace_source
          (insert "zzz-notPseudo" "zzz-notPseudo" (versioned_key_to_span_tags object)) in
      put_all options.global_pseudo_tags (put_all (sprint_all sprint event.tags) base)

  unfoldable pub event_span {κ} : {C : Type κ} → Options → Rich → Event A → C → Span C
  unfolding event_tags get_end_time
  event_span options object event parent = record {
    span_type = event.trace_source;
    span_name = event.title;
    start_time = event.time;
    finish_time = get_end_time event;
    parent = some parent;
    follows = none;
    tags = event_tags options object event;
    logs = event.logs;
  }

unfoldable pub sent {ℓ} : {C : Type ℓ} → Option C → Option SendError
sent none = some no_event_span
sent (some c) = none

module _ {ℓ κ μ ν ο} {V : Type ℓ} {U : Type κ} {T : Type μ} {C : Type ν} {A : Type ο} ⦃e : Eq U⦄
    (services : Services V U T C) (options : Options) (sprint : A → String)
    (decorate_event : Rich → Event A → Event A) where
  unfoldable pub send_below :
      Rich
      → Event A
      → Option (World V U T × List (LinkJob C) × Ensured C)
      → Option (World V U T × List (LinkJob C) × Option SendError)
  unfolding event_span sent
  send_below object event none = none
  send_below object event (some (w, jobs, not_ensured x)) = some (w, jobs, some (no_object_span x))
  send_below object event (some (w, jobs, ensured parent)) =
      let spec = event_span sprint options object (decorate_event object event) parent in
      let (tracer, made) = services.create_span w.tracer spec in
      some (record w { tracer = tracer }, jobs, sent made)

  -- `decorate_event` runs the event decorators, after the object's span is found by the time that
  -- the event has before. No error is `none`.
  unfoldable pub send :
      World V U T → Rich → Event A → Option (World V U T × List (LinkJob C) × Option SendError)
  unfolding ensure_object_span send_below
  send w object event =
      send_below object event (ensure_object_span services options w object event.time)

  send_below-ensured :
      (w : World V U T) (jobs : List (LinkJob C)) (object : Rich) (event : Event A) (parent c : C)
      (t : T)
      → services.create_span w.tracer
          (event_span sprint options object (decorate_event object event) parent)
        ≡ (t, some c)
      → send_below object event (some (w, jobs, ensured parent))
        ≡ some (record w { tracer = t }, jobs, none)
  unfolding send_below sent
  send_below-ensured w jobs object event parent c t makes =
      ap (λ r. some (record w { tracer = r.0 }, jobs, sent r.1)) makes

  -- The first event of an object in a window, on a key that the span cache does not have, makes the
  -- object's span and a span below it, and tells the linkers once. Every later event of the window,
  -- on the cache so left and not after its entry has expired, makes one span, below the same object's
  -- span, and tells no linker. The assumptions are those of `created_once`, and that the tracer makes
  -- the spans of the events.
  pub sent_below_one_span :
      (settles : Settles services) (w : World V U T) (object : Rich) (event : Event A)
      (key : String) (spec : Span C) (uid new_uid : U) (t t_event : T) (c c_event : C) (v : V)
      → cache_key services options settles object event.time "object" ≡ some key
      → pseudo_span services.format_time services.decorate options object "object" event.time none
          none []
        ≡ some spec
      → lookup key w.cache.entries ≡ none
      → w.randoms w.draws ≡ some uid
      → w.randoms (w.draws + 1) ≡ some new_uid
      → w.clock (w.draws + 1) ≤ w.clock w.draws + options.reserve_ttl
      → services.create_span w.tracer spec ≡ (t, some c)
      → services.inject_carrier c ≡ some v
      → services.extract_carrier v ≡ some c
      → services.create_span t (event_span sprint options object (decorate_event object event) c)
        ≡ (t_event, some c_event)
      → (w' : World V U T) × (send w object event
          ≡ some (w', record { object = object; event_time = event.time; job_span = c } ∷ [], none))
        × (w'.tracer ≡ t_event)
        × ((later : World V U T) (object' : Rich) (event' : Event A) (t' : T) (c' : C)
            → later.cache ≡ w'.cache
            → later.clock later.draws
              ≤ w.clock (w.draws + 1) + (options.span_ttl + options.span_extra_ttl)
            → object'.key ≡ object.key
            → expiring_window options event'.time ≡ expiring_window options event.time
            → services.create_span later.tracer
                (event_span sprint options object' (decorate_event object' event') c)
              ≡ (t', some c')
            → send later object' event'
              ≡ some (record later { tracer = t'; draws = later.draws + 1 }, [], none))
  unfolding send
  sent_below_one_span settles w object event key spec uid new_uid t t_event c c_event v keyed
        specified missing draw next_draw in_time makes writes reads makes_event =
      let (w', ran, traced, again) =
        published_once services options settles w object event.time key spec uid new_uid t c v keyed
          specified missing draw next_draw in_time makes writes reads in
      let jobs = record { object = object; event_time = event.time; job_span = c } ∷ [] in
      (
        record w' { tracer = t_event },
        ap (send_below object event) ran
            ∙ send_below-ensured w' jobs object event c c_event t_event (
                ap
                  (λ s.
                    services.create_span s
                      (event_span sprint options object (decorate_event object event) c))
                  traced
                ∙ makes_event),
        refl,
        λ later object' event' t' c' same_cache fresh same_key same_window makes'.
            ap (send_below object' event')
              (again later object' event'.time same_cache fresh same_key same_window)
            ∙ send_below-ensured (record later { draws = later.draws + 1 }) [] object' event' c c'
                t' makes',
      )
