-- ===== src/Aggregator/Tests.antt =====
-- Runs of pkg/aggregator/aggregator.go on small inputs. Spans are named by the number of spans made.
use kelemetry.Base.{
  ℕ, ◌+◌, ◌*◌, ◌≤◌, arith, ◌≡◌, refl, true, false, [], ◌∷◌, Option, none, some, String, nat_eq,
  string_eq,
}
use kelemetry.Base.Map.{Map, lookup}
use kelemetry.Aggregator.{
  key_string, Rich, Options, Span, second, expiring_window, expiring_span_cache_key, start_of,
  pseudo_span_from, pseudo_span,
}
use kelemetry.Aggregator.Creation.{span, World, Services, get_or_create_pseudo_span}
use kelemetry.Aggregator.Idempotence.{Settles, cache_key, created_once}
use kelemetry.Aggregator.Event.{Event, new_event, set_tag, set_duration, get_end_time, log}
use kelemetry.Aggregator.Send.{event_span, send, sent_below_one_span}

abbrev half_hour : Options
half_hour = record {
  reserve_ttl = 10 * second;
  span_ttl = 1800 * second;
  span_extra_ttl = 0;
  global_pseudo_tags = [];
}

-- The start of the window keeps the fraction of the second.
start_time : start_of half_hour (4000 * second + 7) ≡ some (3600 * second + 7)
unfolding start_of
start_time = refl

abbrev services : Services ℕ ℕ ℕ ℕ
services = record {
  extract_carrier = λ v. some v;
  inject_carrier = λ c. some c;
  create_span = λ t s. (t + 1, some t);
  on_error = λ p f. f;
  format_int = λ n. "n";
  format_time = λ n. "t";
  decorate = λ object kind tags. tags;
}

services-Settles : Settles services
services-Settles = record { on_reserved = λ f w w' uid h. h; on_fetched = λ f w w' c h. h }

abbrev pod : Rich
pod = record {
  key = record {
    cluster = "c";
    group = "";
    resource = "pods";
    namespace = "default";
    name = "web";
  };
  version = "v1";
}

abbrev world : World ℕ ℕ ℕ
world = record {
  cache = record { entries = []; heap = [] };
  tracer = 0;
  clock = λ n. n * second;
  randoms = λ n. some (n + 100);
  draws = 0;
}

abbrev pod_key : String
pod_key = "c//pods/default/web/field=object,window=n"

abbrev pod_span : Span ℕ
pod_span =
    pseudo_span_from (λ n. "t") (λ object kind tags. tags) half_hour pod "object" 7 none none []

pod_keyed : cache_key services half_hour services-Settles pod 7 "object" ≡ some pod_key
unfolding expiring_span_cache_key expiring_window key_string
pod_keyed = refl

pod_specified :
    pseudo_span (λ n. "t") (λ object kind tags. tags) half_hour pod "object" 7 none none []
    ≡ some pod_span
unfolding pseudo_span start_of
pod_specified = refl

nothing_cached : lookup pod_key world.cache.entries ≡ none
unfolding lookup
nothing_cached = refl

-- A lifetime below a second makes the window panic.
no_window : expiring_window (record half_hour { span_ttl = 5 }) 7 ≡ none
unfolding expiring_window
no_window = refl

created_once_example :
    (w' : World ℕ ℕ ℕ) × (get_or_create_pseudo_span services half_hour world pod "object" 7 none
        none [] "object"
      ≡ some (w', span 0 true))
    × (w'.tracer ≡ 1)
    × ((later : World ℕ ℕ ℕ) (object' : Rich) (pseudo_type' : String) (event_time' : ℕ)
          (parent' follows' : Option ℕ) (extra' : Map String String)
        → later.cache ≡ w'.cache
        → later.clock later.draws ≤ 1 * second + (1800 * second + 0)
        → object'.key ≡ pod.key
        → expiring_window half_hour event_time' ≡ expiring_window half_hour 7
        → get_or_create_pseudo_span services half_hour later object' pseudo_type' event_time'
            parent' follows' extra' "object"
          ≡ some (record later { draws = later.draws + 1 }, span 0 false))
created_once_example =
    created_once services half_hour services-Settles world pod "object" 7 none none [] "object"
      pod_key pod_span 100 101 1 0 0 pod_keyed pod_specified nothing_cached refl refl (omega arith)
      refl refl refl

abbrev update : String → ℕ → Event ℕ
update title time = set_tag (new_event title time "audit") "code" 200

ends_after_its_duration : get_end_time (set_duration (update "create" 7) 5) ≡ 12
unfolding get_end_time set_duration set_tag new_event
ends_after_its_duration = refl

odd_attributes_panic : log (update "create" 7) "real" "x" ("k" ∷ []) ≡ none
unfolding log
odd_attributes_panic = refl

abbrev sprint : ℕ → String
sprint n = "n"

abbrev as_it_is : Rich → Event ℕ → Event ℕ
as_it_is object event = event

-- The span of the object is span 0, that of the first event span 1.
sent_below_one_span_example :
    (w' : World ℕ ℕ ℕ) × (send services half_hour sprint as_it_is world pod (update "create" 7)
      ≡ some (w', record { object = pod; event_time = 7; job_span = 0 } ∷ [], none))
    × (w'.tracer ≡ 2)
    × ((later : World ℕ ℕ ℕ) (object' : Rich) (event' : Event ℕ) (t' c' : ℕ)
        → later.cache ≡ w'.cache
        → later.clock later.draws ≤ 1 * second + (1800 * second + 0)
        → object'.key ≡ pod.key
        → expiring_window half_hour event'.time ≡ expiring_window half_hour 7
        → services.create_span later.tracer
            (event_span sprint half_hour object' (as_it_is object' event') 0)
          ≡ (t', some c')
        → send services half_hour sprint as_it_is later object' event'
          ≡ some (record later { tracer = t'; draws = later.draws + 1 }, [], none))
unfolding set_tag new_event
sent_below_one_span_example =
    sent_below_one_span services half_hour sprint as_it_is services-Settles world pod
      (update "create" 7) pod_key pod_span 100 101 1 2 0 1 0 pod_keyed pod_specified nothing_cached
      refl refl (omega arith) refl refl refl refl
