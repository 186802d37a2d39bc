-- ===== src/Aggregator/Event.antt =====
-- pkg/aggregator/aggregatorevent/event.go: events and the calls by which they are made.
use kelemetry.Base.{ℕ, ◌+◌, List, [], ◌∷◌, ◌++◌, Option, none, some, String, string_eq}
use kelemetry.Base.Map.{Map, insert}
use kelemetry.Aggregator.{Log, second}

-- `A` is the type of the values of tags, an interface in the code.
pub record Event {ℓ} (A : Type ℓ) : Type ℓ where
  pub title : String
  pub time : ℕ
  pub end_time : Option ℕ
  pub trace_source : String
  pub tags : Map String A
  pub logs : List Log

unfoldable pub end_or_dummy : ℕ → Option ℕ → ℕ
end_or_dummy time none = time + second
end_or_dummy time (some end) = end

-- `GetEndTime`
unfoldable pub get_end_time {ℓ} : {A : Type ℓ} → Event A → ℕ
unfolding end_or_dummy
get_end_time event = end_or_dummy event.time event.end_time

module _ {ℓ} {A : Type ℓ} where
  unfoldable pub new_event : String → ℕ → String → Event A
  new_event title when trace_source = record {
    title = title;
    time = when;
    end_time = none;
    trace_source = trace_source;
    tags = [];
    logs = [];
  }

  unfoldable pub set_end_time : Event A → ℕ → Event A
  set_end_time event when = record event { end_time = some when }

  unfoldable pub set_duration : Event A → ℕ → Event A
  unfolding set_end_time
  set_duration event duration = set_end_time event (event.time + duration)

  unfoldable pub set_tag : Event A → String → A → Event A
  set_tag event key value = record event { tags = insert key value event.tags }

-- Attributes come as keys and values in turn; an odd number of strings panics.
unfoldable pub pairs_of : List String → Option (List (String × String))
pairs_of [] = some []
pairs_of (key ∷ []) = none
pairs_of (key ∷ value ∷ attrs) = elim (pairs_of attrs) [
  | none ↦ none
  | some pairs ↦ some ((key, value) ∷ pairs)
]

module _ {ℓ} {A : Type ℓ} where
  unfoldable pub log : Event A → String → String → List String → Option (Event A)
  unfolding pairs_of
  log event type value attrs = elim (pairs_of attrs) [
    | none ↦ none
    | some pairs ↦
        let entry : Log = record { log_type = type; message = value; attrs = pairs } in
        some (record event { logs = event.logs ++ entry ∷ [] })
  ]
