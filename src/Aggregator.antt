-- ===== src/Aggregator.antt =====
-- pkg/aggregator/aggregator.go: one span for each object, time window and deduplication id, shared
-- by all callers through the span cache. The metrics and the log lines are left out.
pub mod Window
pub mod Creation
pub mod Idempotence
pub mod Ensure
pub mod Event
pub mod Send
mod Tests
use Prim.Native.String.{◌++◌ as ◌<>◌}
use kelemetry.Base.{
  ℕ, ◌+◌, ◌-◌, ◌*◌, ◌/◌, ◌%◌, ◌^◌, ◌≡◌, refl, ◌⊎◌, inl, inr, Bool, true, false, List, [], ◌∷◌,
  Option, none, some, String, if◌then◌else◌, Eq, ◌==◌, nat_eq, string_eq,
}
use kelemetry.Base.Map.{Map, lookup, insert}
use kelemetry.SpanCache.{CacheError, Result, ok, err, Entry, Local, fetch_or_reserve, set_reserved}

-- pkg/util/object/key.go
pub record Key : Type 0 where
  pub cluster : String
  pub group : String
  pub resource : String
  pub namespace : String
  pub name : String

-- The fields of `utilobject.Rich` that a span takes.
pub record Rich : Type 0 where
  pub key : Key
  pub version : String

-- `format_int` prints a whole number as `%d` does.
pub record Options : Type 0 where
  pub reserve_ttl : ℕ
  pub span_ttl : ℕ
  pub span_extra_ttl : ℕ
  pub global_pseudo_tags : Map String String

-- pkg/aggregator/tracer/interface.go
pub record Log : Type 0 where
  pub log_type : String
  pub message : String
  pub attrs : List (String × String)

pub record Span {ℓ} (C : Type ℓ) : Type ℓ where
  pub span_type : String
  pub span_name : String
  pub start_time : ℕ
  pub finish_time : ℕ
  pub parent : Option C
  pub follows : Option C
  pub tags : Map String String
  pub logs : List Log

abbrev pub second : ℕ
second = 10 ^ 9

-- `Time.Unix`, of a time in nanoseconds.
abbrev pub unix : ℕ → ℕ
unix t = t / second

-- `int64(options.spanTtl.Seconds())`, which is 0 for a lifetime below a second.
abbrev pub ttl_seconds : Options → ℕ
ttl_seconds options = options.span_ttl / second

unfoldable pub key_string : Key → String
key_string key =
    key.cluster
    <> ("/"
        <> (key.group <> ("/" <> (key.resource <> ("/" <> (key.namespace <> ("/" <> key.name)))))))

unfoldable pub span_cache_key : Key → String → String
span_cache_key object window = key_string object <> ("/" <> window)

-- Division in Go, which panics at 0, and its remainder.
unfoldable pub go_divide : ℕ → ℕ → Option ℕ
go_divide m n = if n == 0 then none else some (m / n)

unfoldable pub go_remainder : ℕ → ℕ → Option ℕ
go_remainder m n = if n == 0 then none else some (m % n)

unfoldable pub expiring_window : Options → ℕ → Option ℕ
unfolding go_divide
expiring_window options timestamp = go_divide (unix timestamp) (ttl_seconds options)

unfoldable pub key_in_window : (ℕ → String) → Key → String → Option ℕ → Option String
unfolding span_cache_key
key_in_window format_int object sub_object none = none
key_in_window format_int object sub_object (some window) =
    some (span_cache_key object ("field=" <> (sub_object <> (",window=" <> format_int window))))

unfoldable pub expiring_span_cache_key : (ℕ → String) → Options → Key → ℕ → String → Option String
unfolding key_in_window
expiring_span_cache_key format_int options object timestamp sub_object =
    key_in_window format_int object sub_object (expiring_window options timestamp)

-- pkg/util/zconstants/link.go, `KeyToSpanTags`
unfoldable pub key_to_span_tags : Key → Map String String
key_to_span_tags key =
    ("cluster", key.cluster)
    ∷ ("group", key.group)
    ∷ ("resource", key.resource)
    ∷ ("namespace", key.namespace)
    ∷ ("name", key.name)
    ∷ []

unfoldable pub versioned_key_to_span_tags : Rich → Map String String
unfolding key_to_span_tags
versioned_key_to_span_tags object = insert "version" object.version (key_to_span_tags object.key)

-- A loop that stores every entry of a map of tags.
unfoldable pub put_all : Map String String → Map String String → Map String String
put_all [] tags = tags
put_all ((k, v) ∷ more) tags = put_all more (insert k v tags)

unfoldable pub start_of : Options → ℕ → Option ℕ
unfolding go_remainder
start_of options event_time = elim (go_remainder (unix event_time) (ttl_seconds options)) [
  | none ↦ none
  | some remainder_seconds ↦ some (event_time - remainder_seconds * second)
]

module _ {ℓ} {C : Type ℓ} where
  -- `format_time` is `time.Time.Format`; `decorate` runs the object span decorators.
  unfoldable pub pseudo_span_from :
      (ℕ → String)
      → (Rich → String → Map String String → Map String String)
      → Options
      → Rich
      → String
      → ℕ
      → Option C
      → Option C
      → Map String String
      → Span C
  unfolding versioned_key_to_span_tags put_all
  pseudo_span_from format_time decorate options object pseudo_type start_time parent follows extra =
      let base = insert "timeStamp" (format_time start_time) (
        insert "zzz-pseudoType" pseudo_type
          (insert "zzz-traceSource" "object" (versioned_key_to_span_tags object))) in
      let tags = put_all extra (put_all options.global_pseudo_tags base) in
      record {
        span_type = pseudo_type;
        span_name = object.key.resource <> ("/" <> object.key.name);
        start_time = start_time;
        finish_time = start_time + options.span_ttl;
        parent = parent;
        follows = follows;
        tags = if pseudo_type == "object" then decorate object pseudo_type tags else tags;
        logs = [];
      }

  -- `CreatePseudoSpan`, up to the call of the tracer.
  unfoldable pub pseudo_span :
      (ℕ → String)
      → (Rich → String → Map String String → Map String String)
      → Options
      → Rich
      → String
      → ℕ
      → Option C
      → Option C
      → Map String String
      → Option (Span C)
  unfolding pseudo_span_from start_of
  pseudo_span format_time decorate options object pseudo_type event_time parent follows extra =
      elim (start_of options event_time) [
        | none ↦ none
        | some start_time ↦ some (
            pseudo_span_from format_time decorate options object pseudo_type start_time parent
              follows extra)
      ]
