-- ===== src/TtlOnce.antt =====
-- pkg/util/cache/ttl.go: a cache in which a later insertion does not overwrite an earlier one, and
-- whose entries go, oldest first, once their time has passed. Each method holds the cache's lock.
pub mod Entries
pub mod Cleanup
pub mod Loop
mod Tests
use kelemetry.Base.{
  ℕ, zero, suc, ◌+◌, Bool, true, false, ◌&&◌, List, [], ◌∷◌, Option, none, some, String, length,
  ltb, if◌then◌else◌, string_eq,
}
use kelemetry.Base.Map.{Map, lookup, insert, erase, has}
use kelemetry.Channel.Deque.{Deque, len, new_deque, push_back, pop_front, peek_front}

-- Times and durations are numbers of nanoseconds; they do not wrap.
pub record CleanupEntry : Type 0 where
  pub key : String
  pub expiry : ℕ

-- `zero[cleanupEntry]()`
abbrev pub zero_entry : CleanupEntry
zero_entry = record { key = ""; expiry = 0 }

-- The field `data` of the source is `values` here. The wakeup channel is in `Loop`.
pub record TtlOnce {ℓ} (V : Type ℓ) : Type ℓ where
  pub ttl : ℕ
  pub cleanup_queue : Deque CleanupEntry
  pub values : Map String V

module _ {ℓ} {V : Type ℓ} where
  unfoldable pub new_ttl_once : ℕ → TtlOnce V
  new_ttl_once ttl = record { ttl = ttl; cleanup_queue = new_deque zero_entry 16; values = [] }

  -- The cache with the pushed queue; `none` is a panic of the push.
  with_queue : TtlOnce V → Option (Deque CleanupEntry) → Option (TtlOnce V)
  with_queue c none = none
  with_queue c (some q) = some (record c { cleanup_queue = q })

  unfoldable pub add : TtlOnce V → String → V → ℕ → Option (TtlOnce V)
  unfolding with_queue
  add c key value now =
      let expiry = now + c.ttl in
      let queue = push_back zero_entry c.cleanup_queue (record { key = key; expiry = expiry }) in
      if has key c.values
      then some c
      else with_queue (record c { values = insert key value c.values }) queue

  unfoldable pub get : TtlOnce V → String → Option V
  get c key = lookup key c.values

  unfoldable pub size : TtlOnce V → ℕ
  size c = length c.values

  unfoldable pub peek_expiry : TtlOnce V → Option (ℕ × Bool)
  peek_expiry c = elim (peek_front zero_entry c.cleanup_queue) [
    | none ↦ none
    | some (entry, has_entry) ↦ some (if has_entry then (entry.expiry, true) else (0, false))
  ]

  -- The loop of `doCleanup`; `clock i` is what the clock shows in its round `i`. `none` is a panic,
  -- or the fuel at its end.
  unfoldable pub cleanup_loop : ℕ → (ℕ → ℕ) → ℕ → TtlOnce V → Option (TtlOnce V)
  cleanup_loop zero clock i c = none
  cleanup_loop (suc fuel) clock i c = elim (peek_front zero_entry c.cleanup_queue) [
    | none ↦ none
    | some (entry, has_entry) ↦ elim (has_entry && ltb entry.expiry (clock i)) [
      | false ↦ some c
      | true ↦ elim (pop_front zero_entry c.cleanup_queue) [
        | none ↦ none
        | some (q, popped, found) ↦
            cleanup_loop fuel clock (i + 1)
              (record c { cleanup_queue = q; values = erase entry.key c.values })
      ]
    ]
  ]

  -- One round for each entry, and one to find the loop's end.
  unfoldable pub do_cleanup : (ℕ → ℕ) → TtlOnce V → Option (TtlOnce V)
  do_cleanup clock c = cleanup_loop (len c.cleanup_queue + 1) clock 0 c
