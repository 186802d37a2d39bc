-- ===== src/SpanCache.antt =====
-- pkg/aggregator/spancache: the cache contract of interface.go and the in-memory implementation of
-- local/local.go. An entry is reached by its pointer after the lock of the map is gone, so entries
-- live in a heap, and each method has the phases that its locks make.
pub mod Etcd
pub mod Once
pub mod Protocol
pub mod Trim
mod Tests
use kelemetry.Base.{
  ℕ, ◌+◌, ◌≡◌, refl, ◌⊎◌, inl, inr, Bool, true, false, ◌||◌, List, [], ◌∷◌, ◌++◌, Option, none,
  some, String, length, get_elem?, set, ltb, if◌then◌else◌, Eq, ◌==◌, string_eq,
}
use kelemetry.Base.Map.{Map, lookup, insert, erase}

-- The errors of interface.go, and a failure of the source of randomness.
pub data CacheError : Type 0 where
  already_reserved invalid_key uid_mismatch no_entropy : CacheError

abbrev pub should_retry : CacheError → Bool
should_retry already_reserved = true
should_retry invalid_key = true
should_retry uid_mismatch = true
should_retry no_entropy = false

pub data Result {ℓ} (A : Type ℓ) : Type ℓ where
  ok : A → Result A
  err : CacheError → Result A

pub Result-cases {ℓ} :
    {A : Type ℓ} (r : Result A) → ((a : A) × (r ≡ ok a)) ⊎ ((x : CacheError) × (r ≡ err x))
Result-cases (ok a) = inl (a, refl)
Result-cases (err x) = inr (x, refl)

-- A nil value is `none`. The bytes of a value and of a UID are the types `V` and `U`; UIDs are only
-- compared, by `bytes.Equal`.
pub record Entry {ℓ κ} (V : Type ℓ) (U : Type κ) : Type (ℓ ⊔ κ) where
  pub value : Option V
  pub last_uid : U

pub record LocalEntry {ℓ κ} (V : Type ℓ) (U : Type κ) : Type (ℓ ⊔ κ) where
  pub value : Option V
  pub creation : ℕ
  pub expiry : ℕ
  pub uid : U

-- `entries` maps a key to a pointer, an index of `heap`.
pub record Local {ℓ κ} (V : Type ℓ) (U : Type κ) : Type (ℓ ⊔ κ) where
  pub entries : Map String ℕ
  pub heap : List (LocalEntry V U)

abbrev has_value {ℓ} : {V : Type ℓ} → Option V → Bool
has_value none = false
has_value (some v) = true

module _ {ℓ κ} {V : Type ℓ} {U : Type κ} ⦃e : Eq U⦄ where
  abbrev pub new_local : Local V U
  new_local = record { entries = []; heap = [] }

  abbrev pub expired : ℕ → LocalEntry V U → Bool
  expired now ent = ltb ent.expiry now

  unfoldable pub get_entry : Local V U → String → Option ℕ
  get_entry c key = lookup key c.entries

  -- `random` is the outcome of `randUid`. The pointer, and whether it is new.
  unfoldable pub insert_entry :
      Local V U → String → ℕ → ℕ → Option U → Local V U × Result (ℕ × Bool)
  insert_entry c key expiry now none = (c, err no_entropy)
  insert_entry c key expiry now (some uid) = (
    record {
      entries = insert key (length c.heap) c.entries;
      heap = c.heap ++ record { value = none; creation = now; expiry = expiry; uid = uid } ∷ [];
    },
    ok (length c.heap, true),
  )

  unfoldable pub get_or_insert_entry :
      Local V U → String → ℕ → ℕ → Option U → Local V U × Result (ℕ × Bool)
  unfolding insert_entry
  get_or_insert_entry c key expiry now random = elim (lookup key c.entries) [
    | none ↦ insert_entry c key expiry now random
    | some pointer ↦ (c, ok (pointer, false))
  ]

  unfoldable pub read_value : Option V → U → Bool → Result (Entry V U)
  read_value (some v) uid is_insert = ok (record { value = some v; last_uid = uid })
  read_value none uid is_insert =
      if is_insert then ok (record { value = none; last_uid = uid }) else err already_reserved

  -- `FetchOrReserve` once it holds the entry's lock.
  unfoldable pub read_reservation : LocalEntry V U → Bool → Result (Entry V U)
  unfolding read_value
  read_reservation ent is_insert = read_value ent.value ent.uid is_insert

  -- A pointer outside the heap does not occur; it reads as nil, which `none` stands for.
  unfoldable pub reserve_phases :
      Local V U × Result (ℕ × Bool) → Option (Local V U × Result (Entry V U))
  unfolding read_reservation
  reserve_phases (c, err x) = some (c, err x)
  reserve_phases (c, ok (pointer, is_insert)) = elim (get_elem? c.heap pointer) [
    | none ↦ none
    | some ent ↦ some (c, read_reservation ent is_insert)
  ]

  unfoldable pub fetch_or_reserve :
      Local V U → String → ℕ → ℕ → Option U → Option (Local V U × Result (Entry V U))
  unfolding get_or_insert_entry reserve_phases
  fetch_or_reserve c key ttl now random =
      reserve_phases (get_or_insert_entry c key (now + ttl) now random)

  -- The answer is a nil entry for a key that is not there.
  unfoldable pub fetch : Local V U → String → Option (Option (Entry V U))
  unfolding get_entry
  fetch c key = elim (get_entry c key) [
    | none ↦ some none
    | some pointer ↦ elim (get_elem? c.heap pointer) [
      | none ↦ none
      | some ent ↦ some (some (record { value = ent.value; last_uid = ent.uid }))
    ]
  ]

  unfoldable pub renewed : LocalEntry V U → Option V → ℕ → Option U → Result (LocalEntry V U)
  renewed ent value expiry none = err no_entropy
  renewed ent value expiry (some uid) =
      ok (record ent { expiry = expiry; value = value; uid = uid })

  -- `SetReserved` once it holds the entry's lock: what the entry becomes.
  unfoldable pub write_entry :
      LocalEntry V U → Option V → U → ℕ → ℕ → Option U → Result (LocalEntry V U)
  unfolding renewed
  write_entry ent value last_uid ttl now random =
      if has_value ent.value || expired now ent
      then err invalid_key
      else if ent.uid == last_uid
      then renewed ent value (now + ttl) random
      else err uid_mismatch

  unfoldable pub store_entry :
      Local V U → ℕ → Result (LocalEntry V U) → Local V U × Option CacheError
  store_entry c pointer (err x) = (c, some x)
  store_entry c pointer (ok ent) = (record c { heap = set c.heap pointer ent }, none)

  -- The rest of `SetReserved`, on the pointer that `getEntry` gave.
  unfoldable pub set_at :
      Local V U → ℕ → Option V → U → ℕ → ℕ → Option U → Option (Local V U × Option CacheError)
  unfolding store_entry
  set_at c pointer value last_uid ttl now random = elim (get_elem? c.heap pointer) [
    | none ↦ none
    | some ent ↦ some (store_entry c pointer (write_entry ent value last_uid ttl now random))
  ]

  unfoldable pub set_reserved :
      Local V U → String → Option V → U → ℕ → ℕ → Option U → Option (Local V U × Option CacheError)
  unfolding get_entry
  set_reserved c key value last_uid ttl now random = elim (get_entry c key) [
    | none ↦ some (c, some invalid_key)
    | some pointer ↦ set_at c pointer value last_uid ttl now random
  ]

  -- The entry behind a pointer is to be deleted.
  unfoldable pub stale : List (LocalEntry V U) → ℕ → ℕ → Bool
  stale heap now pointer = elim (get_elem? heap pointer) [
    | none ↦ false
    | some ent ↦ expired now ent
  ]

  unfoldable pub trim_entries :
      List (LocalEntry V U) → ℕ → Map String ℕ → Map String ℕ → Map String ℕ
  unfolding stale
  trim_entries heap now [] entries = entries
  trim_entries heap now ((key, pointer) ∷ visited) entries =
      trim_entries heap now visited (if stale heap now pointer then erase key entries else entries)

  unfoldable pub trim : Local V U → ℕ → Local V U
  unfolding trim_entries
  trim c now = record c { entries = trim_entries c.heap now c.entries c.entries }
