-- ===== src/SpanCache/Tests.antt =====
-- Runs of the in-memory cache of pkg/aggregator/spancache/local/local.go on small inputs.
use kelemetry.Base.{
  ℕ, ◌+◌, ◌≤◌, ◌≡◌, refl, [], ◌∷◌, Option, none, some, get_elem?, nat_eq, string_eq,
}
use kelemetry.Base.Map.{erase, IsMap, lookup, has}
use kelemetry.SpanCache.{
  write_entry, already_reserved, invalid_key, uid_mismatch, ok, err, LocalEntry, Local,
  fetch_or_reserve, fetch, set_reserved, set_at, trim,
}
use kelemetry.SpanCache.Once.{World, Step, Reach, here, next, initialised_once}
use kelemetry.SpanCache.Protocol.{reserve_fill_read}

abbrev filled_entry : LocalEntry ℕ ℕ
filled_entry = record { value = some 7; creation = 0; expiry = 50; uid = 2 }

abbrev reserved_entry : LocalEntry ℕ ℕ
reserved_entry = record { value = none; creation = 0; expiry = 9; uid = 3 }

abbrev two_keys : Local ℕ ℕ
two_keys = record { entries = ("a", 0) ∷ ("b", 1) ∷ []; heap = filled_entry ∷ reserved_entry ∷ [] }

abbrev two_keys-IsMap : IsMap two_keys.entries
unfolding has
two_keys-IsMap = (refl, (refl, tt))

absent_c : lookup "c" two_keys.entries ≡ none
unfolding lookup
absent_c = refl

-- A wrong UID is refused, and so is a late fill.
refusals :
    (set_reserved two_keys "b" (some 1) 4 5 6 (some 8) ≡ some (two_keys, some uid_mismatch))
    × (set_reserved two_keys "b" (some 1) 3 5 10 (some 8) ≡ some (two_keys, some invalid_key))
unfolding set_reserved lookup set_at write_entry
refusals = (refl, refl)

reserve_fill_read_example :
    (reserved : Local ℕ ℕ) × (fetch_or_reserve two_keys "c" 10 5 (some 4)
      ≡ some (reserved, ok (record { value = none; last_uid = 4 })))
    × ((ttl' now' : ℕ) (random : Option ℕ)
        → now' ≤ 15
        → fetch_or_reserve reserved "c" ttl' now' random ≡ some (reserved, err already_reserved))
    × ((ttl' now' : ℕ) (new_uid : ℕ)
        → now' ≤ 15
        → (filled : Local ℕ ℕ) × (set_reserved reserved "c" (some 6) 4 ttl' now' (some new_uid)
            ≡ some (filled, none))
          × ((n : ℕ)
              → n ≤ now' + ttl'
              → (fetch filled "c" ≡ some (some (record { value = some 6; last_uid = new_uid })))
                × ((t : ℕ) (random : Option ℕ)
                    → fetch_or_reserve filled "c" t n random
                      ≡ some (filled, ok (record { value = some 6; last_uid = new_uid }))))
          × ((value : Option ℕ) (u : ℕ) (t n : ℕ) (random : Option ℕ)
              → set_reserved filled "c" value u t n random ≡ some (filled, some invalid_key)))
reserve_fill_read_example = reserve_fill_read two_keys "c" 6 10 5 4 absent_c

abbrev world : World ℕ ℕ
world = record { cache = two_keys; now = 5 }

abbrev late_world : World ℕ ℕ
late_world = record { cache = two_keys; now = 100 }

late_world-Reach : Reach world late_world
late_world-Reach = next here (Step.pass 95)

initialised_once_example :
    (get_elem? two_keys.heap 0 ≡ some filled_entry)
    × ((value : Option ℕ) (uid : ℕ) (ttl now : ℕ) (random : Option ℕ)
        → set_at two_keys 0 value uid ttl now random ≡ some (two_keys, some invalid_key))
initialised_once_example =
    initialised_once {s = world} {t = late_world} 0 filled_entry 7 late_world-Reach refl refl

trimmed : (trim two_keys 20).entries ≡ ("a", 0) ∷ []
unfolding trim erase
trimmed = refl
