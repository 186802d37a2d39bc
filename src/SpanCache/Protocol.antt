-- ===== src/SpanCache/Protocol.antt =====
-- The contract of pkg/aggregator/spancache/interface.go, on the methods of local/local.go: a missing
-- key is reserved once, its owner fills it, and everyone then reads what was filled in.
use kelemetry.Base.{
  ℕ, ◌+◌, ◌≤◌, ◌≡◌, refl, ap, ◌∙◌, Bool, true, false, Option, none, some, String, length, get_elem?,
  set, Eq, nat_eq, string_eq, get_elem?-append_end, get_elem?-lt, get_elem?-set_self, ltb-false,
}
use kelemetry.Base.Map.{lookup, lookup-insert}
use kelemetry.SpanCache.{
  already_reserved, invalid_key, ok, err, LocalEntry, Local, insert_entry, fetch_or_reserve, fetch,
  set_reserved, set_at, write_entry, get_entry, store_entry, renewed, read_value, read_reservation,
  reserve_phases,
}
use kelemetry.SpanCache.Once.{get_or_insert_absent, get_or_insert_present, set_at-initialised}

module _ {ℓ κ} {V : Type ℓ} {U : Type κ} ⦃e : Eq U⦄ where
  -- What a key has: nothing, or an entry.
  abbrev pub Holds : Local V U → String → LocalEntry V U → Type (ℓ ⊔ κ)
  Holds c key ent = (p : ℕ) × (lookup key c.entries ≡ some p) × (get_elem? c.heap p ≡ some ent)

  pub reserve_phases-found :
      (c : Local V U) (p : ℕ) (is_insert : Bool) (ent : LocalEntry V U)
      → get_elem? c.heap p ≡ some ent
      → reserve_phases (c, ok (p, is_insert)) ≡ some (c, read_reservation ent is_insert)
  unfolding reserve_phases
  reserve_phases-found c p is_insert ent h = rw (h, reserve_phases) refl

  -- An initialised key answers with its value, and a reserved one with the error.
  pub fetch_or_reserve-initialised :
      (c : Local V U) (key : String) (ent : LocalEntry V U) (v : V) (ttl now : ℕ)
      (random : Option U)
      → Holds c key ent
      → ent.value ≡ some v
      → fetch_or_reserve c key ttl now random
        ≡ some (c, ok (record { value = some v; last_uid = ent.uid }))
  unfolding fetch_or_reserve read_reservation read_value
  fetch_or_reserve-initialised c key ent v ttl now random (p, at, found) h =
      ap reserve_phases (get_or_insert_present c key (now + ttl) now random p at)
      ∙ reserve_phases-found c p false ent found
      ∙ rw (h, read_value) refl

  pub fetch_or_reserve-reserved :
      (c : Local V U) (key : String) (ent : LocalEntry V U) (ttl now : ℕ) (random : Option U)
      → Holds c key ent
      → ent.value ≡ none
      → fetch_or_reserve c key ttl now random ≡ some (c, err already_reserved)
  unfolding fetch_or_reserve read_reservation read_value
  fetch_or_reserve-reserved c key ent ttl now random (p, at, found) h =
      ap reserve_phases (get_or_insert_present c key (now + ttl) now random p at)
      ∙ reserve_phases-found c p false ent found
      ∙ rw (h, read_value) refl

  -- A missing key is reserved.
  pub fetch_or_reserve-missing :
      (c : Local V U) (key : String) (ttl now : ℕ) (uid : U)
      → lookup key c.entries ≡ none
      → (c' : Local V U) × (fetch_or_reserve c key ttl now (some uid)
          ≡ some (c', ok (record { value = none; last_uid = uid })))
        × Holds c' key (record { value = none; creation = now; expiry = now + ttl; uid = uid })
  unfolding fetch_or_reserve insert_entry read_reservation read_value
  fetch_or_reserve-missing c key ttl now uid h =
      let c' = (insert_entry c key (now + ttl) now (some uid)).0 in
      (
        c',
        ap reserve_phases (get_or_insert_absent c key (now + ttl) now (some uid) h)
            ∙ reserve_phases-found c' (length c.heap) true _ (get_elem?-append_end c.heap _),
        (
          length c.heap,
          lookup-insert key key (length c.heap) c.entries
              ∙ rw ((string_eq.beq_iff key key).1 refl) refl,
          get_elem?-append_end c.heap _,
        ),
      )

  pub fetch-Holds :
      (c : Local V U) (key : String) (ent : LocalEntry V U)
      → Holds c key ent
      → fetch c key ≡ some (some (record { value = ent.value; last_uid = ent.uid }))
  unfolding fetch get_entry
  fetch-Holds c key ent (p, at, found) = rw (at, fetch) (rw (found, fetch) refl)

  -- The owner of a reservation that has not expired fills it in.
  pub set_reserved-owner :
      (c : Local V U) (key : String) (ent : LocalEntry V U) (value : Option V) (ttl now : ℕ)
      (new_uid : U)
      → Holds c key ent
      → ent.value ≡ none
      → now ≤ ent.expiry
      → (c' : Local V U) × (set_reserved c key value ent.uid ttl now (some new_uid)
          ≡ some (c', none))
        × Holds c' key (record ent { value = value; expiry = now + ttl; uid = new_uid })
  unfolding set_reserved get_entry set_at store_entry write_entry renewed
  set_reserved-owner c key ent value ttl now new_uid (p, at, found) h live =
      let new : LocalEntry V U = record ent { value = value; expiry = now + ttl; uid = new_uid } in
      let fresh : write_entry ent value ent.uid ttl now (some new_uid) ≡ ok new =
        rw (h, ltb-false ent.expiry now live, (e.beq_iff ent.uid ent.uid).1 refl) refl in
      (
        record c { heap = set c.heap p new },
        rw (at, set_reserved) (rw (found, set_at) (rw (fresh, store_entry) refl)),
        (p, at, get_elem?-set_self c.heap p new (get_elem?-lt c.heap p ent found)),
      )

  -- One reservation of a missing key. Until it expires, every other caller is told that it is
  -- reserved, and its owner can fill it in. Until the filled entry expires, every caller gets the
  -- value and none the reservation. A second fill is always refused.
  pub reserve_fill_read :
      (c : Local V U) (key : String) (v : V) (ttl now : ℕ) (uid : U)
      → lookup key c.entries ≡ none
      → (reserved : Local V U) × (fetch_or_reserve c key ttl now (some uid)
          ≡ some (reserved, ok (record { value = none; last_uid = uid })))
        × ((ttl' now' : ℕ) (random : Option U)
            → now' ≤ now + ttl
            → fetch_or_reserve reserved key ttl' now' random
              ≡ some (reserved, err already_reserved))
        × ((ttl' now' : ℕ) (new_uid : U)
            → now' ≤ now + ttl
            → (filled : Local V U) × (set_reserved reserved key
                  (some v)
                  uid
                  ttl'
                  now'
                  (some new_uid)
                ≡ some (filled, none))
              × ((n : ℕ)
                  → n ≤ now' + ttl'
                  → (fetch filled key ≡ some (some (record { value = some v; last_uid = new_uid })))
                    × ((t : ℕ) (random : Option U)
                        → fetch_or_reserve filled key t n random
                          ≡ some (filled, ok (record { value = some v; last_uid = new_uid }))))
              × ((value : Option V) (u : U) (t n : ℕ) (random : Option U)
                  → set_reserved filled key value u t n random ≡ some (filled, some invalid_key)))
  unfolding set_reserved get_entry
  reserve_fill_read c key v ttl now uid absent =
      let (reserved, ran, held) = fetch_or_reserve-missing c key ttl now uid absent in
      (
        reserved,
        ran,
        λ ttl' now' random live.
            fetch_or_reserve-reserved reserved key _ ttl' now' random held refl,
        λ ttl' now' new_uid live.
            let (filled, wrote, holds) =
              set_reserved-owner reserved key _ (some v) ttl' now' new_uid held refl live in
            (
              filled,
              wrote,
              (λ n fresh. (
                fetch-Holds filled key _ holds,
                λ t random. fetch_or_reserve-initialised filled key _ v t n random holds refl,
              )),
              λ value u t n random.
                  rw (holds.1, set_reserved)
                    (set_at-initialised filled holds.0 _ v value u t n random holds.2 refl),
            ),
      )
