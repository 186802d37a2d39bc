-- ===== src/SpanCache/Once.antt =====
-- The methods of pkg/aggregator/spancache/local/local.go from several goroutines: their phases
-- interleave, and a pointer may be kept across any number of other phases.
use kelemetry.Base.{
  ℕ, ◌+◌, ◌≡◌, refl, ◌∙◌, ◌≢◌, ◌⊎◌, inl, inr, false, Option, none, some, String, get_elem?, set, Eq,
  ◌==◌, nat_eq, string_eq, Bool-cases, Option-cases, get_elem?-append, get_elem?-set_other,
}
use kelemetry.Base.Map.{lookup}
use kelemetry.SpanCache.{
  CacheError, invalid_key, ok, err, Result-cases, insert_entry, store_entry, LocalEntry, Local,
  get_or_insert_entry, write_entry, set_at, trim,
}

pub record World {ℓ κ} (V : Type ℓ) (U : Type κ) : Type (ℓ ⊔ κ) where
  pub cache : Local V U
  pub now : ℕ

module _ {ℓ κ} {V : Type ℓ} {U : Type κ} ⦃e : Eq U⦄ where
  -- The phases that write. The expiry is computed before the lock is taken, so it is arbitrary.
  pub data Step (s : World V U) : World V U → Type (ℓ ⊔ κ) where
    pass : (d : ℕ) → Step s (record s { now = s.now + d })
    look_up :
        (key : String) (expiry : ℕ) (random : Option U)
        → Step s (record s { cache = (get_or_insert_entry s.cache key expiry s.now random).0 })
    write :
        (pointer : ℕ) (value : Option V) (uid : U) (ttl : ℕ) (random : Option U) (c : Local V U)
        (answer : Option CacheError)
        → set_at s.cache pointer value uid ttl s.now random ≡ some (c, answer)
        → Step s (record s { cache = c })
    sweep : Step s (record s { cache = trim s.cache s.now })

  pub data Reach (s : World V U) : World V U → Type (ℓ ⊔ κ) where
    here : Reach s s
    next : {t u : World V U} → Reach s t → Step t u → Reach s u

  -- A write to an entry that has a value is refused.
  write_entry-initialised :
      (ent : LocalEntry V U) (v : V) (value : Option V) (uid : U) (ttl now : ℕ) (random : Option U)
      → ent.value ≡ some v
      → write_entry ent value uid ttl now random ≡ err invalid_key
  unfolding write_entry
  write_entry-initialised ent v value uid ttl now random h = rw h refl

  pub set_at-initialised :
      (c : Local V U) (r : ℕ) (ent : LocalEntry V U) (v : V) (value : Option V) (uid : U)
      (ttl now : ℕ) (random : Option U)
      → get_elem? c.heap r ≡ some ent
      → ent.value ≡ some v
      → set_at c r value uid ttl now random ≡ some (c, some invalid_key)
  unfolding set_at store_entry
  set_at-initialised c r ent v value uid ttl now random at h =
      rw (at, set_at)
        (rw (write_entry-initialised ent v value uid ttl now random h, store_entry) refl)

  -- A write is refused, or it finds an entry and puts what `write_entry` gives in its place.
  pub set_at-cases :
      (c : Local V U) (p : ℕ) (value : Option V) (uid : U) (ttl now : ℕ) (random : Option U)
      (c' : Local V U) (answer : Option CacheError)
      → set_at c p value uid ttl now random ≡ some (c', answer)
      → (c' ≡ c)
        ⊎ ((old : LocalEntry V U) × (new : LocalEntry V U) × (get_elem? c.heap p ≡ some old)
            × (write_entry old value uid ttl now random ≡ ok new)
            × (c' ≡ record c { heap = set c.heap p new }))
  unfolding set_at store_entry
  set_at-cases c p value uid ttl now random c' answer ran =
      elim (Option-cases (get_elem? c.heap p)) [
        | inl out ↦ let ran' = rw (out, set_at) at ran in absurd (cc)
        | inr (old, found) ↦ elim (Result-cases (write_entry old value uid ttl now random)) [
          | inl (new, fresh) ↦
              let ran' = rw (fresh, store_entry) at (rw (found, set_at) at ran) in
              inr (old, new, found, fresh, cc)
          | inr (x, refused) ↦
              let ran' = rw (refused, store_entry) at (rw (found, set_at) at ran) in inl (cc)
        ]
      ]

  -- A write leaves every entry behind another pointer.
  pub set_at-others :
      (c c' : Local V U) (p r : ℕ) (value : Option V) (uid : U) (ttl now : ℕ) (random : Option U)
      (answer : Option CacheError)
      → p ≢ r
      → set_at c p value uid ttl now random ≡ some (c', answer)
      → get_elem? c'.heap r ≡ get_elem? c.heap r
  set_at-others c c' p r value uid ttl now random answer ne ran =
      elim (set_at-cases c p value uid ttl now random c' answer ran) [
        | inl same ↦ rw same refl
        | inr (old, new, found, fresh, becomes) ↦ rw becomes (get_elem?-set_other c.heap p r new ne)
      ]

  insert_entry-keeps :
      (c : Local V U) (key : String) (expiry now : ℕ) (random : Option U) (r : ℕ)
      (ent : LocalEntry V U)
      → get_elem? c.heap r ≡ some ent
      → get_elem? (insert_entry c key expiry now random).0.heap r ≡ some ent
  unfolding insert_entry
  insert_entry-keeps c key expiry now none r ent at = at
  insert_entry-keeps c key expiry now (some uid) r ent at = get_elem?-append c.heap _ r ent at

  pub get_or_insert_absent :
      (c : Local V U) (key : String) (expiry now : ℕ) (random : Option U)
      → lookup key c.entries ≡ none
      → get_or_insert_entry c key expiry now random ≡ insert_entry c key expiry now random
  unfolding get_or_insert_entry
  get_or_insert_absent c key expiry now random h = rw (h, get_or_insert_entry) refl

  pub get_or_insert_present :
      (c : Local V U) (key : String) (expiry now : ℕ) (random : Option U) (p : ℕ)
      → lookup key c.entries ≡ some p
      → get_or_insert_entry c key expiry now random ≡ (c, ok (p, false))
  unfolding get_or_insert_entry
  get_or_insert_present c key expiry now random p h = rw (h, get_or_insert_entry) refl

  Step-keeps :
      {s t : World V U} (r : ℕ) (ent : LocalEntry V U) (v : V)
      → Step s t
      → get_elem? s.cache.heap r ≡ some ent
      → ent.value ≡ some v
      → get_elem? t.cache.heap r ≡ some ent
  unfolding trim
  Step-keeps r ent v (pass d) at h = at
  Step-keeps {s} r ent v (look_up key expiry random) at h =
      elim (Option-cases (lookup key s.cache.entries)) [
        | inl absent ↦
            rw (get_or_insert_absent s.cache key expiry s.now random absent)
              (insert_entry-keeps s.cache key expiry s.now random r ent at)
        | inr (p, there) ↦ rw (get_or_insert_present s.cache key expiry s.now random p there) at
      ]
  Step-keeps {s} r ent v (write p value uid ttl random c answer ran) at h =
      elim (Bool-cases (p == r)) [
        | inl t ↦
            let p_r : p ≡ r = (nat_eq.beq_iff p r).0 t in
            let refused = set_at-initialised s.cache r ent v value uid ttl s.now random at h in
            let ran' = rw p_r at ran in let same : c ≡ s.cache = cc in rw same at
        | inr t ↦
            set_at-others s.cache c p r value uid ttl s.now random answer
              (λ q. let u = (nat_eq.beq_iff p r).1 q in cc) ran
            ∙ at
      ]
  Step-keeps r ent v sweep at h = at

  Reach-keeps :
      {s t : World V U} (r : ℕ) (ent : LocalEntry V U) (v : V)
      → Reach s t
      → get_elem? s.cache.heap r ≡ some ent
      → ent.value ≡ some v
      → get_elem? t.cache.heap r ≡ some ent
  Reach-keeps r ent v here at h = at
  Reach-keeps r ent v (next q st) at h = Step-keeps r ent v st (Reach-keeps r ent v q at h) h

  -- A reservation is filled at most once. An entry that has a value keeps it, with its UID and its
  -- expiry, whatever the other goroutines do, and every later write to it is refused and changes
  -- nothing.
  pub initialised_once :
      {s t : World V U} (r : ℕ) (ent : LocalEntry V U) (v : V)
      → Reach s t
      → get_elem? s.cache.heap r ≡ some ent
      → ent.value ≡ some v
      → (get_elem? t.cache.heap r ≡ some ent)
        × ((value : Option V) (uid : U) (ttl now : ℕ) (random : Option U)
            → set_at t.cache r value uid ttl now random ≡ some (t.cache, some invalid_key))
  initialised_once {s} {t} r ent v q at h =
      let still = Reach-keeps r ent v q at h in
      (
        still,
        λ value uid ttl now random.
            set_at-initialised t.cache r ent v value uid ttl now random still h,
      )
