-- ===== src/TtlOnce/Entries.antt =====
-- The queue and the map of pkg/util/cache/ttl.go name the same keys, each once.
use kelemetry.Base.{
  ℕ, ◌+◌, ◌≡◌, refl, sym, ap, subst, ◌∙◌, inl, inr, Bool, true, false, ◌||◌, List, [], ◌∷◌, ◌++◌,
  Option, none, some, arith, String, if◌then◌else◌, string_eq, ◌==◌, Bool-cases,
}
use kelemetry.Base.Map.{lookup, insert, has, has-insert, lookup-insert, has-lookup}
use kelemetry.Channel.Deque.Fifo.{IsValid, to_list, new_deque-IsValid, to_list-new_deque}
use kelemetry.Channel.Deque.Push.{push_back_lem}
use kelemetry.TtlOnce.{CleanupEntry, zero_entry, TtlOnce, new_ttl_once, add, get}

abbrev pub entries {ℓ} : {V : Type ℓ} → TtlOnce V → List CleanupEntry
entries c = to_list c.cleanup_queue

unfoldable pub mem_key : String → List CleanupEntry → Bool
mem_key k [] = false
mem_key k (e ∷ es) = e.key == k || mem_key k es

-- No key stands twice in the queue.
abbrev pub Distinct : List CleanupEntry → Type 0
Distinct [] = Unit
Distinct (e ∷ es) = (mem_key e.key es ≡ false) × Distinct es

pub record Inv {ℓ} {V : Type ℓ} (c : TtlOnce V) : Type ℓ where
  pub valid : IsValid c.cleanup_queue
  pub distinct : Distinct (entries c)
  pub covers : (k : String) → has k c.values ≡ mem_key k (entries c)

pub mem_key-append :
    (k : String) (es : List CleanupEntry) (e : CleanupEntry)
    → mem_key k (es ++ e ∷ []) ≡ (mem_key k es || e.key == k)
unfolding mem_key
mem_key-append k [] e = ground arith
mem_key-append k (x ∷ es) e = ground (arith, mem_key-append k es e)

pub Distinct-append :
    (es : List CleanupEntry) (e : CleanupEntry)
    → Distinct es
    → mem_key e.key es ≡ false
    → Distinct (es ++ e ∷ [])
unfolding mem_key
Distinct-append [] e d h = (refl, tt)
Distinct-append (x ∷ es) e d h = (
  ground (
    arith,
    mem_key-append x.key es e,
    string_eq.beq_iff e.key x.key,
    string_eq.beq_iff x.key e.key,
  ),
  Distinct-append es e d.1 (ground arith),
)

-- The earlier of two values.
abbrev pub first_of {ℓ} : {V : Type ℓ} → Option V → Option V → Option V
first_of none w = w
first_of (some v) w = some v

module _ {ℓ} {V : Type ℓ} where
  pub new_ttl_once-Inv : (ttl : ℕ) → Inv (new_ttl_once {V = V} ttl)
  unfolding new_ttl_once has mem_key
  new_ttl_once-Inv ttl =
      let nothing = to_list-new_deque zero_entry 16 in
      record {
        valid = new_deque-IsValid zero_entry 16 (omega arith);
        distinct = subst Distinct (sym nothing) tt;
        covers = λ k. sym (ap (mem_key k) nothing);
      }

  -- On a key that is there nothing changes. On a new key the value is stored, and the key goes to
  -- the end of the queue with its expiry.
  pub add_present :
      (c : TtlOnce V) (k : String) (v : V) (now : ℕ)
      → has k c.values ≡ true
      → add c k v now ≡ some c
  unfolding add
  add_present c k v now h = rw h refl

  pub add_absent :
      (c : TtlOnce V) (k : String) (v : V) (now : ℕ)
      → Inv c
      → has k c.values ≡ false
      → (c' : TtlOnce V) × (add c k v now ≡ some c')
        × Inv c'
        × (entries c' ≡ entries c ++ record { key = k; expiry = now + c.ttl } ∷ [])
        × (c'.values ≡ insert k v c.values)
        × (c'.ttl ≡ c.ttl)
  unfolding add
  add_absent c k v now i h =
      let e : CleanupEntry = record { key = k; expiry = now + c.ttl } in
      let (q, ran, valid, holds, _) = push_back_lem zero_entry c.cleanup_queue e i.valid in
      let fresh : mem_key k (entries c) ≡ false = sym (i.covers k) ∙ h in
      (
        record c { cleanup_queue = q; values = insert k v c.values },
        rw (h, ran) refl,
        record {
          valid = valid;
          distinct = subst Distinct (sym holds) (Distinct-append (entries c) e i.distinct fresh);
          covers = λ j.
              has-insert k j v c.values
              ∙ ground (arith, i.covers j, mem_key-append j (entries c) e)
              ∙ sym (ap (mem_key j) holds);
        },
        holds,
        refl,
        refl,
      )

  -- The first insertion wins: on a consistent cache, an insertion never fails, keeps the cache consistent, changes no other
  -- key, and changes its own key only if that had no value.
  pub get-add :
      (c : TtlOnce V) (k : String) (v : V) (now : ℕ)
      → Inv c
      → (c' : TtlOnce V) × (add c k v now ≡ some c')
        × Inv c'
        × ((j : String) → get c' j ≡ first_of (get c j) (if k == j then some v else none))
  unfolding get
  get-add c k v now i = elim (Bool-cases (has k c.values)) [
    | inl there ↦ (
      c,
      add_present c k v now there,
      i,
      λ j. ground (arith, has-lookup k c.values, has-lookup j c.values, string_eq.beq_iff k j),
    )
    | inr absent ↦
        let (c', ran, inv, _, stored, _) = add_absent c k v now i absent in
        (
          c',
          ran,
          inv,
          λ j.
              ap (lookup j) stored
              ∙ lookup-insert k j v c.values
              ∙ ground (arith, has-lookup k c.values, has-lookup j c.values, string_eq.beq_iff k j),
        )
  ]
