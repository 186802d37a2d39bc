-- ===== src/Manager/Trim/Rounds.antt =====
-- One round of `TrimDisabled` in pkg/manager/interface.go: whether it changes anything, and what it
-- leaves.
use kelemetry.Base.{
  ◌≤◌, ◌<◌, ◌≡◌, refl, sym, ap, subst, ◌∙◌, inl, inr, Bool, true, false, List, [], ◌∷◌, none, some,
  arith, if◌then◌else◌, length, Eq, ◌==◌, nat_eq, Bool-cases,
}
use kelemetry.Base.Map.{
  Map, IsMap, lookup, erase, has, erase-IsMap, has-erase, lookup-erase, length-erase_lt,
}
use kelemetry.Manager.Trim.{Trimmable, Trimming, should_disable, disable, trim_round}

module _ {Ty : Type 0} ⦃e : Eq Ty⦄ where
  -- The keys are in the map and distinct.
  abbrev pub KeysIn : List (Ty × Trimmable Ty) → Map Ty (Trimmable Ty) → Type 0
  KeysIn [] m = Unit
  KeysIn ((ty, comp) ∷ comps) m = (has ty m ≡ true) × KeysIn comps m

  pub KeysIn-erase :
      (comps : List (Ty × Trimmable Ty)) (ty : Ty) (m : Map Ty (Trimmable Ty))
      → has ty comps ≡ false
      → KeysIn comps m
      → KeysIn comps (erase ty m)
  unfolding has
  KeysIn-erase [] ty m new h = tt
  KeysIn-erase ((j, comp) ∷ comps) ty m new h = (
    has-erase ty j m ∙ ground (arith, h.0, e.beq_iff j ty, e.beq_iff ty j),
    KeysIn-erase comps ty m (ground arith) h.1,
  )

  disable-KeysIn :
      (comps : List (Ty × Trimmable Ty)) (ty : Ty) (comp : Trimmable Ty) (t : Trimming Ty)
      → has ty comps ≡ false
      → KeysIn comps t.components
      → KeysIn comps (disable t ty comp).components
  unfolding disable
  disable-KeysIn comps ty comp t new h = KeysIn-erase comps ty t.components new h

  disable-components :
      (ty : Ty) (comp : Trimmable Ty) (t : Trimming Ty)
      → length (disable t ty comp).components ≡ length (erase ty t.components)
  unfolding disable
  disable-components ty comp t = refl

  pub trim_round-disabled :
      (ty : Ty) (comp : Trimmable Ty) (comps : List (Ty × Trimmable Ty)) (t : Trimming Ty)
      (has_change : Bool)
      → should_disable t ty comp ≡ true
      → trim_round ((ty, comp) ∷ comps) t has_change ≡ trim_round comps (disable t ty comp) true
  unfolding trim_round
  trim_round-disabled ty comp comps t has_change b = rw b refl

  pub trim_round-kept :
      (ty : Ty) (comp : Trimmable Ty) (comps : List (Ty × Trimmable Ty)) (t : Trimming Ty)
      (has_change : Bool)
      → should_disable t ty comp ≡ false
      → trim_round ((ty, comp) ∷ comps) t has_change ≡ trim_round comps t has_change
  unfolding trim_round
  trim_round-kept ty comp comps t has_change b = rw b refl

  trim_round-true :
      (comps : List (Ty × Trimmable Ty)) (t : Trimming Ty) → (trim_round comps t true).1 ≡ true
  trim_round-true [] t = unfold trim_round in refl
  trim_round-true ((ty, comp) ∷ comps) t = elim (Bool-cases (should_disable t ty comp)) [
    | inl b ↦
        ap (λ r. r.1) (trim_round-disabled ty comp comps t true b)
        ∙ trim_round-true comps (disable t ty comp)
    | inr b ↦ ap (λ r. r.1) (trim_round-kept ty comp comps t true b) ∙ trim_round-true comps t
  ]

  -- A round that changes anything leaves fewer components.
  abbrev pub Shrinks : Trimming Ty → Bool → Trimming Ty × Bool → Type 0
  Shrinks t has_change r =
      (length r.0.components ≤ length t.components)
      × (has_change ≡ false → r.1 ≡ true → length r.0.components < length t.components)

  pub trim_round-Shrinks :
      (comps : List (Ty × Trimmable Ty)) (t : Trimming Ty) (has_change : Bool)
      → KeysIn comps t.components
      → IsMap comps
      → Shrinks t has_change (trim_round comps t has_change)
  trim_round-Shrinks [] t has_change keys distinct =
      unfold trim_round in (omega arith, λ h k. absurd (cc))
  trim_round-Shrinks ((ty, comp) ∷ comps) t has_change keys distinct =
      elim (Bool-cases (should_disable t ty comp)) [
        | inl b ↦
            let less = length-erase_lt ty t.components keys.0 in
            let (more, _) =
              trim_round-Shrinks comps (disable t ty comp) true
                (disable-KeysIn comps ty comp t distinct.0 keys.1) distinct.1 in
            subst (Shrinks t has_change) (sym (trim_round-disabled ty comp comps t has_change b)) (
              omega (arith, less, more, disable-components ty comp t),
              λ h k. omega (arith, less, more, disable-components ty comp t),
            )
        | inr b ↦
            subst (Shrinks t has_change) (sym (trim_round-kept ty comp comps t has_change b))
              (trim_round-Shrinks comps t has_change keys.1 distinct.1)
      ]

  -- A round that changes nothing finds nothing to disable.
  abbrev pub Settled : List (Ty × Trimmable Ty) → Trimming Ty → Type 0
  Settled comps t =
      (ty : Ty) (comp : Trimmable Ty)
      → lookup ty comps ≡ some comp
      → should_disable t ty comp ≡ false

  pub trim_round-Settled :
      (comps : List (Ty × Trimmable Ty)) (t : Trimming Ty)
      → (trim_round comps t false).1 ≡ false
      → ((trim_round comps t false).0 ≡ t) × Settled comps t
  unfolding lookup
  trim_round-Settled [] t h = unfold trim_round in (refl, λ ty comp there. absurd (cc))
  trim_round-Settled ((j, own) ∷ comps) t h = elim (Bool-cases (should_disable t j own)) [
    | inl b ↦
        let changed =
          ap (λ r. r.1) (trim_round-disabled j own comps t false b)
          ∙ trim_round-true comps (disable t j own) in
        absurd (cc)
    | inr b ↦
        let kept = trim_round-kept j own comps t false b in
        let (same, settled) = trim_round-Settled comps t (sym (ap (λ r. r.1) kept) ∙ h) in
        (
          ap (λ r. r.0) kept ∙ same,
          λ ty comp there. elim (Bool-cases (j == ty)) [
            | inl u ↦
                let found =
                  subst (λ c. (if c then some own else lookup ty comps) ≡ some comp) u there in
                let is : own ≡ comp = cc in
                subst (λ k. should_disable t k comp ≡ false) ((e.beq_iff j ty).0 u)
                  (subst (λ c. should_disable t j c ≡ false) is b)
            | inr u ↦
                settled ty comp
                  (subst (λ c. (if c then some own else lookup ty comps) ≡ some comp) u there)
          ],
        )
  ]

  -- Trimming keeps or drops components, and leaves the map a map.
  abbrev pub Drops : Trimming Ty → Trimming Ty → Type 0
  Drops t t' =
      IsMap t'.components
      × ((ty : Ty) (comp : Trimmable Ty)
          → lookup ty t'.components ≡ some comp
          → lookup ty t.components ≡ some comp)

  disable-Drops :
      (ty : Ty) (comp : Trimmable Ty) (t : Trimming Ty)
      → IsMap t.components
      → Drops t (disable t ty comp)
  unfolding disable
  disable-Drops ty comp t m = (
    erase-IsMap ty t.components m,
    λ j own there. elim (Bool-cases (ty == j)) [
      | inl b ↦
          let gone : lookup j (erase ty t.components) ≡ none =
            lookup-erase ty j t.components ∙ rw b refl in
          absurd (cc)
      | inr b ↦ sym (lookup-erase ty j t.components ∙ rw b refl) ∙ there
    ],
  )

  pub trans-Drops : (t t' t'' : Trimming Ty) → Drops t t' → Drops t' t'' → Drops t t''
  trans-Drops t t' t'' d d' = (d'.0, λ ty comp there. d.1 ty comp (d'.1 ty comp there))

  pub trim_round-Drops :
      (comps : List (Ty × Trimmable Ty)) (t : Trimming Ty) (has_change : Bool)
      → IsMap t.components
      → Drops t (trim_round comps t has_change).0
  trim_round-Drops [] t has_change m = unfold trim_round in (m, λ ty comp there. there)
  trim_round-Drops ((ty, comp) ∷ comps) t has_change m =
      elim (Bool-cases (should_disable t ty comp)) [
        | inl b ↦
            let first = disable-Drops ty comp t m in
            subst (λ r. Drops t r.0) (sym (trim_round-disabled ty comp comps t has_change b))
              (trans-Drops t (disable t ty comp) (trim_round comps (disable t ty comp) true).0 first
                (trim_round-Drops comps (disable t ty comp) true first.0))
        | inr b ↦
            subst (λ r. Drops t r.0) (sym (trim_round-kept ty comp comps t has_change b))
              (trim_round-Drops comps t has_change m)
      ]

  KeysIn-cons :
      (comps : List (Ty × Trimmable Ty)) (j : Ty) (own : Trimmable Ty) (m : Map Ty (Trimmable Ty))
      → KeysIn comps m
      → KeysIn comps ((j, own) ∷ m)
  unfolding has
  KeysIn-cons [] j own m h = tt
  KeysIn-cons ((ty, comp) ∷ comps) j own m h =
      (rw h.0 (ground arith), KeysIn-cons comps j own m h.1)

  pub KeysIn-refl : (m : Map Ty (Trimmable Ty)) → KeysIn m m
  unfolding has
  KeysIn-refl [] = tt
  KeysIn-refl ((ty, comp) ∷ m) =
      (rw ((e.beq_iff ty ty).1 refl) refl, KeysIn-cons m ty comp m (KeysIn-refl m))
