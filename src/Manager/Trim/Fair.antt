-- ===== src/Manager/Trim/Fair.antt =====
-- What `TrimDisabled` of pkg/manager/interface.go keeps, described by the components that are left.
use kelemetry.Base.{
  ℕ, ◌+◌, ◌-◌, ◌^◌, ◌≤◌, ◌<◌, ◌≡◌, refl, sym, ap, subst, ◌∙◌, ◌⊎◌, inl, inr, Bool, true, false, not,
  ◌&&◌, List, [], ◌∷◌, none, some, arith, if◌then◌else◌, length, ltb, Eq, ◌==◌, nat_eq, Bool-cases,
  Option-cases,
}
use kelemetry.Base.Map.{
  Map, IsMap, lookup, erase, has, erase-IsMap, has-erase, lookup-erase, lookup-insert, has-lookup,
}
use kelemetry.SpanTree.{IdSet}
use kelemetry.Manager.Trim.{
  Trimmable, Trimming, or_zero, decrement, has_no_dependents, should_disable_impl, should_disable,
  release_all, disable, trim_round,
}
use kelemetry.Manager.Trim.Rounds.{trim_round-disabled, trim_round-kept}

decrement_positive : (n : ℕ) → 1 ≤ n → n < 2 ^ 64 → decrement n ≡ n - 1
unfolding decrement
decrement_positive n h small = omega arith

ltb_zero_le : (m n : ℕ) → m ≤ n → ltb 0 n ≡ false → ltb 0 m ≡ false
ltb_zero_le m n h k = ground arith

module _ {Ty : Type 0} ⦃e : Eq Ty⦄ where
  -- How many of the components depend on one.
  unfoldable pub count_on : Ty → Map Ty (Trimmable Ty) → ℕ
  count_on ty [] = 0
  count_on ty ((k, comp) ∷ comps) = (if has ty comp.dependencies then 1 else 0) + count_on ty comps

  -- An implementation of a mux is wanted if its mux is there, has chosen it, and is enabled by flag
  -- or, without one, by a component that depends on it; a component with a flag, of no list, if the
  -- flag says so; and any other if a component depends on it.
  abbrev pub wanted : Map Ty (Trimmable Ty) → Ty → Trimmable Ty → Bool
  wanted comps ty comp = elim comp.mux_impl [
    | some base ↦
        if has base.parent comps && base.is_chosen_mux_impl
        then elim base.parent_enable_flag [
          | some flag ↦ flag
          | none ↦ ltb 0 (count_on base.parent comps)
        ]
        else false
    | none ↦ elim comp.enable_flag [
      | some flag ↦ if comp.is_list_impl then ltb 0 (count_on ty comps) else flag
      | none ↦ ltb 0 (count_on ty comps)
    ]
  ]

  -- The counters are those of the components, whose dependencies stand once each.
  pub record Counted (t : Trimming Ty) : Type 0 where
    pub distinct : IsMap t.components
    pub counts : (ty : Ty) → or_zero (lookup ty t.dependents) ≡ count_on ty t.components
    pub once :
        (ty : Ty) (comp : Trimmable Ty)
        → lookup ty t.components ≡ some comp
        → IsMap comp.dependencies
    pub few : (ty : Ty) → count_on ty t.components < 2 ^ 64

  pub count_on_le_length :
      (ty : Ty) (comps : Map Ty (Trimmable Ty)) → count_on ty comps ≤ length comps
  unfolding count_on
  count_on_le_length ty [] = omega arith
  count_on_le_length ty ((k, comp) ∷ comps) = ground (arith, count_on_le_length ty comps)

  abbrev pub AllOnce : Map Ty (Trimmable Ty) → Type 0
  AllOnce [] = Unit
  AllOnce ((k, comp) ∷ comps) = IsMap comp.dependencies × AllOnce comps

  pub AllOnce-lookup :
      (comps : Map Ty (Trimmable Ty)) (ty : Ty) (comp : Trimmable Ty)
      → AllOnce comps
      → lookup ty comps ≡ some comp
      → IsMap comp.dependencies
  unfolding lookup
  AllOnce-lookup [] ty comp all h = absurd (cc)
  AllOnce-lookup ((j, own) ∷ comps) ty comp all h = elim (Bool-cases (j == ty)) [
    | inl t ↦
        let found : some own ≡ some comp = rw t at h in
        let same : own ≡ comp = cc in subst (λ c. IsMap c.dependencies) same all.0
    | inr t ↦ AllOnce-lookup comps ty comp all.1 (rw t at h)
  ]

  has_no_dependents-Counted :
      (t : Trimming Ty) (ty : Ty)
      → Counted t
      → has_no_dependents t ty ≡ not (ltb 0 (count_on ty t.components))
  unfolding has_no_dependents
  has_no_dependents-Counted t ty c =
      let n = c.counts ty in
      ap (λ k. k == 0) n ∙ ground (arith, nat_eq.beq_iff (count_on ty t.components) 0)

  pub should_disable-wanted :
      (t : Trimming Ty) (ty : Ty) (comp : Trimmable Ty)
      → Counted t
      → should_disable t ty comp ≡ not (wanted t.components ty comp)
  unfolding should_disable should_disable_impl
  should_disable-wanted t ty comp c = elim (Option-cases comp.mux_impl) [
    | inl plain ↦ elim (Option-cases comp.enable_flag) [
      | inl no_flag ↦ rw (plain, no_flag, should_disable) (has_no_dependents-Counted t ty c)
      | inr (flag, is) ↦ elim (Bool-cases comp.is_list_impl) [
        | inl l ↦ rw (plain, is, l, should_disable) (has_no_dependents-Counted t ty c)
        | inr l ↦ rw (plain, is, l, should_disable) refl
      ]
    ]
    | inr (base, is) ↦ elim (Bool-cases (has base.parent t.components && base.is_chosen_mux_impl)) [
      | inr away ↦ rw (is, away, should_disable) refl
      | inl there ↦ elim (Option-cases base.parent_enable_flag) [
        | inl no_flag ↦
            rw (is, there, no_flag, should_disable) (has_no_dependents-Counted t base.parent c)
        | inr (flag, on) ↦ rw (is, there, on, should_disable) refl
      ]
    ]
  ]

  count_on-erase_other :
      (ty k : Ty) (comps : Map Ty (Trimmable Ty))
      → has k comps ≡ false
      → count_on ty (erase k comps) ≡ count_on ty comps
  unfolding count_on erase has
  count_on-erase_other ty k [] h = refl
  count_on-erase_other ty k ((j, comp) ∷ comps) h = elim (Bool-cases (j == k)) [
    | inl t ↦ absurd (cc (rw t at h))
    | inr t ↦ rw t (
        ap (λ n. (if has ty comp.dependencies then 1 else 0) + n)
          (count_on-erase_other ty k comps (rw t at h)))
  ]

  count_on-erase :
      (ty k : Ty) (comp : Trimmable Ty) (comps : Map Ty (Trimmable Ty))
      → IsMap comps
      → lookup k comps ≡ some comp
      → count_on ty comps
        ≡ (if has ty comp.dependencies then 1 else 0) + count_on ty (erase k comps)
  unfolding count_on erase lookup
  count_on-erase ty k comp [] d h = absurd (cc)
  count_on-erase ty k comp ((j, own) ∷ comps) d h = elim (Bool-cases (j == k)) [
    | inl t ↦
        let found : some own ≡ some comp = rw t at h in
        let same : own ≡ comp = cc in
        let gone : has k comps ≡ false =
          subst (λ i. has i comps ≡ false) ((e.beq_iff j k).0 t) d.0 in
        rw t (
          rw (count_on-erase_other ty k comps gone)
            (ap (λ c. (if has ty c.dependencies then 1 else 0) + count_on ty comps) same))
    | inr t ↦
        let rest = count_on-erase ty k comp comps d.1 (rw t at h) in rw t (omega (arith, rest))
  ]

  lookup-release_all :
      (j : Ty) (deps : IdSet Ty) (dependents : Map Ty ℕ)
      → IsMap deps
      → or_zero (lookup j (release_all deps dependents)) ≡ (
          if has j deps
          then decrement (or_zero (lookup j dependents))
          else or_zero (lookup j dependents))
  unfolding release_all has
  lookup-release_all j [] dependents d = refl
  lookup-release_all j ((dep, s) ∷ deps) dependents d =
      lookup-release_all j deps _ d.1
      ∙ rw (lookup-insert dep j (decrement (or_zero (lookup dep dependents))) dependents)
          (elim (Bool-cases (dep == j)) [
            | inl t ↦
                let gone : has j deps ≡ false =
                  subst (λ i. has i deps ≡ false) ((e.beq_iff dep j).0 t) d.0 in
                rw (t, gone)
                  (ap (λ i. decrement (or_zero (lookup i dependents))) ((e.beq_iff dep j).0 t))
            | inr t ↦ rw t refl
          ])

  -- Fewer components.
  pub record Within (less more : Map Ty (Trimmable Ty)) : Type 0 where
    pub fewer : (ty : Ty) → count_on ty less ≤ count_on ty more
    pub still : (ty : Ty) → has ty less ≡ true → has ty more ≡ true

  -- What is not wanted is not wanted among fewer components.
  wanted-Within :
      (less more : Map Ty (Trimmable Ty)) (ty : Ty) (comp : Trimmable Ty)
      → Within less more
      → wanted more ty comp ≡ false
      → wanted less ty comp ≡ false
  wanted-Within less more ty comp w h = elim (Option-cases comp.mux_impl) [
    | inl plain ↦ elim (Option-cases comp.enable_flag) [
      | inl no_flag ↦ rw (plain, no_flag) (ltb_zero_le _ _ (w.fewer ty) (rw (plain, no_flag) at h))
      | inr (flag, is) ↦ elim (Bool-cases comp.is_list_impl) [
        | inl l ↦ rw (plain, is, l) (ltb_zero_le _ _ (w.fewer ty) (rw (plain, is, l) at h))
        | inr l ↦ rw (plain, is, l) (rw (plain, is, l) at h)
      ]
    ]
    | inr (base, is) ↦ elim (Bool-cases (has base.parent less && base.is_chosen_mux_impl)) [
      | inr away ↦ rw (is, away) refl
      | inl there ↦
          let kept : has base.parent more && base.is_chosen_mux_impl ≡ true =
            ground (arith, w.still base.parent) in
          elim (Option-cases base.parent_enable_flag) [
            | inl no_flag ↦
                rw (is, there, no_flag)
                  (ltb_zero_le _ _ (w.fewer base.parent) (rw (is, kept, no_flag) at h))
            | inr (flag, on) ↦ rw (is, there, on) (rw (is, kept, on) at h)
          ]
    ]
  ]

  erase-Within :
      (k : Ty) (comp : Trimmable Ty) (comps : Map Ty (Trimmable Ty))
      → IsMap comps
      → lookup k comps ≡ some comp
      → Within (erase k comps) comps
  erase-Within k comp comps d h = record {
    fewer = λ ty. omega (arith, count_on-erase ty k comp comps d h);
    still = λ ty there. elim (Bool-cases (k == ty)) [
      | inl t ↦ let no : false ≡ true = rw t at (sym (has-erase k ty comps) ∙ there) in absurd (cc)
      | inr t ↦ rw t at (sym (has-erase k ty comps) ∙ there)
    ];
  }

  disable-Counted :
      (t : Trimming Ty) (ty : Ty) (comp : Trimmable Ty)
      → Counted t
      → lookup ty t.components ≡ some comp
      → Counted (disable t ty comp)
  unfolding disable
  disable-Counted t ty comp c there =
      let one = λ (j : Ty). count_on-erase j ty comp t.components c.distinct there in
      record {
        distinct = erase-IsMap ty t.components c.distinct;
        counts = λ j.
            lookup-release_all j comp.dependencies t.dependents (c.once ty comp there)
            ∙ elim (Bool-cases (has j comp.dependencies)) [
              | inl d ↦
                  let n : count_on j t.components ≡ 1 + count_on j (erase ty t.components) =
                    rw d at (one j) in
                  rw (d, c.counts j)
                    (decrement_positive (count_on j t.components) (omega (arith, n)) (c.few j)
                      ∙ omega (arith, n))
              | inr d ↦
                  let n : count_on j t.components ≡ 0 + count_on j (erase ty t.components) =
                    rw d at (one j) in
                  rw (d, c.counts j) (omega (arith, n))
            ];
        once = λ j own at. elim (Bool-cases (ty == j)) [
          | inl u ↦
              let gone : none ≡ some own = rw u at (sym (lookup-erase ty j t.components) ∙ at) in
              absurd (cc)
          | inr u ↦ c.once j own (rw u at (sym (lookup-erase ty j t.components) ∙ at))
        ];
        few = λ j. omega (arith, c.few j, one j);
      }

  -- Each of the first components is there, or is not wanted.
  abbrev pub Fair : Map Ty (Trimmable Ty) → Map Ty (Trimmable Ty) → Type 0
  Fair all comps =
      (ty : Ty) (comp : Trimmable Ty)
      → lookup ty all ≡ some comp
      → (lookup ty comps ≡ some comp) ⊎ ((lookup ty comps ≡ none) × (wanted comps ty comp ≡ false))

  disable-Fair :
      (all : Map Ty (Trimmable Ty)) (t : Trimming Ty) (ty : Ty) (comp : Trimmable Ty)
      → Counted t
      → lookup ty t.components ≡ some comp
      → should_disable t ty comp ≡ true
      → Fair all t.components
      → Fair all (disable t ty comp).components
  unfolding disable
  disable-Fair all t ty comp c there off fair = λ j own at.
      let less = erase-Within ty comp t.components c.distinct there in
      let read = lookup-erase ty j t.components in
      elim (fair j own at) [
        | inr (gone, idle) ↦ inr (
          read ∙ rw gone (ground arith),
          wanted-Within (erase ty t.components) t.components j own less idle,
        )
        | inl here ↦ elim (Bool-cases (ty == j)) [
          | inr u ↦ inl (read ∙ rw u here)
          | inl u ↦
              let same : lookup j t.components ≡ some comp =
                subst (λ i. lookup i t.components ≡ some comp) ((e.beq_iff ty j).0 u) there in
              let one : comp ≡ own = cc in
              let idle : wanted t.components ty comp ≡ false =
                let is = should_disable-wanted t ty comp c in ground arith in
              inr (
                read ∙ rw u refl,
                wanted-Within (erase ty t.components) t.components j own less (
                    subst (λ o. wanted t.components j o ≡ false) one
                      (subst (λ i. wanted t.components i comp ≡ false) ((e.beq_iff ty j).0 u)
                        idle)),
              )
        ]
      ]

  -- The components of a round that are to come are those of the state.
  abbrev pub Current : List (Ty × Trimmable Ty) → Trimming Ty → Type 0
  Current comps t =
      (ty : Ty) (comp : Trimmable Ty)
      → lookup ty comps ≡ some comp
      → lookup ty t.components ≡ some comp

  apart_rest :
      (ty j : Ty) (own : Trimmable Ty) (comps : Map Ty (Trimmable Ty))
      → has ty comps ≡ false
      → lookup j comps ≡ some own
      → (ty == j) ≡ false
  apart_rest ty j own comps new at = elim (Bool-cases (ty == j)) [
    | inr u ↦ u
    | inl u ↦
        let gone =
          (has-lookup j comps).0 (subst (λ i. has i comps ≡ false) ((e.beq_iff ty j).0 u) new) in
        absurd (cc)
  ]

  Current-rest :
      (ty : Ty) (comp : Trimmable Ty) (comps : List (Ty × Trimmable Ty)) (t : Trimming Ty)
      → has ty comps ≡ false
      → Current ((ty, comp) ∷ comps) t
      → Current comps t
  unfolding lookup
  Current-rest ty comp comps t new now j own at =
      now j own (rw (apart_rest ty j own comps new at) at)

  disable-Current :
      (ty : Ty) (comp : Trimmable Ty) (comps : List (Ty × Trimmable Ty)) (t : Trimming Ty)
      → has ty comps ≡ false
      → Current comps t
      → Current comps (disable t ty comp)
  unfolding disable
  disable-Current ty comp comps t new now j own at =
      lookup-erase ty j t.components ∙ rw (apart_rest ty j own comps new at) (now j own at)

  pub trim_round-Fair :
      (all : Map Ty (Trimmable Ty)) (comps : List (Ty × Trimmable Ty)) (t : Trimming Ty)
      (has_change : Bool)
      → IsMap comps
      → Current comps t
      → Counted t
      → Fair all t.components
      → Counted (trim_round comps t has_change).0
        × Fair all (trim_round comps t has_change).0.components
  unfolding lookup
  trim_round-Fair all [] t has_change d now c fair = unfold trim_round in (c, fair)
  trim_round-Fair all ((ty, comp) ∷ comps) t has_change d now c fair =
      let Kept = λ (r : Trimming Ty × Bool). Counted r.0 × Fair all r.0.components in
      let here : lookup ty t.components ≡ some comp =
        now ty comp (rw ((e.beq_iff ty ty).1 refl) refl) in
      let later = Current-rest ty comp comps t d.0 now in
      elim (Bool-cases (should_disable t ty comp)) [
        | inl off ↦ subst Kept (sym (trim_round-disabled ty comp comps t has_change off)) (
            trim_round-Fair all comps (disable t ty comp) true d.1
              (disable-Current ty comp comps t d.0 later) (disable-Counted t ty comp c here)
              (disable-Fair all t ty comp c here off fair))
        | inr on ↦
            subst Kept (sym (trim_round-kept ty comp comps t has_change on))
              (trim_round-Fair all comps t has_change d.1 later c fair)
      ]
