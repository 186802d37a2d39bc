-- ===== src/Manager/Trim/Settles.antt =====
-- The loop of `TrimDisabled` in pkg/manager/interface.go comes to an end.
use kelemetry.Base.{
  true, false, ◌∙◌, ℕ, zero, suc, ◌<◌, ◌≡◌, refl, ap, inl, inr, if◌then◌else◌, sym, none, some,
  arith, length, Eq, nat_eq, Bool-cases,
}
use kelemetry.Base.Map.{Map, lookup}
use kelemetry.Manager.Trim.Fair.{wanted, Counted, should_disable-wanted, Fair, trim_round-Fair}
use kelemetry.Manager.Trim.{Trimmable, Trimming, trim_round, trim_loop}
use kelemetry.Manager.Trim.Rounds.{
  KeysIn-refl, Drops, trans-Drops, Settled, trim_round-Settled, trim_round-Shrinks,
  trim_round-Drops,
}

module _ {Ty : Type 0} ⦃e : Eq Ty⦄ where
  trim_loop-again :
      (fuel : ℕ) (t : Trimming Ty)
      → (trim_round t.components t false).1 ≡ true
      → trim_loop (suc fuel) t ≡ trim_loop fuel (trim_round t.components t false).0
  unfolding trim_loop
  trim_loop-again fuel t b = rw (b, trim_loop) refl

  trim_loop-ends :
      (fuel : ℕ) (t : Trimming Ty)
      → (trim_round t.components t false).1 ≡ false
      → trim_loop (suc fuel) t ≡ some (trim_round t.components t false).0
  unfolding trim_loop
  trim_loop-ends fuel t b = rw (b, trim_loop) refl

  trim_loop-Fair :
      (all : Map Ty (Trimmable Ty)) (fuel : ℕ) (t : Trimming Ty)
      → length t.components < fuel
      → Counted t
      → Fair all t.components
      → (t' : Trimming Ty) × (trim_loop fuel t ≡ some t')
        × Drops t t'
        × Settled t'.components t'
        × Counted t'
        × Fair all t'.components
  trim_loop-Fair all zero t enough c fair = absurd (omega (arith, enough))
  trim_loop-Fair all (suc fuel) t enough c fair =
      let r = trim_round t.components t false in
      let m = c.distinct in
      let drops = trim_round-Drops t.components t false m in
      elim (Bool-cases r.1) [
        | inl b ↦
            let less =
              (trim_round-Shrinks t.components t false (KeysIn-refl t.components) m).1 refl b in
            let (c', fair') =
              trim_round-Fair all t.components t false m (λ ty comp at. at) c fair in
            let (t', ran, after, settled, counted, fair'') =
              trim_loop-Fair all fuel r.0 (omega (arith, less, enough)) c' fair' in
            (
              t',
              trim_loop-again fuel t b ∙ ran,
              trans-Drops t r.0 t' drops after,
              settled,
              counted,
              fair'',
            )
        | inr b ↦
            let (same, settled) = trim_round-Settled t.components t b in
            (
              t,
              trim_loop-ends fuel t b ∙ ap some same,
              (m, λ ty comp there. there),
              settled,
              c,
              fair,
            )
      ]

  pub trim_loop-Settled :
      (fuel : ℕ) (t : Trimming Ty)
      → length t.components < fuel
      → Counted t
      → (t' : Trimming Ty) × (trim_loop fuel t ≡ some t')
        × ((ty : Ty) (comp : Trimmable Ty)
            → lookup ty t.components ≡ some comp
            → lookup ty t'.components ≡ (if wanted t'.components ty comp then some comp else none))
        × ((ty : Ty) (comp : Trimmable Ty)
            → lookup ty t'.components ≡ some comp
            → lookup ty t.components ≡ some comp)
  trim_loop-Settled fuel t enough c =
      let (t', ran, drops, settled, c', fair) =
        trim_loop-Fair t.components fuel t enough c (λ ty comp at. inl at) in
      (
        t',
        ran,
        λ ty comp at. elim (fair ty comp at) [
          | inl here ↦
              let is : wanted t'.components ty comp ≡ true =
                let read = sym (should_disable-wanted t' ty comp c') ∙ settled ty comp here in
                ground arith in
              rw (here, is) refl
          | inr (gone, idle) ↦ rw (gone, idle) refl
        ],
        drops.1,
      )
