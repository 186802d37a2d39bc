-- ===== src/Merge/Roots/Interval.antt =====
-- The time that a merged root of pkg/frontend/reader/merge/merge.go covers.
use kelemetry.Base.{ℕ, ◌≡◌, refl, ◌∙◌, List, [], ◌∷◌, min, max, arith}
use kelemetry.Merge.Roots.{Content, end_time, merge_root}

module _ {ℓ} {L : Type ℓ} where
  -- The traces of one object, merged into the first in the order in which they come.
  abbrev pub merge_roots : Content L → List (Content L) → Content L
  merge_roots base [] = base
  merge_roots base (tail ∷ tails) = merge_roots (merge_root base tail) tails

  abbrev pub earliest : Content L → List (Content L) → ℕ
  earliest base [] = base.start_time
  earliest base (tail ∷ tails) = min tail.start_time (earliest base tails)

  abbrev pub latest : Content L → List (Content L) → ℕ
  latest base [] = end_time base
  latest base (tail ∷ tails) = max (end_time tail) (latest base tails)

  pub start_time-merge_root :
      (base tail : Content L)
      → (merge_root base tail).start_time ≡ min base.start_time tail.start_time
  unfolding merge_root
  start_time-merge_root base tail = ground arith

  end_time-merge_root :
      (base tail : Content L)
      → end_time (merge_root base tail) ≡ max (end_time base) (end_time tail)
  unfolding merge_root end_time
  end_time-merge_root base tail = ground arith

  earliest-merge_root :
      (base tail : Content L) (tails : List (Content L))
      → earliest (merge_root base tail) tails ≡ min tail.start_time (earliest base tails)
  earliest-merge_root base tail [] = omega (arith, start_time-merge_root base tail)
  earliest-merge_root base tail (next ∷ tails) = omega (arith, earliest-merge_root base tail tails)

  latest-merge_root :
      (base tail : Content L) (tails : List (Content L))
      → latest (merge_root base tail) tails ≡ max (end_time tail) (latest base tails)
  latest-merge_root base tail [] = omega (arith, end_time-merge_root base tail)
  latest-merge_root base tail (next ∷ tails) = omega (arith, latest-merge_root base tail tails)

  -- However many roots are merged, the result begins with the earliest of them and ends with the
  -- latest end of them.
  merge_roots-interval :
      (base : Content L) (tails : List (Content L))
      → ((merge_roots base tails).start_time ≡ earliest base tails)
        × (end_time (merge_roots base tails) ≡ latest base tails)
  merge_roots-interval base [] = (refl, refl)
  merge_roots-interval base (tail ∷ tails) =
      let rest = merge_roots-interval (merge_root base tail) tails in
      (rest.0 ∙ earliest-merge_root base tail tails, rest.1 ∙ latest-merge_root base tail tails)
