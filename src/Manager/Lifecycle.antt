-- ===== src/Manager/Lifecycle.antt =====
-- `Init`, `Start` and `Close` of pkg/manager/interface.go, over the components in their order. Each
-- answers the state after it; `Init` and `Start` also the components that they got through, and the
-- error at which they stopped.
use kelemetry.Base.{
  ◌≡◌, refl, sym, ap, subst, inl, inr, Option-cases, List, [], ◌∷◌, ◌++◌, Option, none, some, Eq,
}
use kelemetry.Base.Map.{Map}
use kelemetry.Manager.{ComponentInfo}
use kelemetry.Manager.Ordered.{InOrder}

-- `W` is what components act on, and `E` the type of errors.
module _ {W E : Type 0} where
  -- A loop over calls that stops at an error.
  unfoldable pub run_until_error : List (W → W × Option E) → W → W × Option E
  run_until_error [] w = (w, none)
  run_until_error (call ∷ calls) w =
      let (w', failure) = call w in
      elim failure [ none ↦ run_until_error calls w' | some x ↦ (w', some x) ]

module _ {Ty W : Type 0} where
  -- `Close`, which goes from the last to the first, whatever the components answer.
  unfoldable pub close_all : (Ty → W → W) → List Ty → W → W
  close_all close [] w = w
  close_all close (ty ∷ ordered) w = close ty (close_all close ordered w)

module _ {Ty W E : Type 0} where
  -- The on-init hooks of a component, and its Init.
  unfoldable pub init_component :
      (Ty → List (W → W × Option E)) → (Ty → W → W × Option E) → Ty → W → W × Option E
  unfolding run_until_error
  init_component on_init_hooks init ty = run_until_error (on_init_hooks ty ++ init ty ∷ [])

  unfoldable pub note_done : Ty → W × List Ty × Option E → W × List Ty × Option E
  note_done ty (w, done, failure) = (w, ty ∷ done, failure)

  -- `Start`, and with `init_component` the loop of `Init`.
  unfoldable pub start_all : (Ty → W → W × Option E) → List Ty → W → W × List Ty × Option E
  unfolding note_done
  start_all start [] w = (w, [], none)
  start_all start (ty ∷ ordered) w =
      let (w', failure) = start ty w in
      elim failure [ none ↦ note_done ty (start_all start ordered w') | some x ↦ (w', [], some x) ]

  -- Starting these components one after the other leads from one state to another, and none of them
  -- answers an error.
  abbrev pub AllStart : (Ty → W → W × Option E) → List Ty → W → W → Type 0
  AllStart start [] w w' = w ≡ w'
  AllStart start (ty ∷ tys) w w' = ((start ty w).1 ≡ none) × AllStart start tys (start ty w).0 w'

  -- How a loop over an order ends: all are started, or all before one that answers the error.
  abbrev pub Ends : (Ty → W → W × Option E) → List Ty → W → W × List Ty × Option E → Type 0
  Ends start ordered w (w', done, none) = (done ≡ ordered) × AllStart start ordered w w'
  Ends start ordered w (w', done, some x) =
      (ty : Ty) × (rest : List Ty) × (mid : W) × (done ++ ty ∷ rest ≡ ordered)
      × AllStart start done w mid
      × (start ty mid ≡ (w', some x))

  note_done-Ends :
      (start : Ty → W → W × Option E) (ty : Ty) (ordered : List Ty) (w : W)
      (r : W × List Ty × Option E)
      → (start ty w).1 ≡ none
      → Ends start ordered (start ty w).0 r
      → Ends start (ty ∷ ordered) w (note_done ty r)
  unfolding note_done
  note_done-Ends start ty ordered w (w', done, none) fine (all, ran) =
      (ap (λ l. ty ∷ l) all, (fine, ran))
  note_done-Ends start ty ordered w (w', done, some x) fine (bad, rest, mid, is, ran, failed) =
      (bad, rest, mid, ap (λ l. ty ∷ l) is, (fine, ran), failed)

  start_all-Ends :
      (start : Ty → W → W × Option E) (ordered : List Ty) (w : W)
      → Ends start ordered w (start_all start ordered w)
  unfolding start_all
  start_all-Ends start [] w = (refl, refl)
  start_all-Ends start (ty ∷ ordered) w = elim (Option-cases (start ty w).1) [
    | inl fine ↦
        rw (fine, start_all)
          (note_done-Ends start ty ordered w (start_all start ordered (start ty w).0) fine
            (start_all-Ends start ordered (start ty w).0))
    | inr (x, failed) ↦
        rw (failed, start_all) (ty, ordered, w, refl, refl, ap (λ o. ((start ty w).0, o)) failed)
  ]

module _ {Ty : Type 0} ⦃e : Eq Ty⦄ (components : Map Ty (ComponentInfo Ty)) where
  InOrder-prefix :
      (done xs ys : List Ty) → InOrder components done (xs ++ ys) → InOrder components done xs
  InOrder-prefix done [] ys o = tt
  InOrder-prefix done (x ∷ xs) ys o = (o.0, o.1, InOrder-prefix (x ∷ done) xs ys o.2)

module _ {Ty W E : Type 0} ⦃e : Eq Ty⦄ (components : Map Ty (ComponentInfo Ty)) where
  Ends-InOrder :
      (start : Ty → W → W × Option E) (ordered : List Ty) (w : W) (r : W × List Ty × Option E)
      → InOrder components [] ordered
      → Ends start ordered w r
      → InOrder components [] r.1
  Ends-InOrder start ordered w (w', done, none) o (all, ran) =
      subst (λ l. InOrder components [] l) (sym all) o
  Ends-InOrder start ordered w (w', done, some x) o (ty, rest, mid, is, ran, failed) =
      InOrder-prefix components [] done (ty ∷ rest)
        (subst (λ l. InOrder components [] l) (sym is) o)

  -- Starting components in an order, whatever they do. If the loop answers no error, all of them were
  -- started, one after the other from the state that the one before left, and none answered an error.
  -- If it answers one, it is that of a component before which all were started without an error, and
  -- none after it was started. Those that were started stand behind their dependencies, once each.
  pub start_all-InOrder :
      (start : Ty → W → W × Option E) (ordered : List Ty) (w : W)
      → InOrder components [] ordered
      → InOrder components [] (start_all start ordered w).1
        × Ends start ordered w (start_all start ordered w)
  start_all-InOrder start ordered w o =
      let ends = start_all-Ends start ordered w in
      (Ends-InOrder start ordered w (start_all start ordered w) o ends, ends)
