-- ===== src/Manager/Ordered.antt =====
-- What it is for components to be in order, and what a cycle of dependencies is.
use kelemetry.Base.{
  ◌≡◌, refl, sym, subst, Bool, true, false, ◌||◌, List, [], ◌∷◌, ◌++◌, Option, none, some, arith,
  if◌then◌else◌, Eq, ◌==◌,
}
use kelemetry.Base.Map.{Map, lookup, has}
use kelemetry.SpanTree.{IdSet}
use kelemetry.Manager.{ComponentInfo}

abbrev pub deps_or_none : {Ty : Type 0} → Option (ComponentInfo Ty) → IdSet Ty
deps_or_none none = []
deps_or_none (some info) = info.dependencies

module _ {Ty : Type 0} ⦃e : Eq Ty⦄ where
  abbrev pub mem : Ty → List Ty → Bool
  mem k [] = false
  mem k (x ∷ xs) = if x == k then true else mem k xs

  pub mem-append_one :
      (k x : Ty) (xs : List Ty) → mem k (xs ++ x ∷ []) ≡ (if x == k then true else mem k xs)
  mem-append_one k x [] = refl
  mem-append_one k x (y ∷ ys) = rw (mem-append_one k x ys) (ground arith)

module _ {Ty : Type 0} ⦃e : Eq Ty⦄ (components : Map Ty (ComponentInfo Ty)) where
  abbrev pub deps_of : Ty → IdSet Ty
  deps_of k = deps_or_none (lookup k components)

  -- No component stands twice, and each stands behind its dependencies, of those that are left.
  abbrev pub InOrder : List Ty → List Ty → Type 0
  InOrder done [] = Unit
  InOrder done (k ∷ ks) =
      (mem k done ≡ false)
      × ((d : Ty) → has d (deps_of k) ≡ true → has d components ≡ true → mem d done ≡ true)
      × InOrder (k ∷ done) ks

  pub InOrder-snoc :
      (done xs : List Ty) (k : Ty)
      → InOrder done xs
      → mem k done ≡ false
      → mem k xs ≡ false
      → ((d : Ty)
          → has d (deps_of k) ≡ true
          → has d components ≡ true
          → (mem d xs || mem d done) ≡ true)
      → InOrder done (xs ++ k ∷ [])
  InOrder-snoc done [] k o new new' ready = (new, ready, tt)
  InOrder-snoc done (x ∷ xs) k o new new' ready = (
    o.0,
    o.1,
    InOrder-snoc (x ∷ done) xs k o.2 (ground arith) (ground arith)
        (λ d dep left. let r = ready d dep left in ground arith),
  )

  -- Each component of the path is a dependency of the next one; the last one is given.
  abbrev pub Chain : Ty → List Ty → Ty → Type 0
  Chain g [] last = g ≡ last
  Chain g (x ∷ rest) last = (has g (deps_of x) ≡ true) × Chain x rest last

  pub Chain-snoc :
      (g : Ty) (rest : List Ty) (last k : Ty)
      → Chain g rest last
      → has last (deps_of k) ≡ true
      → Chain g (rest ++ k ∷ []) k
  Chain-snoc g [] last k c dep = (subst (λ x. has x (deps_of k) ≡ true) (sym c) dep, refl)
  Chain-snoc g (x ∷ rest) last k c dep = (c.0, Chain-snoc x rest last k c.1 dep)
