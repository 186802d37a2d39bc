-- ===== src/Manager/Ordering.antt =====
-- `orderComponents` of pkg/manager/interface.go.
use kelemetry.Base.{
  ℕ, zero, suc, ◌≤◌, ◌<◌, ◌≡◌, refl, sym, subst, ◌∙◌, inl, inr, true, false, ◌||◌, List, [], ◌∷◌,
  some, arith, if◌then◌else◌, length, Eq, ◌==◌, nat_eq, Bool-cases,
}
use kelemetry.Base.Map.{Map, lookup, has}
use kelemetry.Manager.{
  ComponentInfo, Insertion, inserted, cycle, fault, insert_deps, all_waiting, order_keys,
  order_components,
}
use kelemetry.Manager.Marks.{is_entered, waiting, waiting-le-length}
use kelemetry.Manager.Ordered.{deps_of, mem, InOrder, Chain}
use kelemetry.Manager.Search.{Inv, Inserts, insert_deps-Inserts}

module _ {Ty : Type 0} ⦃e : Eq Ty⦄ (components : Map Ty (ComponentInfo Ty)) where
  -- An order of all components, or a cycle of dependencies with its first component in it again.
  abbrev pub Orders : Insertion Ty → Type 0
  Orders (inserted into keys) =
      InOrder components [] into × ((k : Ty) → mem k into ≡ has k components)
  Orders (cycle path) =
      (g : Ty) × (rest : List Ty) × (last : Ty) × (path ≡ g ∷ rest)
      × Chain components g rest last
      × (mem g rest ≡ true)
  Orders fault = ⊥

  has-all_waiting :
      (k : Ty) (comps : Map Ty (ComponentInfo Ty)) → has k (all_waiting comps) ≡ has k comps
  unfolding has all_waiting
  has-all_waiting k [] = refl
  has-all_waiting k ((j, info) ∷ comps) = rw (has-all_waiting k comps) refl

  none_entered :
      (k : Ty) (comps : Map Ty (ComponentInfo Ty))
      → is_entered (lookup k (all_waiting comps)) ≡ false
  unfolding lookup all_waiting
  none_entered k [] = refl
  none_entered k ((j, info) ∷ comps) = elim (Bool-cases (j == k)) [
    | inl t ↦ rw t refl
    | inr t ↦ rw t (none_entered k comps)
  ]

  Orders-round :
      (fuel : ℕ) (keys : Map Ty ℕ) (of : Ty)
      → has of keys ≡ true
      → waiting keys ≤ suc fuel
      → ((k : Ty) → is_entered (lookup k keys) ≡ false)
      → ((into' : List Ty) (keys' : Map Ty ℕ)
          → Inv components into' keys'
          → ((k : Ty) → is_entered (lookup k keys') ≡ false)
          → waiting keys' ≤ fuel
          → Orders (order_keys fuel components into' keys'))
      → (r : Insertion Ty) → Inserts components keys of r
      → Orders (elim r [
        | inserted into' keys' ↦ order_keys fuel components into' keys'
        | cycle path ↦ cycle path
        | fault ↦ fault
      ])
  Orders-round fuel keys of there enough unentered rec (inserted into' keys') (f, gone, less) =
      rec into' keys' f.inv (λ k. f.same_entered k ∙ unentered k)
        (omega (arith, less there, enough))
  Orders-round fuel keys of there enough unentered rec (cycle path) (g, rest, is, chain, back) =
      (g, rest, of, is, chain, subst (λ b. (b || mem g rest) ≡ true) (unentered g) back)
  Orders-round fuel keys of there enough unentered rec fault h = h

  order_keys-Orders :
      (fuel : ℕ) (into : List Ty) (keys : Map Ty ℕ)
      → Inv components into keys
      → ((k : Ty) → is_entered (lookup k keys) ≡ false)
      → waiting keys ≤ fuel
      → Orders (order_keys fuel components into keys)
  unfolding order_keys has lookup
  order_keys-Orders fuel into [] i unentered enough = (i.in_order, λ k. i.parted k ∙ ground arith)
  order_keys-Orders zero into ((key, step) ∷ keys) i unentered enough =
      let fresh : (step == 1) ≡ false =
        subst (λ b. is_entered (if b then some step else lookup key keys) ≡ false)
          ((e.beq_iff key key).1 refl) (unentered key) in
      let some_wait : waiting ((key, step) ∷ keys) ≡ suc (waiting keys) = rw fresh refl in
      absurd (omega (arith, some_wait, enough))
  order_keys-Orders (suc fuel) into ((key, step) ∷ keys) i unentered enough =
      let all : Map Ty ℕ = (key, step) ∷ keys in
      Orders-round fuel all key (rw ((e.beq_iff key key).1 refl) refl) enough unentered
        (order_keys-Orders fuel) (insert_deps (suc (length all)) components into all key)
        (insert_deps-Inserts components (suc (length all)) into all key i
          (omega (arith, waiting-le-length all)))

  -- Ordering the components never fails otherwise than by a cycle: it gives an order in which each
  -- component stands once and behind its dependencies, or the path of a cycle of dependencies.
  pub order_components-Orders : Orders (order_components components)
  unfolding order_components
  order_components-Orders =
      order_keys-Orders (length (all_waiting components)) [] (all_waiting components)
        (record {
          in_order = tt;
          parted = λ k. rw (has-all_waiting k components) (ground arith);
          known = λ k h. sym (has-all_waiting k components) ∙ h;
        })
        (λ k. none_entered k components) (waiting-le-length (all_waiting components))

  -- Along a chain of dependencies a rank that falls from each component to its dependencies grows.
  rank_grows :
      (rank : Ty → ℕ)
      → ((k d : Ty) → has d (deps_of components k) ≡ true → rank d < rank k)
      → (k g : Ty) (rest : List Ty) (last : Ty) → Chain components g rest last
      → mem k rest ≡ true
      → rank g < rank k
  rank_grows rank falls k g [] last chain among = absurd (cc)
  rank_grows rank falls k g (x ∷ rest) last chain among = elim (Bool-cases (x == k)) [
    | inl t ↦ subst (λ j. rank g < rank j) ((e.beq_iff x k).0 t) (falls x g chain.0)
    | inr t ↦
        let later = subst (λ b. (if b then true else mem k rest) ≡ true) t among in
        omega (arith, falls x g chain.0, rank_grows rank falls k x rest last chain.1 later)
  ]

  no_cycle :
      (rank : Ty → ℕ)
      → ((k d : Ty) → has d (deps_of components k) ≡ true → rank d < rank k)
      → (r : Insertion Ty) → Orders r
      → (into : List Ty) × (keys : Map Ty ℕ) × (r ≡ inserted into keys)
        × InOrder components [] into
        × ((k : Ty) → mem k into ≡ has k components)
  no_cycle rank falls (inserted into keys) o = (into, keys, refl, o.0, o.1)
  no_cycle rank falls (cycle path) (g, rest, last, is, chain, again) =
      absurd (omega (arith, rank_grows rank falls g g rest last chain again))
  no_cycle rank falls fault o = absurd o

  -- Components whose dependencies can be ranked are always put in order.
  pub order_components_ranked :
      (rank : Ty → ℕ)
      → ((k d : Ty) → has d (deps_of components k) ≡ true → rank d < rank k)
      → (into : List Ty) × (keys : Map Ty ℕ) × (order_components components ≡ inserted into keys)
        × InOrder components [] into
        × ((k : Ty) → mem k into ≡ has k components)
  order_components_ranked rank falls =
      no_cycle rank falls (order_components components) order_components-Orders
