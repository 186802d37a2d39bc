-- ===== src/Manager.antt =====
-- pkg/manager/interface.go: the components that are left after the disabled ones are trimmed are put
-- in an order, in which they are initialised and started; they are closed in the opposite order.
pub mod Marks
pub mod Ordered
pub mod Search
pub mod Ordering
pub mod Lifecycle
pub mod Trim
pub mod Mux
mod Tests
use kelemetry.Base.{
  ℕ, zero, suc, Bool, true, false, List, [], ◌∷◌, ◌++◌, Option, none, some, String, if◌then◌else◌,
  length, Eq, ◌==◌, nat_eq,
}
use kelemetry.Base.Map.{Map, lookup, insert, erase}
use kelemetry.SpanTree.{IdSet}

-- `componentInfo`, less the component itself. `Ty` stands for `reflect.Type`.
pub record ComponentInfo (Ty : Type 0) : Type 0 where
  pub name : String
  pub dependencies : IdSet Ty

-- What `insertDeps` leaves in `into` and `keys`, or the cycle that it answers. `fault` is a nil
-- component or too little fuel.
pub data Insertion (Ty : Type 0) : Type 0 where
  inserted : List Ty → Map Ty ℕ → Insertion Ty
  cycle : List Ty → Insertion Ty
  fault : Insertion Ty

module _ {Ty : Type 0} ⦃e : Eq Ty⦄ where
  -- The loop over the dependencies of a component, where `insert_dep` is the recursive call.
  unfoldable pub each_dep :
      (List Ty → Map Ty ℕ → Ty → Insertion Ty) → IdSet Ty → List Ty → Map Ty ℕ → Insertion Ty
  each_dep insert_dep [] into keys = inserted into keys
  each_dep insert_dep ((dep, s) ∷ deps) into keys = elim (insert_dep into keys dep) [
    | inserted into' keys' ↦ each_dep insert_dep deps into' keys'
    | cycle path ↦ cycle path
    | fault ↦ fault
  ]

  unfoldable pub finish : Ty → Insertion Ty → Insertion Ty
  finish of (inserted into keys) = inserted (into ++ of ∷ []) (erase of keys)
  finish of (cycle path) = cycle (path ++ of ∷ [])
  finish of fault = fault

  -- `insertDeps`; a key that is waiting has the mark 2, and one whose call is under way the mark 1.
  unfoldable pub insert_deps :
      ℕ → Map Ty (ComponentInfo Ty) → List Ty → Map Ty ℕ → Ty → Insertion Ty
  unfolding each_dep finish
  insert_deps zero components into keys of = fault
  insert_deps (suc fuel) components into keys of = elim (lookup of keys) [
    | none ↦ inserted into keys
    | some step ↦
        let dive : Insertion Ty = elim (lookup of components) [
          | none ↦ fault
          | some info ↦
              finish of
                (each_dep (insert_deps fuel components) info.dependencies into (insert of 1 keys))
        ] in
        if step == 1 then cycle (of ∷ []) else dive
  ]

  unfoldable pub all_waiting : Map Ty (ComponentInfo Ty) → Map Ty ℕ
  all_waiting [] = []
  all_waiting ((key, info) ∷ components) = (key, 2) ∷ all_waiting components

  -- The loop of `orderComponents`, which takes any key.
  unfoldable pub order_keys : ℕ → Map Ty (ComponentInfo Ty) → List Ty → Map Ty ℕ → Insertion Ty
  unfolding insert_deps
  order_keys fuel components into [] = inserted into []
  order_keys zero components into (entry ∷ keys) = fault
  order_keys (suc fuel) components into (entry ∷ keys) =
      elim (insert_deps (suc (length (entry ∷ keys))) components into (entry ∷ keys) entry.0) [
        | inserted into' keys' ↦ order_keys fuel components into' keys'
        | cycle path ↦ cycle path
        | fault ↦ fault
      ]

  -- `orderComponents`, which panics on a cycle.
  unfoldable pub order_components : Map Ty (ComponentInfo Ty) → Insertion Ty
  unfolding order_keys all_waiting
  order_components components =
      order_keys (length (all_waiting components)) components [] (all_waiting components)
