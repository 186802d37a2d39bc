-- ===== src/Manager/Trim.antt =====
-- `TrimDisabled` of pkg/manager/interface.go, up to the ordering of what is left.
pub mod Rounds
pub mod Fair
pub mod Settles
use kelemetry.Base.{
  ℕ, zero, suc, ◌+◌, ◌-◌, ◌%◌, ◌^◌, ◌≤◌, ◌<◌, ◌≡◌, refl, sym, ap, subst, ◌∙◌, inl, inr, Bool, true,
  false, not, ◌&&◌, List, [], ◌∷◌, Option, none, some, arith, if◌then◌else◌, length, ltb, Eq, ◌==◌,
  nat_eq, Bool-cases, Option-cases,
}
use kelemetry.Base.Map.{
  Map, IsMap, lookup, insert, erase, has, erase-IsMap, has-erase, lookup-erase, length-erase_lt,
}
use kelemetry.SpanTree.{IdSet}

-- The mux that an implementation belongs to, and whether the flag of the mux chooses it.
pub record MuxImplBase (Ty : Type 0) : Type 0 where
  pub parent : Ty
  pub parent_enable_flag : Option Bool
  pub is_chosen_mux_impl : Bool

-- What trimming reads of a component; `mux_impl` is `some` for an implementation of a mux.
pub record Trimmable (Ty : Type 0) : Type 0 where
  pub dependencies : IdSet Ty
  pub enable_flag : Option Bool
  pub is_list_impl : Bool
  pub mux_impl : Option (MuxImplBase Ty)

-- `dependents` has the counter of each component, also of one that is disabled, since others still
-- point to it.
pub record Trimming (Ty : Type 0) : Type 0 where
  pub components : Map Ty (Trimmable Ty)
  pub dependents : Map Ty ℕ
  pub disabled : Map Ty (Trimmable Ty)

abbrev pub or_zero : Option ℕ → ℕ
or_zero none = 0
or_zero (some n) = n

-- `-= 1` on a `uint`
unfoldable pub decrement : ℕ → ℕ
decrement n = (n + 2 ^ 64 - 1) % 2 ^ 64

abbrev pub is_false : Option Bool → Bool
is_false none = false
is_false (some flag) = not flag

module _ {Ty : Type 0} ⦃e : Eq Ty⦄ where
  unfoldable pub has_no_dependents : Trimming Ty → Ty → Bool
  has_no_dependents t ty = or_zero (lookup ty t.dependents) == 0

  unfoldable pub should_disable_impl : Trimming Ty → MuxImplBase Ty → Bool
  unfolding has_no_dependents
  should_disable_impl t base =
      if has base.parent t.components && base.is_chosen_mux_impl
      then elim base.parent_enable_flag [
        | some flag ↦ not flag
        | none ↦ has_no_dependents t base.parent
      ]
      else true

  unfoldable pub should_disable : Trimming Ty → Ty → Trimmable Ty → Bool
  unfolding should_disable_impl has_no_dependents
  should_disable t ty comp = elim comp.mux_impl [
    | some base ↦ should_disable_impl t base
    | none ↦ elim comp.enable_flag [
      | some flag ↦ if comp.is_list_impl then has_no_dependents t ty else not flag
      | none ↦ has_no_dependents t ty
    ]
  ]

  unfoldable pub release_all : IdSet Ty → Map Ty ℕ → Map Ty ℕ
  unfolding decrement
  release_all [] dependents = dependents
  release_all ((dep, s) ∷ deps) dependents =
      release_all deps (insert dep (decrement (or_zero (lookup dep dependents))) dependents)

  unfoldable pub disable : Trimming Ty → Ty → Trimmable Ty → Trimming Ty
  unfolding release_all
  disable t ty comp = record {
    components = erase ty t.components;
    dependents = release_all comp.dependencies t.dependents;
    disabled = insert ty comp t.disabled;
  }

  -- One round over the components, and whether it changed anything.
  unfoldable pub trim_round : List (Ty × Trimmable Ty) → Trimming Ty → Bool → Trimming Ty × Bool
  unfolding disable
  trim_round [] t has_change = (t, has_change)
  trim_round ((ty, comp) ∷ comps) t has_change =
      trim_round comps (if should_disable t ty comp then disable t ty comp else t)
        (if should_disable t ty comp then true else has_change)

  -- `none` is a loop that ran out of fuel.
  unfoldable pub trim_loop : ℕ → Trimming Ty → Option (Trimming Ty)
  unfolding trim_round
  trim_loop zero t = none
  trim_loop (suc fuel) t =
      let (t', has_change) = trim_round t.components t false in
      elim has_change [ true ↦ trim_loop fuel t' | false ↦ some t' ]

  unfoldable pub drop_from_list : Ty → Ty → Trimming Ty → Option (Trimming Ty)
  unfolding decrement
  drop_from_list ty list_ty t = elim (lookup list_ty t.components) [
    | none ↦ none
    | some list ↦
        let shorter = record list { dependencies = erase ty list.dependencies } in
        let dependents = or_zero (lookup ty t.dependents) in
        some (record t {
          components = insert list_ty shorter t.components;
          dependents = insert ty (decrement dependents) t.dependents;
        })
  ]

  -- The list is the only late dependent of its implementations; any other number panics.
  unfoldable pub remove_list_impl : List Ty → Ty → Trimmable Ty → Trimming Ty → Option (Trimming Ty)
  unfolding drop_from_list
  remove_list_impl [] ty comp t = none
  remove_list_impl (list_ty ∷ []) ty comp t =
      if is_false comp.enable_flag then drop_from_list ty list_ty t else some t
  remove_list_impl (list_ty ∷ another ∷ others) ty comp t = none

  -- The first loop: an implementation of a list whose flag is false leaves the list.
  unfoldable pub remove_list_impls :
      (Ty → List Ty) → List (Ty × Trimmable Ty) → Trimming Ty → Option (Trimming Ty)
  unfolding remove_list_impl
  remove_list_impls late_dependents_of [] t = some t
  remove_list_impls late_dependents_of ((ty, comp) ∷ comps) t =
      elim (if comp.is_list_impl
        then remove_list_impl (late_dependents_of ty) ty comp t
        else some t) [ none ↦ none | some t' ↦ remove_list_impls late_dependents_of comps t' ]

  abbrev pub is_mux_impl : Option (MuxImplBase Ty) → Bool
  is_mux_impl none = false
  is_mux_impl (some base) = true

  -- A disabled component that others depend on, which ends the process.
  unfoldable pub is_fatal : List (Ty × Trimmable Ty) → Map Ty ℕ → Bool
  is_fatal [] dependents = false
  is_fatal ((ty, comp) ∷ disabled) dependents =
      let rest = is_fatal disabled dependents in
      if is_mux_impl comp.mux_impl
      then rest
      else if ltb 0 (or_zero (lookup ty dependents))
      then true
      else rest

  -- What is left; `none` is a panic or the end of the process.
  unfoldable pub trim_disabled : (Ty → List Ty) → Trimming Ty → Option (Trimming Ty)
  unfolding remove_list_impls trim_loop is_fatal
  trim_disabled late_dependents_of t = elim (remove_list_impls late_dependents_of t.components t) [
    | none ↦ none
    | some listed ↦ elim (trim_loop (suc (length listed.components)) listed) [
      | none ↦ none
      | some t' ↦ if is_fatal t'.disabled t'.dependents then none else some t'
    ]
  ]
