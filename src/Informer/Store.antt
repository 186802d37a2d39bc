-- ===== src/Informer/Store.antt =====
-- pkg/util/informer/prepush_undelta_store.go: the store that a list/watch reflector writes to, and
-- that calls its owner back on each change.
pub mod Mirror
pub mod Follows
pub mod Runs
pub mod Filter
use kelemetry.Base.{
  ◌≡◌, ◌↔◌, Bool, true, false, ◌&&◌, List, [], ◌∷◌, ◌++◌, Option, none, some, arith, String,
  if◌then◌else◌, Eq, ◌==◌, string_eq,
}
use kelemetry.Base.Map.{Map, insert}
use kelemetry.Informer.SwapMap.{
  SwapResult, SwapResultKind, noop, add, remove, replace, swap, swap_map_replace,
}

pub record ObjectKey : Type 0 where
  pub namespace : String
  pub name : String

abbrev pub object_key_beq : ObjectKey → ObjectKey → Bool
object_key_beq a b = a.namespace == b.namespace && a.name == b.name

pub object_key_beq_iff : (a b : ObjectKey) → (object_key_beq a b ≡ true) ↔ (a ≡ b)
object_key_beq_iff a b =
    ground (arith, string_eq.beq_iff a.namespace b.namespace, string_eq.beq_iff a.name b.name)

instance abbrev pub object_key_eq : Eq ObjectKey
object_key_eq = record { beq = object_key_beq; beq_iff = object_key_beq_iff }

-- A call of the owner. The warning on an unexpected `noop` only logs, and is left out.
pub data Event {ℓ} (V : Type ℓ) : Type ℓ where
  on_add : V → Event V
  on_update : V → V → Event V
  on_delete : V → Event V
  on_post_replace : Event V

-- Which of the callbacks are set.
pub record Callbacks : Type 0 where
  pub has_add : Bool
  pub has_update : Bool
  pub has_delete : Bool
  pub has_post_replace : Bool

pub record Store {ℓ} (V : Type ℓ) : Type ℓ where
  pub object_filter : V → Bool
  pub callbacks : Callbacks
  pub objects : Map ObjectKey V

-- The two accessors of `metav1.Object`, which the objects of the cluster's client implement.
module _ {ℓ} {V : Type ℓ} (get_namespace get_name : V → String) where
  unfoldable pub object_key_of : V → ObjectKey
  object_key_of object = record { namespace = get_namespace object; name = get_name object }

  unfoldable pub new_store : (V → Bool) → Callbacks → Store V
  new_store object_filter callbacks = record {
    object_filter = object_filter;
    callbacks = callbacks;
    objects = [];
  }

  called : Bool → Event V → List (Event V)
  called set event = if set then event ∷ [] else []

  -- The `switch` on the kind; a value that the kind does not carry is not read.
  process_kind : Callbacks → SwapResultKind → Option V → Option V → List (Event V)
  process_kind c SwapResultKind.add old (some new) = called c.has_add (on_add new)
  process_kind c SwapResultKind.replace (some old) (some new) =
      called c.has_update (on_update old new)
  process_kind c SwapResultKind.remove (some old) new = called c.has_delete (on_delete old)
  process_kind c kind old new = []

  unfoldable pub process_swap_result : Callbacks → SwapResult V → List (Event V)
  unfolding process_kind called
  process_swap_result c swap = process_kind c swap.kind swap.old_value swap.new_value

  unfoldable pub set : Store V → V → Bool → Store V × List (Event V)
  set store obj is_delete =
      let (objects, swapped) =
        swap (object_key_of obj) (if is_delete then none else some obj) store.objects in
      if store.object_filter obj
      then (record store { objects = objects }, process_swap_result store.callbacks swapped)
      else (store, [])

  -- `Add` and `Update` are both `set(obj, false)`, and `Delete` is `set(obj, true)`.
  unfoldable pub key_values : Map ObjectKey V → List V → Map ObjectKey V
  key_values kv [] = kv
  key_values kv (value ∷ list) = key_values (insert (object_key_of value) value kv) list

  unfoldable pub process_all : Callbacks → Map ObjectKey (SwapResult V) → List (Event V)
  process_all c [] = []
  process_all c ((key, swapped) ∷ results) = process_swap_result c swapped ++ process_all c results

  unfoldable pub replace_all : Store V → List V → Store V × List (Event V)
  unfolding called
  replace_all store list =
      let (objects, results) = swap_map_replace store.objects (key_values [] list) (λ v. v) in
      (
        record store { objects = objects },
        process_all store.callbacks results
            ++ called store.callbacks.has_post_replace on_post_replace,
      )
