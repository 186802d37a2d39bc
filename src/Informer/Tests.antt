-- ===== src/Informer/Tests.antt =====
-- Runs of the swap map and of the store of pkg/util/informer on small inputs.
use kelemetry.Base.{ℕ, ◌*◌, ◌≡◌, refl, true, false, List, [], ◌∷◌, none, some, String, nat_eq}
use kelemetry.Base.Map.{erase, insert, Map, IsMap, lookup, has}
use kelemetry.Informer.SwapMap.{swap, swap_map_replace}
use kelemetry.Informer.SwapMap.Replace.{fold_option, replace_answer, swap_map_replace_lem}
use kelemetry.Informer.Store.{
  key_values, process_all, process_swap_result, object_key_eq, on_add, on_update, on_delete,
  on_post_replace, Callbacks, Store, object_key_of, new_store, set, replace_all,
}
use kelemetry.Informer.Store.Mirror.{Listens, apply_all}
use kelemetry.Informer.Store.Follows.{Keyed, Agree}
use kelemetry.Informer.Store.Runs.{Call, upsert, delete, relist, run, callbacks_mirror_store}

abbrev two_entries : Map ℕ ℕ
two_entries = (1, 10) ∷ (2, 20) ∷ []

abbrev new_entries : Map ℕ ℕ
new_entries = (2, 5) ∷ (3, 6) ∷ []

abbrev two_entries-IsMap : IsMap two_entries
unfolding has
two_entries-IsMap = (refl, (refl, tt))

abbrev new_entries-IsMap : IsMap new_entries
unfolding has
new_entries-IsMap = (refl, (refl, tt))

swap_map_replace_lem_example :
    (lookup 2 (swap_map_replace two_entries new_entries (λ u. u * 7)).0
      ≡ fold_option (lookup 2 new_entries) (λ u. some (u * 7)) none)
    × (lookup 2 (swap_map_replace two_entries new_entries (λ u. u * 7)).1
        ≡ replace_answer (λ u. u * 7) (lookup 2 two_entries) (lookup 2 new_entries))
swap_map_replace_lem_example =
    swap_map_replace_lem (λ u. u * 7) two_entries new_entries two_entries-IsMap new_entries-IsMap 2

-- An object with a namespace, a name and a version.
record Pod : Type 0 where
  namespace : String
  name : String
  version : ℕ

abbrev namespace_of : Pod → String
namespace_of p = p.namespace

abbrev name_of : Pod → String
name_of p = p.name

abbrev web : ℕ → Pod
web n = record { namespace = "default"; name = "web"; version = n }

abbrev db : Pod
db = record { namespace = "default"; name = "db"; version = 1 }

abbrev all_callbacks : Callbacks
all_callbacks = record {
  has_add = true;
  has_update = true;
  has_delete = true;
  has_post_replace = true;
}

abbrev all_callbacks-Listens : Listens all_callbacks
all_callbacks-Listens = record { adds = refl; updates = refl; deletes = refl }

abbrev calls : List (Call Pod)
calls = upsert (web 1) ∷ upsert (web 2) ∷ upsert db ∷ delete (web 2) ∷ relist (web 3 ∷ []) ∷ []

abbrev open_store : Store Pod
open_store = new_store namespace_of name_of (λ _. true) all_callbacks

told :
    (run namespace_of name_of open_store calls).1
    ≡ on_add (web 1)
      ∷ on_update (web 1) (web 2)
      ∷ on_add db
      ∷ on_delete (web 2)
      ∷ on_delete db
      ∷ on_add (web 3)
      ∷ on_post_replace
      ∷ []
unfolding run new_store set replace_all process_swap_result swap lookup insert object_key_of
    process_all swap_map_replace key_values erase has
told = refl

callbacks_mirror_store_example :
    Agree namespace_of name_of
      (apply_all namespace_of name_of (run namespace_of name_of open_store calls).1 [])
      (run namespace_of name_of open_store calls).0.objects
    × Keyed namespace_of name_of (run namespace_of name_of open_store calls).0.objects
callbacks_mirror_store_example =
    callbacks_mirror_store namespace_of name_of (λ _. true) all_callbacks calls
      all_callbacks-Listens

abbrev closed_store : Store Pod
closed_store = record { object_filter = λ _. false; callbacks = all_callbacks; objects = [] }
