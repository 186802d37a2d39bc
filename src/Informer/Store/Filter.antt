-- ===== src/Informer/Store/Filter.antt =====
-- The filter of pkg/util/informer/prepush_undelta_store.go guards `set` and not `Replace`.
use kelemetry.Base.{◌≡◌, refl, ap, ◌∙◌, Bool, false, [], ◌∷◌, none, some, String}
use kelemetry.Base.Map.{IsMap, lookup, insert, has, lookup-cons_self}
use kelemetry.Informer.SwapMap.Replace.{fold_option, swap_map_replace_lem}
use kelemetry.Informer.Store.{object_key_eq, Store, object_key_of, set, key_values, replace_all}

module _ {ℓ} {V : Type ℓ} (get_namespace get_name : V → String) where
  -- An object that the filter refuses is neither stored, changed nor deleted by `set`, and no
  -- callback is made. Yet a `Replace` that lists it, alone, stores it.
  filter_guards_set_only :
      (s : Store V) (v : V) (is_delete : Bool)
      → IsMap s.objects
      → s.object_filter v ≡ false
      → (set get_namespace get_name s v is_delete ≡ (s, []))
        × (lookup
              (object_key_of get_namespace get_name v)
              (replace_all get_namespace get_name s (v ∷ [])).0.objects
            ≡ some v)
  unfolding set replace_all key_values insert has
  filter_guards_set_only s v is_delete u refused =
      let k = object_key_of get_namespace get_name v in
      let kv = key_values get_namespace get_name [] (v ∷ []) in
      (
        rw refused refl,
        (swap_map_replace_lem (λ w. w) s.objects kv u (refl, tt) k).0
            ∙ ap (λ o. fold_option o (λ w. some w) none) (lookup-cons_self k v []),
      )
