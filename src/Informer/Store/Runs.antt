-- ===== src/Informer/Store/Runs.antt =====
-- The calls that a reflector makes on the store of pkg/util/informer/prepush_undelta_store.go, in
-- any sequence, and what an owner that listens to all changes holds after them.
use kelemetry.Base.{
  ◌≡◌, refl, ap, ◌∙◌, inl, inr, Bool, true, false, List, [], ◌∷◌, ◌++◌, none, some, String,
  Bool-cases,
}
use kelemetry.Base.Map.{Map, lookup}
use kelemetry.Informer.SwapMap.{swap_map_replace}
use kelemetry.Informer.Store.{
  ObjectKey, object_key_eq, Event, on_post_replace, Callbacks, Store, new_store, called, set,
  key_values, process_all, replace_all,
}
use kelemetry.Informer.Store.Mirror.{key, Listens, apply_event, apply_all, apply_all-append}
use kelemetry.Informer.Store.Follows.{
  Keyed, Agree, Follows, swap-Follows, key_values-Keyed, replace_objects-Follows, empty-Keyed,
}

-- `Add` and `Update`, `Delete`, and `Replace` with the listed objects.
pub data Call {ℓ} (V : Type ℓ) : Type ℓ where
  upsert delete : V → Call V
  relist : List V → Call V

module _ {ℓ} {V : Type ℓ} (get_namespace get_name : V → String) where
  unfoldable pub step : Store V → Call V → Store V × List (Event V)
  step s (upsert v) = set get_namespace get_name s v false
  step s (delete v) = set get_namespace get_name s v true
  step s (relist vs) = replace_all get_namespace get_name s vs

  unfoldable pub run : Store V → List (Call V) → Store V × List (Event V)
  unfolding step
  run s [] = (s, [])
  run s (c ∷ cs) = let (t, told) = step s c in let (u, later) = run t cs in (u, told ++ later)

  apply_all-called :
      (set : Bool) (m : Map ObjectKey V)
      → apply_all get_namespace get_name (called get_namespace get_name set on_post_replace) m ≡ m
  unfolding called apply_all apply_event
  apply_all-called true m = refl
  apply_all-called false m = refl

  step-Follows :
      (s : Store V) (mirror : Map ObjectKey V) (c : Call V)
      → Listens s.callbacks
      → Keyed get_namespace get_name s.objects
      → Agree get_namespace get_name mirror s.objects
      → Follows get_namespace get_name mirror (step s c).1 (step s c).0
  unfolding step set replace_all apply_all
  step-Follows s mirror (upsert v) l k same = elim (Bool-cases (s.object_filter v)) [
    | inl t ↦ rw t (
        swap-Follows get_namespace get_name s mirror (key get_namespace get_name v) (some v) l k
          same (λ w e. let it : w ≡ v = cc in ap (key get_namespace get_name) it))
    | inr t ↦ rw t (record { agree = same; keyed = k; listens = l })
  ]
  step-Follows s mirror (delete v) l k same = elim (Bool-cases (s.object_filter v)) [
    | inl t ↦ rw t (
        swap-Follows get_namespace get_name s mirror (key get_namespace get_name v) none l k same
          (λ w e. absurd (cc)))
    | inr t ↦ rw t (record { agree = same; keyed = k; listens = l })
  ]
  step-Follows s mirror (relist vs) l k same =
      let kv = key_values get_namespace get_name [] vs in
      let f =
        replace_objects-Follows get_namespace get_name s mirror kv l k same
          (key_values-Keyed get_namespace get_name vs [] (empty-Keyed get_namespace get_name)) in
      record {
        agree = λ j.
            ap (lookup j) (
              apply_all-append get_namespace get_name
                (process_all get_namespace get_name s.callbacks
                  (swap_map_replace s.objects kv (λ v. v)).1)
                (called get_namespace get_name s.callbacks.has_post_replace on_post_replace) mirror
              ∙ apply_all-called s.callbacks.has_post_replace _)
            ∙ f.agree j;
        keyed = f.keyed;
        listens = l;
      }

  run-Follows :
      (s : Store V) (mirror : Map ObjectKey V) (cs : List (Call V))
      → Listens s.callbacks
      → Keyed get_namespace get_name s.objects
      → Agree get_namespace get_name mirror s.objects
      → Follows get_namespace get_name mirror (run s cs).1 (run s cs).0
  unfolding run apply_all
  run-Follows s mirror [] l k same = record { agree = same; keyed = k; listens = l }
  run-Follows s mirror (c ∷ cs) l k same =
      let told = (step s c).1 in
      let now = step-Follows s mirror c l k same in
      let after =
        run-Follows (step s c).0 (apply_all get_namespace get_name told mirror) cs now.listens
          now.keyed now.agree in
      record {
        agree = λ j.
            ap (lookup j)
              (apply_all-append get_namespace get_name told (run (step s c).0 cs).1 mirror)
            ∙ after.agree j;
        keyed = after.keyed;
        listens = after.listens;
      }

  -- After any calls on a new store, an owner that listens to every change and applies the callbacks
  -- in turn to an empty map holds under each key what the store holds, and that is an object of
  -- this key.
  pub callbacks_mirror_store :
      (object_filter : V → Bool) (callbacks : Callbacks) (cs : List (Call V))
      → Listens callbacks
      → Agree get_namespace get_name
          (apply_all get_namespace get_name
            (run (new_store get_namespace get_name object_filter callbacks) cs).1
            [])
          (run (new_store get_namespace get_name object_filter callbacks) cs).0.objects
        × Keyed get_namespace get_name
            (run (new_store get_namespace get_name object_filter callbacks) cs).0.objects
  unfolding new_store
  callbacks_mirror_store object_filter callbacks cs l =
      let f =
        run-Follows (new_store get_namespace get_name object_filter callbacks) [] cs l
          (empty-Keyed get_namespace get_name) (λ k. refl) in
      (f.agree, f.keyed)
