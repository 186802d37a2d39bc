-- ===== src/Informer/Store/Follows.antt =====
-- One call on the store of pkg/util/informer/prepush_undelta_store.go, and an owner that follows it.
use kelemetry.Base.{
  ◌≡◌, refl, sym, ap, subst, ◌∙◌, inl, inr, List, [], ◌∷◌, Option, none, some, String,
  if◌then◌else◌, ◌==◌, Bool-cases,
}
use kelemetry.Base.Map.{
  Map, IsMap, lookup, insert, lookup-insert, insert-IsMap, lookup-cons_self, lookup-cons_of_lookup,
}
use kelemetry.Informer.SwapMap.{SwapResult, swap, swap_map_replace}
use kelemetry.Informer.SwapMap.Laws.{answer, swap_lem}
use kelemetry.Informer.SwapMap.Replace.{
  fold_option, replace_answer, swap_map_replace_lem, swap_map_replace-IsMap,
}
use kelemetry.Informer.Store.{
  ObjectKey, object_key_eq, Event, Store, process_swap_result, key_values, process_all,
}
use kelemetry.Informer.Store.Mirror.{
  key, At, AllRight, Listens, apply_all, lookup-answer, lookup-process_all,
}

module _ {ℓ} {V : Type ℓ} (get_namespace get_name : V → String) where
  -- Every object stands under its own key, and each key once.
  pub record Keyed (m : Map ObjectKey V) : Type ℓ where
    pub is_map : IsMap m
    pub own_key : (k : ObjectKey) → At get_namespace get_name k (lookup k m)

  abbrev pub Agree : Map ObjectKey V → Map ObjectKey V → Type ℓ
  Agree m m' = (k : ObjectKey) → lookup k m ≡ lookup k m'

  -- The owner's map, the store before, and a call: both are alike after it.
  pub record Follows (mirror : Map ObjectKey V) (told : List (Event V)) (s : Store V) : Type ℓ where
    pub agree : Agree (apply_all get_namespace get_name told mirror) s.objects
    pub keyed : Keyed s.objects
    pub listens : Listens s.callbacks

  At-if :
      (k j : ObjectKey) (n o : Option V)
      → At get_namespace get_name k n
      → At get_namespace get_name j o
      → At get_namespace get_name j (if k == j then n else o)
  At-if k j n o hn ho = elim (Bool-cases (k == j)) [
    | inl t ↦ rw t (subst (λ i. At get_namespace get_name i n) ((object_key_eq.beq_iff k j).0 t) hn)
    | inr t ↦ rw t ho
  ]

  -- `set` on an object that passes the filter.
  pub swap-Follows :
      (s : Store V) (mirror : Map ObjectKey V) (k : ObjectKey) (n : Option V)
      → Listens s.callbacks
      → Keyed s.objects
      → Agree mirror s.objects
      → At get_namespace get_name k n
      → Follows mirror
          (process_swap_result get_namespace get_name s.callbacks (swap k n s.objects).1)
          (record s { objects = (swap k n s.objects).0 })
  swap-Follows s mirror k n l v same hn =
      let (sets, tells, keeps) = swap_lem k n s.objects in
      let o = lookup k s.objects in
      record {
        agree = λ j.
            ap
              (λ r. lookup j (
                apply_all get_namespace get_name
                  (process_swap_result get_namespace get_name s.callbacks r) mirror))
              tells
            ∙ lookup-answer get_namespace get_name s.callbacks k j o n mirror l (v.own_key k) hn
                (same k)
            ∙ ap (λ x. if k == j then n else x) (same j)
            ∙ sym (sets j);
        keyed = record {
          is_map = keeps v.is_map;
          own_key = λ j.
              subst (At get_namespace get_name j) (sym (sets j))
                (At-if k j n (lookup j s.objects) hn (v.own_key j));
        };
        listens = l;
      }

  pub key_values-Keyed :
      (list : List V) (kv : Map ObjectKey V)
      → Keyed kv
      → Keyed (key_values get_namespace get_name kv list)
  unfolding key_values
  key_values-Keyed [] kv h = h
  key_values-Keyed (v ∷ list) kv h =
      key_values-Keyed list (insert (key get_namespace get_name v) v kv) (record {
        is_map = insert-IsMap _ v kv h.is_map;
        own_key = λ j. subst (At get_namespace get_name j) (sym (lookup-insert _ j v kv)) (
            At-if (key get_namespace get_name v) j (some v) (lookup j kv)
              (λ w e. let same : w ≡ v = cc in ap (key get_namespace get_name) same) (h.own_key j));
      })

  replace_answer-inv :
      (o n : Option V) (r : SwapResult V) → replace_answer (λ v. v) o n ≡ some r → r ≡ answer o n
  replace_answer-inv none none r h = absurd (cc)
  replace_answer-inv (some o) none r h = cc
  replace_answer-inv none (some n) r h = cc
  replace_answer-inv (some o) (some n) r h = cc

  -- The answers of a replacement are right about an owner's map that agrees with the store.
  replace-AllRight :
      (m kv mirror : Map ObjectKey V) (results : Map ObjectKey (SwapResult V))
      → Keyed m
      → Keyed kv
      → Agree mirror m
      → IsMap results
      → ((j : ObjectKey) (r : SwapResult V)
          → lookup j results ≡ some r
          → replace_answer (λ v. v) (lookup j m) (lookup j kv) ≡ some r)
      → AllRight get_namespace get_name mirror results
  replace-AllRight m kv mirror [] vm vk same u tells = tt
  replace-AllRight m kv mirror ((k, r) ∷ results) vm vk same u tells =
      let e = tells k r (lookup-cons_self k r results) in
      (
        (
          lookup k m,
          lookup k kv,
          replace_answer-inv (lookup k m) (lookup k kv) r e,
          same k,
          vm.own_key k,
          vk.own_key k,
        ),
        replace-AllRight m kv mirror results vm vk same u.1
            (λ j w h. tells j w (lookup-cons_of_lookup k j r w results u.0 h)),
      )

  replaced_value :
      (o n : Option V)
      → fold_option (replace_answer (λ v. v) o n) (λ r. r.new_value) o
        ≡ fold_option n (λ v. some v) none
  replaced_value none none = refl
  replaced_value (some o) none = refl
  replaced_value none (some n) = refl
  replaced_value (some o) (some n) = refl

  At-kept :
      (k : ObjectKey) (n : Option V)
      → At get_namespace get_name k n
      → At get_namespace get_name k (fold_option n (λ v. some v) none)
  At-kept k none h = h
  At-kept k (some v) h = h

  -- `Replace` on any list, which need not agree with anything.
  pub replace_objects-Follows :
      (s : Store V) (mirror : Map ObjectKey V) (kv : Map ObjectKey V)
      → Listens s.callbacks
      → Keyed s.objects
      → Agree mirror s.objects
      → Keyed kv
      → Follows mirror
          (process_all get_namespace get_name s.callbacks
            (swap_map_replace s.objects kv (λ v. v)).1)
          (record s { objects = (swap_map_replace s.objects kv (λ v. v)).0 })
  replace_objects-Follows s mirror kv l v same vk =
      let results = (swap_map_replace s.objects kv (λ v. v)).1 in
      let (map_after, map_results) = swap_map_replace-IsMap (λ v. v) s.objects kv v.is_map in
      let leaves = swap_map_replace_lem (λ v. v) s.objects kv v.is_map vk.is_map in
      let rights =
        replace-AllRight s.objects kv mirror results v vk same map_results
          (λ j r h. sym (leaves j).1 ∙ h) in
      record {
        agree = λ j.
            lookup-process_all get_namespace get_name s.callbacks j results mirror l map_results
              rights
            ∙ rw ((leaves j).1, same j) (replaced_value (lookup j s.objects) (lookup j kv))
            ∙ sym (leaves j).0;
        keyed = record {
          is_map = map_after;
          own_key = λ j.
              subst (At get_namespace get_name j) (sym (leaves j).0)
                (At-kept j (lookup j kv) (vk.own_key j));
        };
        listens = l;
      }

  pub empty-Keyed : Keyed []
  unfolding lookup
  empty-Keyed = record { is_map = tt; own_key = λ k v h. absurd (cc) }
