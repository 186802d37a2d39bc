-- ===== src/Informer/Store/Mirror.antt =====
-- The callbacks of pkg/util/informer/prepush_undelta_store.go tell the whole story: an owner that
-- applies them to a map of its own holds what the store holds.
use kelemetry.Base.{
  ◌≡◌, refl, ap, subst, ◌∙◌, inl, inr, true, false, List, [], ◌∷◌, ◌++◌, Option, none, some, String,
  if◌then◌else◌, ◌==◌, beq_sym_false, Bool-cases,
}
use kelemetry.Base.Map.{
  Map, IsMap, lookup, insert, erase, has, lookup-insert, lookup-erase, has-lookup, has-cons,
}
use kelemetry.Informer.SwapMap.{SwapResult}
use kelemetry.Informer.SwapMap.Laws.{answer}
use kelemetry.Informer.SwapMap.Replace.{fold_option}
use kelemetry.Informer.Store.{
  ObjectKey, object_key_eq, Event, on_add, on_update, on_delete, on_post_replace, Callbacks,
  object_key_of, process_swap_result, process_all,
}

-- The owner listens to every change.
pub record Listens (c : Callbacks) : Type 0 where
  pub adds : c.has_add ≡ true
  pub updates : c.has_update ≡ true
  pub deletes : c.has_delete ≡ true

module _ {ℓ} {V : Type ℓ} (get_namespace get_name : V → String) where
  abbrev pub key : V → ObjectKey
  key = object_key_of get_namespace get_name

  -- What the owner does on a call.
  unfoldable pub apply_event : Event V → Map ObjectKey V → Map ObjectKey V
  apply_event (on_add new) m = insert (key new) new m
  apply_event (on_update old new) m = insert (key new) new m
  apply_event (on_delete old) m = erase (key old) m
  apply_event on_post_replace m = m

  unfoldable pub apply_all : List (Event V) → Map ObjectKey V → Map ObjectKey V
  apply_all [] m = m
  apply_all (event ∷ events) m = apply_all events (apply_event event m)

  pub apply_all-append :
      (xs ys : List (Event V)) (m : Map ObjectKey V)
      → apply_all (xs ++ ys) m ≡ apply_all ys (apply_all xs m)
  unfolding apply_all
  apply_all-append [] ys m = refl
  apply_all-append (x ∷ xs) ys m = apply_all-append xs ys (apply_event x m)

  abbrev pub At : ObjectKey → Option V → Type ℓ
  At k o = (v : V) → o ≡ some v → key v ≡ k

  -- The call for one change brings the owner's map along.
  pub lookup-answer :
      (c : Callbacks) (k j : ObjectKey) (o n : Option V) (m : Map ObjectKey V)
      → Listens c
      → At k o
      → At k n
      → lookup k m ≡ o
      → lookup j (apply_all (process_swap_result get_namespace get_name c (answer o n)) m)
        ≡ (if k == j then n else lookup j m)
  unfolding apply_all apply_event process_swap_result
  lookup-answer c k j none none m l ho hn e = elim (Bool-cases (k == j)) [
    | inl t ↦ rw t (subst (λ i. lookup i m ≡ none) ((object_key_eq.beq_iff k j).0 t) e)
    | inr t ↦ rw t refl
  ]
  lookup-answer c k j none (some w) m l ho hn e = rw (l.adds, hn w refl) (lookup-insert k j w m)
  lookup-answer c k j (some v) none m l ho hn e = rw (l.deletes, ho v refl) (lookup-erase k j m)
  lookup-answer c k j (some v) (some w) m l ho hn e =
      rw (l.updates, hn w refl) (lookup-insert k j w m)

  -- The answers of a replacement, each right about its own key, applied one after the other.
  abbrev pub Right : Map ObjectKey V → ObjectKey → SwapResult V → Type ℓ
  Right m k r =
      (o : Option V) × (n : Option V) × (r ≡ answer o n) × (lookup k m ≡ o) × At k o × At k n

  abbrev pub AllRight : Map ObjectKey V → Map ObjectKey (SwapResult V) → Type ℓ
  AllRight m [] = Unit
  AllRight m ((k, r) ∷ results) = Right m k r × AllRight m results

  -- A change at a key that the answers do not name leaves them right.
  AllRight-stable :
      (m m' : Map ObjectKey V) (k : ObjectKey) (results : Map ObjectKey (SwapResult V))
      → has k results ≡ false
      → ((j : ObjectKey) → (k == j) ≡ false → lookup j m' ≡ lookup j m)
      → AllRight m results
      → AllRight m' results
  AllRight-stable m m' k [] h same r = tt
  AllRight-stable m m' k ((j, r) ∷ results) h same (right, rights) =
      let (o, n, e, at, ho, hn) = right in
      let (other, rest) = has-cons k j r results h in
      (
        (o, n, e, same j (beq_sym_false j k other) ∙ at, ho, hn),
        AllRight-stable m m' k results rest same rights,
      )

  new_value-answer : (o n : Option V) → (answer o n).new_value ≡ n
  new_value-answer none none = refl
  new_value-answer none (some n) = refl
  new_value-answer (some o) none = refl
  new_value-answer (some o) (some n) = refl

  lookup-Right :
      (c : Callbacks) (k j : ObjectKey) (r : SwapResult V) (m : Map ObjectKey V)
      → Listens c
      → Right m k r
      → lookup j (apply_all (process_swap_result get_namespace get_name c r) m)
        ≡ (if k == j then r.new_value else lookup j m)
  lookup-Right c k j r m l (o, n, e, at, ho, hn) =
      rw e (rw (new_value-answer o n) (lookup-answer c k j o n m l ho hn at))

  pub lookup-process_all :
      (c : Callbacks) (j : ObjectKey) (results : Map ObjectKey (SwapResult V)) (m : Map ObjectKey V)
      → Listens c
      → IsMap results
      → AllRight m results
      → lookup j (apply_all (process_all get_namespace get_name c results) m)
        ≡ fold_option (lookup j results) (λ r. r.new_value) (lookup j m)
  unfolding process_all lookup apply_all
  lookup-process_all c j [] m l u rights = refl
  lookup-process_all c j ((k, r) ∷ results) m l u (right, rights) =
      let told = process_swap_result get_namespace get_name c r in
      let m' = apply_all told m in
      let moves = λ (i : ObjectKey). lookup-Right c k i r m l right in
      let still = AllRight-stable m m' k results u.0 (λ i ne. moves i ∙ rw ne refl) rights in
      ap (lookup j) (apply_all-append told (process_all get_namespace get_name c results) m)
      ∙ lookup-process_all c j results m' l u.1 still
      ∙ rw (moves j) (elim (Bool-cases (k == j)) [
        | inl t ↦
            let gone = (has-lookup k results).0 u.0 in
            rw (t, subst (λ i. lookup i results ≡ none) ((object_key_eq.beq_iff k j).0 t) gone) refl
        | inr t ↦ rw t refl
      ])
