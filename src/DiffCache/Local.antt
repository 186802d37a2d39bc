-- ===== src/DiffCache/Local.antt =====
-- Patches of pkg/diff/cache/local/local.go: what is stored is fetched, until it is trimmed.
use kelemetry.Base.{
  ℕ, ◌≡◌, refl, sym, ap, subst, ◌∙◌, inl, inr, Bool, true, false, ◌&&◌, List, [], ◌∷◌, Option, none,
  some, String, if◌then◌else◌, ◌==◌, string_eq, Bool-cases,
}
use kelemetry.Base.Map.{Map, lookup, erase, IsMap, lookup-insert, lookup-erase, has-lookup}
use kelemetry.Aggregator.{Key, key_string}
use kelemetry.DiffCache.{
  Patch, Clusters, fetched, History, LocalCache, patches_of, version_or_empty, key_rv, store_at,
  local_store, fetch_at, local_fetch, is_old, removals, remove_all, do_trim,
}

abbrev has_key : String → List String → Bool
has_key k [] = false
has_key k (j ∷ keys) = if j == k then true else has_key k keys

module _ {ℓ κ} {D : Type ℓ} {S : Type κ} where
  fetch_at-store_at :
      (now : ℕ) (k j rv rv' : String) (patch : Patch D) (cache : LocalCache D S)
      → fetch_at j rv' (store_at now k rv patch cache)
        ≡ (if k == j && rv == rv' then some patch else fetch_at j rv' cache)
  unfolding fetch_at store_at patches_of
  fetch_at-store_at now k j rv rv' patch cache =
      ap (λ h. lookup rv' (patches_of h)) (lookup-insert k j _ cache.histories)
      ∙ elim (Bool-cases (k == j)) [
        | inl t ↦
            rw (t, (string_eq.beq_iff k j).0 t)
              (lookup-insert rv rv' patch (patches_of (lookup j cache.histories)))
        | inr t ↦ rw t refl
      ]

  store_chosen :
      (clusters : Clusters) (now : ℕ) (object : Key) (patch : Patch D) (rv : String)
      (cache : LocalCache D S)
      → key_rv clusters object patch.old_resource_version (some patch.new_resource_version)
        ≡ some rv
      → local_store clusters now object patch cache
        ≡ store_at now (key_string object) rv patch cache
  unfolding local_store version_or_empty
  store_chosen clusters now object patch rv cache chosen =
      ap (λ o. store_at now (key_string object) (version_or_empty o) patch cache) chosen

  fetch_chosen :
      (clusters : Clusters) (object : Key) (old_rv rv : String) (new_rv : Option String)
      (cache : LocalCache D S)
      → key_rv clusters object old_rv new_rv ≡ some rv
      → local_fetch clusters object old_rv new_rv cache
        ≡ fetched (fetch_at (key_string object) rv cache)
  unfolding local_fetch
  fetch_chosen clusters object old_rv rv new_rv cache chosen = rw (chosen, local_fetch) refl

  -- A fetch after a store of the same object, if both choose one resource version, gives the patch
  -- that was stored; any other fetch gives what it gave before.
  local_fetch-local_store :
      (clusters : Clusters) (now : ℕ) (object other : Key) (patch : Patch D)
      (old_rv rv stored_rv : String) (new_rv : Option String) (cache : LocalCache D S)
      → key_rv clusters object patch.old_resource_version (some patch.new_resource_version)
        ≡ some stored_rv
      → key_rv clusters other old_rv new_rv ≡ some rv
      → local_fetch clusters other old_rv new_rv (local_store clusters now object patch cache) ≡ (
          if key_string object == key_string other && stored_rv == rv
          then fetched (some patch)
          else local_fetch clusters other old_rv new_rv cache)
  local_fetch-local_store clusters now object other patch old_rv rv stored_rv new_rv cache stored
        chosen =
      ap (λ c. local_fetch clusters other old_rv new_rv c)
        (store_chosen clusters now object patch stored_rv cache stored)
      ∙ fetch_chosen clusters other old_rv rv new_rv _ chosen
      ∙ ap fetched
          (fetch_at-store_at now (key_string object) (key_string other) stored_rv rv patch cache)
      ∙ elim (Bool-cases (key_string object == key_string other && stored_rv == rv)) [
        | inl t ↦ rw t refl
        | inr t ↦ rw t (sym (fetch_chosen clusters other old_rv rv new_rv cache chosen))
      ]

just_old : (b : Bool) → (if b && true then true else false) ≡ b
just_old true = refl
just_old false = refl

never : (b c : Bool) → (if b && false then true else c) ≡ c
never true c = refl
never false c = refl

removed_here :
    (old same : Bool) (k j : String) (rest : List String)
    → (j == k) ≡ same
    → has_key k (if old then j ∷ rest else rest) ≡ (if old && same then true else has_key k rest)
removed_here true true k j rest t = rw t refl
removed_here true false k j rest t = rw t refl
removed_here false same k j rest t = refl

module _ {ℓ} {D : Type ℓ} where
  lookup-remove_all :
      (k : String) (keys : List String) (m : Map String (History D))
      → lookup k (remove_all keys m) ≡ (if has_key k keys then none else lookup k m)
  unfolding remove_all
  lookup-remove_all k [] m = refl
  lookup-remove_all k (j ∷ keys) m =
      lookup-remove_all k keys (erase j m) ∙ elim (Bool-cases (has_key k keys)) [
        | inl t ↦ rw t (elim (Bool-cases (j == k)) [ inl u ↦ rw u refl | inr u ↦ rw u refl ])
        | inr t ↦ rw t (
            lookup-erase j k m
            ∙ elim (Bool-cases (j == k)) [ inl u ↦ rw u refl | inr u ↦ rw u refl ])
      ]

  abbrev pub old_history : ℕ → ℕ → Option (History D) → Bool
  old_history expiry now none = false
  old_history expiry now (some history) = is_old expiry now history

  has_key-removals :
      (k : String) (expiry now : ℕ) (m : Map String (History D))
      → IsMap m
      → has_key k (removals expiry now m) ≡ old_history expiry now (lookup k m)
  unfolding removals lookup
  has_key-removals k expiry now [] u = refl
  has_key-removals k expiry now ((j, h) ∷ m) u =
      let later = has_key-removals k expiry now m u.1 in
      elim (Bool-cases (j == k)) [
        | inl t ↦
            let nothing : lookup k m ≡ none =
              subst (λ i. lookup i m ≡ none) ((string_eq.beq_iff j k).0 t)
                ((has-lookup j m).0 u.0) in
            removed_here (is_old expiry now h) true k j (removals expiry now m) t
            ∙ ap (λ b. if is_old expiry now h && true then true else b)
                (later ∙ ap (old_history expiry now) nothing)
            ∙ rw t (just_old (is_old expiry now h))
        | inr t ↦
            removed_here (is_old expiry now h) false k j (removals expiry now m) t
            ∙ rw t (never (is_old expiry now h) (has_key k (removals expiry now m)) ∙ later)
      ]

module _ {ℓ κ} {D : Type ℓ} {S : Type κ} where
  -- Trimming removes the histories that have not been written for longer than the expiry, and no
  -- other.
  pub lookup-do_trim :
      (expiry now : ℕ) (k : String) (cache : LocalCache D S)
      → IsMap cache.histories
      → lookup k (do_trim expiry now cache).histories ≡ (
          if old_history expiry now (lookup k cache.histories)
          then none
          else lookup k cache.histories)
  unfolding do_trim
  lookup-do_trim expiry now k cache u =
      lookup-remove_all k (removals expiry now cache.histories) cache.histories
      ∙ ap (λ b. if b then none else lookup k cache.histories)
          (has_key-removals k expiry now cache.histories u)
