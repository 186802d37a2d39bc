-- ===== src/SpanCache/Trim.antt =====
-- `Trim` of pkg/aggregator/spancache/local/local.go deletes what has expired, and that only.
use kelemetry.Base.{
  ℕ, ◌≡◌, refl, ◌∙◌, Bool, false, List, [], ◌∷◌, Option, none, some, arith, String, if◌then◌else◌,
  Eq, string_eq,
}
use kelemetry.Base.Map.{Map, IsMap, lookup, lookup-erase, has-lookup}
use kelemetry.SpanCache.{LocalEntry, Local, stale, trim_entries, trim}

module _ {ℓ κ} {V : Type ℓ} {U : Type κ} ⦃e : Eq U⦄ where
  -- Whether a key has an entry that has expired.
  abbrev pub doomed : List (LocalEntry V U) → ℕ → Option ℕ → Bool
  doomed heap now none = false
  doomed heap now (some pointer) = stale heap now pointer

  lookup-trim_entries :
      (heap : List (LocalEntry V U)) (now : ℕ) (j : String) (visited entries : Map String ℕ)
      → IsMap visited
      → lookup j (trim_entries heap now visited entries)
        ≡ (if doomed heap now (lookup j visited) then none else lookup j entries)
  unfolding trim_entries lookup
  lookup-trim_entries heap now j [] entries u = refl
  lookup-trim_entries heap now j ((k, p) ∷ visited) entries u =
      lookup-trim_entries heap now j visited _ u.1
      ∙ ground (arith, lookup-erase k j entries, string_eq.beq_iff k j, has-lookup k visited, u.0)

  -- A trim, on a cache in which each key stands once, deletes the keys whose entry has expired, and
  -- leaves every other key with its entry.
  pub lookup-trim :
      (c : Local V U) (now : ℕ) (j : String)
      → IsMap c.entries
      → lookup j (trim c now).entries
        ≡ (if doomed c.heap now (lookup j c.entries) then none else lookup j c.entries)
  unfolding trim
  lookup-trim c now j u = lookup-trim_entries c.heap now j c.entries c.entries u
