-- ===== src/Merge/Components/Collected.antt =====
-- The components that `findConnectedComponents` of pkg/frontend/reader/merge/merge.go answers.
use kelemetry.Base.{
  ℕ, zero, suc, ◌<◌, ◌≡◌, refl, sym, ap, subst, ◌∙◌, ◌↔◌, inl, inr, Bool, true, false, ◌&&◌, ◌||◌,
  List, [], ◌∷◌, ◌++◌, none, some, arith, ◌==◌, length, Bool-cases, get_elem?, set, replicate,
  length-set, get_elem?-some, get_elem?-lt, get_elem?-set_self, get_elem?-set_other,
  length-replicate, nat_eq, nat_beq_iff,
}
use kelemetry.Base.Map.{Map, lookup, has-lookup, IsMap, lookup-cons_self, lookup-cons_of_lookup}
use kelemetry.Aggregator.{Key}
use kelemetry.Merge.{key_eq}
use kelemetry.Merge.Components.{append_at, collect}

abbrev pub mem : Key → List Key → Bool
mem k [] = false
mem k (j ∷ keys) = (j == k) || mem k keys

mem-append : (k j : Key) (keys : List Key) → mem k (keys ++ j ∷ []) ≡ (mem k keys || (j == k))
mem-append k j [] = ground arith
mem-append k j (i ∷ keys) = ground (arith, mem-append k j keys)

regroup : (a b c : Bool) → ((a || b) || c) ≡ (a || ((b && true) || c))
regroup true b c = refl
regroup false true c = refl
regroup false false c = refl

drop_false : (a b c : Bool) → (a || c) ≡ (a || ((b && false) || c))
drop_false true b c = refl
drop_false false true c = refl
drop_false false false c = refl

-- A pair of a key and its colour stands in the map.
abbrev stands : Key → ℕ → Map Key ℕ → Bool
stands k i [] = false
stands k i ((j, c) ∷ taints) = ((j == k) && (c == i)) || stands k i taints

only_first :
    (c i : ℕ) (later : Bool) → later ≡ false → (((c == i) || later) ≡ true) ↔ (some c ≡ some i)
only_first c i later h = ground (arith, nat_beq_iff c i)

stands-lookup :
    (k : Key) (i : ℕ) (taints : Map Key ℕ)
    → IsMap taints
    → (stands k i taints ≡ true) ↔ (lookup k taints ≡ some i)
unfolding lookup
stands-lookup k i [] m = (λ h. absurd (cc), λ h. absurd (cc))
stands-lookup k i ((j, c) ∷ taints) m = elim (Bool-cases (j == k)) [
  | inl same ↦
      let nothing : lookup k taints ≡ none =
        subst (λ u. lookup u taints ≡ none) ((key_eq.beq_iff j k).0 same)
          ((has-lookup j taints).0 m.0) in
      rw same
        (only_first c i (stands k i taints) (ground (arith, stands-lookup k i taints m.1, nothing)))
  | inr other ↦ rw other (stands-lookup k i taints m.1)
]

abbrev Below : ℕ → Map Key ℕ → Type 0
Below n [] = Unit
Below n ((k, i) ∷ taints) = (i < n) × Below n taints

Below-lookup :
    (n : ℕ) (taints : Map Key ℕ)
    → IsMap taints
    → ((k : Key) (i : ℕ) → lookup k taints ≡ some i → i < n)
    → Below n taints
Below-lookup n [] m h = tt
Below-lookup n ((k, i) ∷ taints) m h = (
  h k i (lookup-cons_self k i taints),
  Below-lookup n taints m.1 (λ j c there. h j c (lookup-cons_of_lookup k j i c taints m.0 there)),
)

-- Each component grew by the keys of its colour.
abbrev Grown : Map Key ℕ → List (List Key) → List (List Key) → Type 0
Grown taints components out =
    (i : ℕ) (component : List Key)
    → get_elem? components i ≡ some component
    → (grown : List Key) × (get_elem? out i ≡ some grown)
      × ((k : Key) → mem k grown ≡ (mem k component || stands k i taints))

Grown-cons :
    (key : Key) (c : ℕ) (old : List Key) (taints : Map Key ℕ) (components out : List (List Key))
    → get_elem? components c ≡ some old
    → Grown taints (set components c (old ++ key ∷ [])) out
    → Grown ((key, c) ∷ taints) components out
Grown-cons key c old taints components out at g i component h = elim (Bool-cases (c == i)) [
  | inl same ↦
      let c_i : c ≡ i = (nat_beq_iff c i).0 same in
      let now : get_elem? (set components c (old ++ key ∷ [])) i ≡ some (old ++ key ∷ []) =
        subst (λ j. get_elem? (set components c (old ++ key ∷ [])) j ≡ some (old ++ key ∷ [])) c_i
          (get_elem?-set_self components c (old ++ key ∷ []) (get_elem?-lt components c old at)) in
      let at_i : get_elem? components i ≡ some old =
        subst (λ j. get_elem? components j ≡ some old) c_i at in
      let old_component : old ≡ component = cc in
      let r = g i (old ++ key ∷ []) now in
      (
        r.0,
        r.1,
        λ k.
            r.2 k
            ∙ rw (mem-append k key old, old_component, same)
                (regroup (mem k component) (key == k) (stands k i taints)),
      )
  | inr other ↦
      let r = g i component (
        get_elem?-set_other components c i (old ++ key ∷ []) (λ e. ground (arith, nat_beq_iff c i))
        ∙ h) in
      (
        r.0,
        r.1,
        λ k. r.2 k ∙ rw other (drop_false (mem k component) (key == k) (stands k i taints)),
      )
]

collect-Grown :
    (taints : Map Key ℕ) (components : List (List Key))
    → Below (length components) taints
    → (out : List (List Key)) × (collect taints components ≡ some out)
      × (length out ≡ length components)
      × Grown taints components out
unfolding collect append_at
collect-Grown [] components b =
    (components, refl, refl, λ i component h. (component, h, λ k. ground arith))
collect-Grown ((key, c) ∷ taints) components b =
    let old = get_elem?-some components c b.0 in
    let grown : List (List Key) = set components c (old.0 ++ key ∷ []) in
    let rest =
      collect-Grown taints grown
        (subst (λ n. Below n taints) (sym (length-set components c (old.0 ++ key ∷ []))) b.1) in
    (
      rest.0,
      rw (old.1, collect) rest.1,
      rest.2 ∙ length-set components c (old.0 ++ key ∷ []),
      Grown-cons key c old.0 taints components rest.0 old.1 rest.3,
    )

-- A key stands in the component with this index.
abbrev pub InComponent : List (List Key) → ℕ → Key → Type 0
InComponent components i k =
    (component : List Key) × (get_elem? components i ≡ some component) × (mem k component ≡ true)

get_elem?-replicate :
    (n i : ℕ) (component : List Key)
    → get_elem? (replicate n []) i ≡ some component
    → component ≡ []
get_elem?-replicate zero i component h = absurd (cc)
get_elem?-replicate (suc n) zero component h = cc
get_elem?-replicate (suc n) (suc i) component h = get_elem?-replicate n i component h

-- The components are the colours.
abbrev pub ByColour : Map Key ℕ → List (List Key) → Type 0
ByColour taints out = (i : ℕ) (k : Key) → InComponent out i k ↔ (lookup k taints ≡ some i)

-- A component that began empty holds the keys of its colour.
Grown-lookup :
    (n i : ℕ) (taints : Map Key ℕ) (out : List (List Key))
    → IsMap taints
    → Grown taints (replicate n []) out
    → i < n
    → (k : Key) → InComponent out i k ↔ (lookup k taints ≡ some i)
Grown-lookup n i taints out m grown small k =
    let no_keys : List Key = [] in
    let slot =
      get_elem?-some (replicate n no_keys) i (omega (arith, small, length-replicate n no_keys)) in
    let g = grown i slot.0 slot.1 in
    let only : mem k g.0 ≡ stands k i taints =
      g.2 k ∙ ap (λ c. mem k c || stands k i taints) (get_elem?-replicate n i slot.0 slot.1) in
    (
      λ inside.
          let same : g.0 ≡ inside.0 = let a = g.1 in let b = inside.1 in cc in
          (stands-lookup k i taints m).0 (sym only ∙ ap (mem k) same ∙ inside.2),
      λ there. (g.0, g.1, only ∙ (stands-lookup k i taints m).1 there),
    )

pub collect-ByColour :
    (n : ℕ) (taints : Map Key ℕ)
    → IsMap taints
    → ((k : Key) (i : ℕ) → lookup k taints ≡ some i → i < n)
    → (out : List (List Key)) × (collect taints (replicate n []) ≡ some out) × ByColour taints out
collect-ByColour n taints m h =
    let no_keys : List Key = [] in
    let all = collect-Grown taints (replicate n no_keys) (
      subst (λ l. Below l taints) (sym (length-replicate n no_keys)) (Below-lookup n taints m h)) in
    let same_length : length all.0 ≡ n = all.2 ∙ length-replicate n no_keys in
    (
      all.0,
      all.1,
      λ i k. (
        λ inside.
            (Grown-lookup n i taints all.0 m all.3
                (omega (arith, same_length, get_elem?-lt all.0 i inside.0 inside.1)) k).0
              inside,
        λ there. (Grown-lookup n i taints all.0 m all.3 (h k i there) k).1 there,
      ),
    )
