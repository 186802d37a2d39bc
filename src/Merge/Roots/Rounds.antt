-- ===== src/Merge/Roots/Rounds.antt =====
-- The loop over the tags of `mergeRootTags` in pkg/frontend/reader/merge/merge.go.
use kelemetry.Base.{
  ℕ, ◌≡◌, refl, sym, ap, subst, ◌∙◌, inl, inr, Bool, true, false, [], ◌∷◌, ◌++◌, Option, none, some,
  String, arith, if◌then◌else◌, ◌==◌, string_eq, Bool-cases, Option-cases, get_elem?, set,
  get_elem?-append, get_elem?-set_self, get_elem?-set_other, get_elem?-lt, nat_eq, nat_beq_iff,
}
use kelemetry.Base.Map.{
  Map, lookup, insert, has, IsMap, lookup-insert, has-lookup, has-insert, insert-IsMap,
}
use kelemetry.Merge.Roots.{Tags, tag_positions, merge_tag, merge_tags}
use kelemetry.Merge.Roots.Positions.{
  At, key_of, tag_positions-some, tag_positions-none, set-IsMap, has-set, lookup-set, has-At,
}

-- The value that a merge with a newer trace, or with one that is not newer, leaves under a key.
abbrev pub merged_value : Bool → Option String → Option String → Option String
merged_value newer none tail = tail
merged_value newer (some base) none = some base
merged_value newer (some base) (some tail) = if newer then some tail else some base

-- A new tag goes to the end, as `insert` does with a new key.
insert-append :
    (l v : String) (tags : Tags) → has l tags ≡ false → insert l v tags ≡ tags ++ (l, v) ∷ []
unfolding insert has
insert-append l v [] fresh = refl
insert-append l v ((j, w) ∷ tags) fresh = elim (Bool-cases (j == l)) [
  | inl t ↦ let no : true ≡ false = sym (rw t refl) ∙ fresh in absurd (cc)
  | inr t ↦
      let later : has l tags ≡ false =
        subst (λ b. (if b then true else has l tags) ≡ false) t fresh in
      rw t (ap (λ rest. (j, w) ∷ rest) (insert-append l v tags later))
]

-- The positions are those of their keys, and a key of the tail without position is new.
pub record Ready (tag_pos : Map String ℕ) (tags tail : Tags) : Type 0 where
  pub placed : (k : String) (pos : ℕ) → lookup k tag_pos ≡ some pos → At tags k pos
  pub fresh : (k : String) → lookup k tag_pos ≡ none → has k tail ≡ true → has k tags ≡ false

-- What one tag of the tail does.
abbrev TakesTag : Bool → String → String → Tags → Tags → Type 0
TakesTag newer l v tags tags' =
    (k : String)
    → lookup k tags'
      ≡ (if l == k then merged_value newer (lookup k tags) (some v) else lookup k tags)

merged_twice :
    (newer : Bool) (base : Option String) (v : String)
    → merged_value newer (merged_value newer base (some v)) none ≡ merged_value newer base (some v)
merged_twice newer none v = refl
merged_twice true (some b) v = refl
merged_twice false (some b) v = refl

value_after :
    (newer : Bool) (l v k : String) (tags tags' tail : Tags)
    → TakesTag newer l v tags tags'
    → has l tail ≡ false
    → merged_value newer (lookup k tags') (lookup k tail)
      ≡ merged_value newer (lookup k tags) (lookup k ((l, v) ∷ tail))
unfolding lookup
value_after newer l v k tags tags' tail takes alone = elim (Bool-cases (l == k)) [
  | inl t ↦
      let nothing : lookup k tail ≡ none =
        subst (λ i. lookup i tail ≡ none) ((string_eq.beq_iff l k).0 t)
          ((has-lookup l tail).0 alone) in
      let now : lookup k tags' ≡ merged_value newer (lookup k tags) (some v) =
        takes k ∙ rw t refl in
      ap (λ o. merged_value newer o (lookup k tail)) now
      ∙ ap (λ o. merged_value newer (merged_value newer (lookup k tags) (some v)) o) nothing
      ∙ merged_twice newer (lookup k tags) v
      ∙ rw t refl
  | inr t ↦
      let now : lookup k tags' ≡ lookup k tags = takes k ∙ rw t refl in
      ap (λ o. merged_value newer o (lookup k tail)) now ∙ rw t refl
]

-- One round of the loop over the tail.
abbrev Round : Map String ℕ → Tags → Tags → String → String → Bool → Tags → Type 0
Round tag_pos tail tags l v newer tags' =
    Ready tag_pos tags' tail × IsMap tags' × TakesTag newer l v tags tags'

At-set :
    (tags : Tags) (l v : String) (pos : ℕ) (k : String) (i : ℕ)
    → At tags l pos
    → At tags k i
    → At (set tags pos (l, v)) k i
At-set tags l v pos k i at there = elim (Bool-cases (pos == i)) [
  | inl t ↦
      let pos_i : pos ≡ i = (nat_beq_iff pos i).0 t in
      let at_i : get_elem? tags i ≡ some (l, at.0) =
        subst (λ n. get_elem? tags n ≡ some (l, at.0)) pos_i at.1 in
      let l_k : l ≡ k = key_of l at.0 k there.0 (sym at_i ∙ there.1) in
      (
        v,
        subst (λ n. get_elem? (set tags pos (l, v)) n ≡ some (k, v)) pos_i
            (get_elem?-set_self tags pos (l, v) (get_elem?-lt tags pos (l, at.0) at.1)
              ∙ (λ j. some (l_k j, v))),
      )
  | inr t ↦ (
    there.0,
    get_elem?-set_other tags pos i (l, v) (λ e. ground (arith, nat_beq_iff pos i)) ∙ there.1,
  )
]

there_some :
    (k : String) (tags : Tags) (pos : ℕ) → At tags k pos → (b : String) × (lookup k tags ≡ some b)
there_some k tags pos at = elim (Option-cases (lookup k tags)) [
  | inl missing ↦
      let no = (has-lookup k tags).1 missing in let yes = has-At tags k pos at in absurd (cc)
  | inr found ↦ found
]

module _ (tag_pos : Map String ℕ) (tags tail : Tags) (l v : String) where
  still_fresh :
      Ready tag_pos tags ((l, v) ∷ tail)
      → (k : String) → lookup k tag_pos ≡ none
      → has k tail ≡ true
      → has k tags ≡ false
  unfolding has
  still_fresh r k missing h =
      r.fresh k missing (elim (Bool-cases (l == k)) [ inl t ↦ rw t refl | inr t ↦ rw t h ])

  -- The key has a position, and the tail is newer.
  newer_Round :
      (pos : ℕ)
      → Ready tag_pos tags ((l, v) ∷ tail)
      → IsMap tags
      → lookup l tag_pos ≡ some pos
      → Round tag_pos tail tags l v true (set tags pos (l, v))
  newer_Round pos r m found =
      let at = r.placed l pos found in
      let old = there_some l tags pos at in
      (
        record {
          placed = λ k i h. At-set tags l v pos k i at (r.placed k i h);
          fresh = λ k missing h. has-set tags l k v pos at ∙ still_fresh r k missing h;
        },
        set-IsMap tags l v pos at m,
        λ k. lookup-set tags l k v pos at m ∙ elim (Bool-cases (l == k)) [
          | inl t ↦
              let there : lookup k tags ≡ some old.0 =
                subst (λ i. lookup i tags ≡ some old.0) ((string_eq.beq_iff l k).0 t) old.1 in
              rw (t, there) refl
          | inr t ↦ rw t refl
        ],
      )

  -- The key has a position, and the tail is not newer.
  older_Round :
      (pos : ℕ)
      → Ready tag_pos tags ((l, v) ∷ tail)
      → IsMap tags
      → lookup l tag_pos ≡ some pos
      → Round tag_pos tail tags l v false tags
  older_Round pos r m found =
      let old = there_some l tags pos (r.placed l pos found) in
      (
        record { placed = r.placed; fresh = still_fresh r },
        m,
        λ k. elim (Bool-cases (l == k)) [
          | inl t ↦
              let there : lookup k tags ≡ some old.0 =
                subst (λ i. lookup i tags ≡ some old.0) ((string_eq.beq_iff l k).0 t) old.1 in
              rw (t, there) refl
          | inr t ↦ rw t refl
        ],
      )

  -- The key has no position, and so is new.
  new_Round :
      (newer : Bool)
      → Ready tag_pos tags ((l, v) ∷ tail)
      → IsMap tags
      → has l tail ≡ false
      → lookup l tag_pos ≡ none
      → Round tag_pos tail tags l v newer (tags ++ (l, v) ∷ [])
  unfolding has
  new_Round newer r m alone missing =
      let new = r.fresh l missing (rw ((string_eq.beq_iff l l).1 refl) refl) in
      let last = insert-append l v tags new in
      (
        record {
          placed = λ k i h. (
            (r.placed k i h).0,
            get_elem?-append tags ((l, v) ∷ []) i (k, (r.placed k i h).0) (r.placed k i h).1,
          );
          fresh = λ k missing' h.
              ap (has k) (sym last) ∙ has-insert l k v tags ∙ elim (Bool-cases (l == k)) [
                | inl t ↦
                    let twice : has l tail ≡ true =
                      subst (λ i. has i tail ≡ true) (sym ((string_eq.beq_iff l k).0 t)) h in
                    absurd (cc)
                | inr t ↦ rw t (still_fresh r k missing' h)
              ];
        },
        subst IsMap last (insert-IsMap l v tags m),
        λ k. ap (lookup k) (sym last) ∙ lookup-insert l k v tags ∙ elim (Bool-cases (l == k)) [
          | inl t ↦
              let nothing : lookup k tags ≡ none =
                subst (λ i. lookup i tags ≡ none) ((string_eq.beq_iff l k).0 t)
                  ((has-lookup l tags).0 new) in
              rw (t, nothing) refl
          | inr t ↦ rw t refl
        ],
      )

  abbrev put : Bool → Option ℕ → Tags
  put newer o = elim o [
    | none ↦ tags ++ (l, v) ∷ []
    | some pos ↦ if newer then set tags pos (l, v) else tags
  ]

  merge_tag-Round :
      (newer : Bool)
      → Ready tag_pos tags ((l, v) ∷ tail)
      → IsMap tags
      → has l tail ≡ false
      → Round tag_pos tail tags l v newer (merge_tag newer tag_pos tags (l, v))
  unfolding merge_tag
  merge_tag-Round newer r m alone = elim (Option-cases (lookup l tag_pos)) [
    | inl missing ↦
        subst (λ o. Round tag_pos tail tags l v newer (put newer o)) (sym missing)
          (new_Round newer r m alone missing)
    | inr (pos, found) ↦
        subst (λ o. Round tag_pos tail tags l v newer (put newer o)) (sym found)
          (elim newer as (λ b. Round tag_pos tail tags l v b (put b (some pos))) [
            | true ↦ newer_Round pos r m found
            | false ↦ older_Round pos r m found
          ])
  ]

pub merge_tags-value :
    (newer : Bool) (tag_pos : Map String ℕ) (tags tail : Tags)
    → Ready tag_pos tags tail
    → IsMap tags
    → IsMap tail
    → IsMap (merge_tags newer tag_pos tags tail)
      × ((k : String)
          → lookup k (merge_tags newer tag_pos tags tail)
            ≡ merged_value newer (lookup k tags) (lookup k tail))
unfolding merge_tags lookup
merge_tags-value newer tag_pos tags [] r m alone =
    (m, λ k. elim (Option-cases (lookup k tags)) [ inl t ↦ rw t refl | inr (b, t) ↦ rw t refl ])
merge_tags-value newer tag_pos tags ((l, v) ∷ tail) r m alone =
    let one = merge_tag-Round tag_pos tags tail l v newer r m alone.0 in
    let rest =
      merge_tags-value newer tag_pos (merge_tag newer tag_pos tags (l, v)) tail one.0 one.1
        alone.1 in
    (
      rest.0,
      λ k.
          rest.1 k
          ∙ value_after newer l v k tags (merge_tag newer tag_pos tags (l, v)) tail one.2 alone.0,
    )

pub start_Ready : (tags tail : Tags) → Ready (tag_positions 0 tags []) tags tail
unfolding lookup
start_Ready tags tail = record {
  placed = λ k pos h. elim (tag_positions-some 0 tags [] k pos h) [
    | inl never ↦ absurd (cc)
    | inr (j, same, at) ↦ subst (λ i. At tags k i) (omega (arith, same)) at
  ];
  fresh = λ k missing h. (tag_positions-none 0 tags [] k missing).1;
}
