-- ===== src/LinkSelector/Modified.antt =====
-- What `LinkSelectorModifier` of pkg/frontend/tf/defaults/modifier/link_selector.go adds to the
-- links that a trace follows.
use kelemetry.Base.{
  ℕ, suc, ◌-◌, ◌≡◌, refl, ap, ◌∙◌, inl, inr, Bool, true, false, not, ◌&&◌, ◌||◌, List, [], ◌∷◌,
  Option, none, some, arith, leb, nat_beq, nat_beq_iff, if◌then◌else◌, nat_eq, Bool-cases,
}
use kelemetry.LinkSelector.{
  Link, LinkPattern, all_match, Selector, intersect, deny_siblings, patterns, directed_distance,
  Selectors, done, also, end, slot, same, refill, admit, Modifier, distance_selector, join,
  modified_selectors, modify,
}
use kelemetry.LinkSelector.Paths.{
  follows_from, follows, follows_from-none, all_follow, some_follow, follows-intersect,
  follows-union,
}

-- Every link of the path passes every pattern.
abbrev pub all_links_match : List LinkPattern → List Link → Bool
all_links_match ps [] = true
all_links_match ps (link ∷ path) = all_match ps link && all_links_match ps path

-- The links of the path that go up, or that go down: from a child to its parent, or back.
abbrev pub count : Bool → List Link → ℕ
count upwards [] = 0
count upwards (link ∷ path) =
    if same link.from_parent (not upwards) then suc (count upwards path) else count upwards path

-- Every link of the path goes the given way, from the parent or from the child.
abbrev pub all_go : Bool → List Link → Bool
all_go way [] = true
all_go way (link ∷ path) = same way link.from_parent && all_go way path

follows-patterns :
    (ps : List LinkPattern) (path : List Link)
    → follows (patterns ps) path ≡ all_links_match ps path
unfolding follows_from admit
follows-patterns ps [] = refl
follows-patterns ps (link ∷ path) = elim (Bool-cases (all_match ps link)) [
  | inl t ↦
      ap (λ b. follows_from (if b then some (patterns ps) else none) path) t
      ∙ follows-patterns ps path
      ∙ rw t refl
  | inr t ↦
      ap (λ b. follows_from (if b then some (patterns ps) else none) path) t
      ∙ follows_from-none path
      ∙ rw t refl
]

follows-deny_siblings :
    (way : Bool) (path : List Link) → follows (deny_siblings true way) path ≡ all_go way path
unfolding follows_from admit
follows-deny_siblings way [] = refl
follows-deny_siblings way (link ∷ path) = elim (Bool-cases (same way link.from_parent)) [
  | inl t ↦
      ap (λ b. follows_from (if not b then none else some (deny_siblings true way)) path) t
      ∙ follows-deny_siblings way path
      ∙ rw t refl
  | inr t ↦
      ap (λ b. follows_from (if not b then none else some (deny_siblings true way)) path) t
      ∙ follows_from-none path
      ∙ rw t refl
]

abbrev nearer : Bool → ℕ → Option Selector
nearer upwards n = if nat_beq n 0 then none else some (directed_distance upwards (n - 1))

follows-directed_distance :
    (upwards : Bool) (n : ℕ) (path : List Link)
    → follows (directed_distance upwards n) path ≡ leb (count upwards path) n
unfolding follows_from admit
follows-directed_distance upwards n [] = ground arith
follows-directed_distance upwards n (link ∷ path) =
    elim (Bool-cases (same link.from_parent (not upwards))) [
      | inr t ↦
          ap
            (λ b.
              follows_from (if not b then some (directed_distance upwards n) else nearer upwards n)
                path)
            t
          ∙ follows-directed_distance upwards n path
          ∙ rw t refl
      | inl t ↦
          ap
            (λ b.
              follows_from (if not b then some (directed_distance upwards n) else nearer upwards n)
                path)
            t
          ∙ elim (Bool-cases (nat_beq n 0)) [
            | inl z ↦
                ap
                  (λ b.
                    follows_from (if b then none else some (directed_distance upwards (n - 1)))
                      path)
                  z
                ∙ follows_from-none path
                ∙ rw t (ground (arith, (nat_beq_iff n 0).0 z))
            | inr z ↦
                ap
                  (λ b.
                    follows_from (if b then none else some (directed_distance upwards (n - 1)))
                      path)
                  z
                ∙ follows-directed_distance upwards (n - 1) path
                ∙ rw t (ground (arith, nat_beq_iff n 0))
          ]
    ]

all_follow-join :
    (xs ys : Selectors) (path : List Link)
    → all_follow (join xs ys) path ≡ (all_follow xs path && all_follow ys path)
unfolding follows_from
all_follow-join done ys path = refl
all_follow-join (also s xs) ys path = ground (arith, all_follow-join xs ys path)

-- At most so many links of the path go up, or down; no limit is set by `none`.
abbrev pub within : Bool → Option ℕ → List Link → Bool
within upwards none path = true
within upwards (some n) path = leb (count upwards path) n

all_follow-distance :
    (upwards : Bool) (n : Option ℕ) (path : List Link)
    → all_follow (distance_selector upwards n) path ≡ within upwards n path
all_follow-distance upwards none path = refl
all_follow-distance upwards (some n) path = ground (arith, follows-directed_distance upwards n path)

abbrev pub one_way : List Link → Bool
one_way [] = true
one_way (link ∷ path) = all_go link.from_parent path

-- Whether a path passes the conditions of a modifier.
abbrev pub allowed : Modifier → List Link → Bool
allowed m path =
    all_links_match m.pattern_filters path
    && ((m.include_siblings || one_way path)
        && (within true m.upward_distance path && within false m.downward_distance path))

siblings-follow :
    (include : Bool) (path : List Link)
    → all_follow (if include then done else also (deny_siblings false false) done) path
      ≡ (include || one_way path)
unfolding follows_from admit
siblings-follow true path = refl
siblings-follow false [] = refl
siblings-follow false (link ∷ path) = ground (arith, follows-deny_siblings link.from_parent path)

abbrev pub follows_before : Option Selector → List Link → Bool
follows_before none path = false
follows_before (some s) path = follows s path

all_follow-modified_selectors :
    (m : Modifier) (path : List Link) → all_follow (modified_selectors m) path ≡ allowed m path
unfolding modified_selectors
all_follow-modified_selectors m path =
    let siblings = if m.include_siblings then done else also (deny_siblings false false) done in
    let up = distance_selector true m.upward_distance in
    let down = distance_selector false m.downward_distance in
    rw (all_follow-join siblings (join up down) path, all_follow-join up down path)
      (rw
        (
          follows-patterns m.pattern_filters path,
          siblings-follow m.include_siblings path,
          all_follow-distance true m.upward_distance path,
          all_follow-distance false m.downward_distance path,
        )
        refl)

some_follow-refill :
    (selector : Option Selector) (s : Selector) (path : List Link)
    → some_follow (refill selector (slot s end)) path
      ≡ (follows_before selector path || follows s path)
some_follow-refill none s path = ground arith
some_follow-refill (some t) s path = ground arith

-- After a modifier, a path of one link at least is followed just if it was followed before, or all its
-- links pass the patterns, no link turns back from the way of the first one, unless siblings are
-- included, and no more links go up or go down than the distances allow.
pub follows-modify :
    (selector : Option Selector) (m : Modifier) (link : Link) (path : List Link)
    → follows (modify selector m) (link ∷ path)
      ≡ (follows_before selector (link ∷ path) || allowed m (link ∷ path))
unfolding modify
follows-modify selector m link path =
    follows-union (refill selector (slot (intersect (modified_selectors m)) end)) link path
    ∙ some_follow-refill selector (intersect (modified_selectors m)) (link ∷ path)
    ∙ ap (λ b. follows_before selector (link ∷ path) || b)
        (follows-intersect (modified_selectors m) (link ∷ path)
          ∙ all_follow-modified_selectors m (link ∷ path))
