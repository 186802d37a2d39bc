-- ===== src/LinkSelector/Paths.antt =====
-- Which paths of links the selectors of pkg/frontend/tf/config/link_selector.go and of
-- pkg/frontend/tf/defaults/modifier/link_selector.go follow.
use kelemetry.Base.{
  ◌≡◌, refl, sym, ap, ◌∙◌, inl, inr, Bool, true, false, ◌&&◌, ◌||◌, List, [], ◌∷◌, Option, none,
  some, arith, if◌then◌else◌, nat_eq, Bool-cases, Option-cases,
}
use kelemetry.LinkSelector.{
  Link, Selector, intersect, union, Selectors, done, also, Slots, end, gap, slot, refill, is_some,
  also_admitted, intersected, admit, admit_all, admit_some,
}

-- Whether a path of links is followed to its end, each with the selector that the one before gave.
unfoldable pub follows_from : Option Selector → List Link → Bool
unfolding admit
follows_from none [] = false
follows_from none (link ∷ path) = false
follows_from (some s) [] = true
follows_from (some s) (link ∷ path) = follows_from (admit s link) path

abbrev pub follows : Selector → List Link → Bool
follows s path = follows_from (some s) path

pub follows_from-none : (path : List Link) → follows_from none path ≡ false
unfolding follows_from
follows_from-none [] = refl
follows_from-none (link ∷ path) = refl

abbrev pub all_follow : Selectors → List Link → Bool
all_follow done path = true
all_follow (also s rest) path = follows s path && all_follow rest path

abbrev pub some_follow : Slots → List Link → Bool
some_follow end path = false
some_follow (gap slots) path = some_follow slots path
some_follow (slot s slots) path = follows s path || some_follow slots path

abbrev all_follow_from : Option Selectors → List Link → Bool
all_follow_from none path = false
all_follow_from (some selectors) path = all_follow selectors path

also_admitted-follow :
    (s : Option Selector) (rest : Option Selectors) (path : List Link)
    → all_follow_from (also_admitted s rest) path
      ≡ (follows_from s path && all_follow_from rest path)
unfolding follows_from
also_admitted-follow none rest [] = refl
also_admitted-follow none rest (link ∷ path) = refl
also_admitted-follow (some s) none path = ground arith
also_admitted-follow (some s) (some rest) path = refl

admit_all-follow :
    (selectors : Selectors) (link : Link) (path : List Link)
    → all_follow selectors (link ∷ path) ≡ all_follow_from (admit_all selectors link) path
unfolding admit_all follows_from
admit_all-follow done link path = refl
admit_all-follow (also s rest) link path =
    ap (λ b. follows_from (admit s link) path && b) (admit_all-follow rest link path)
    ∙ sym (also_admitted-follow (admit s link) (admit_all rest link) path)

all_follow_nil : (selectors : Selectors) → all_follow selectors [] ≡ true
unfolding follows_from
all_follow_nil done = refl
all_follow_nil (also s rest) = all_follow_nil rest

-- An intersection follows a path if and only if all its selectors do.
pub follows-intersect :
    (selectors : Selectors) (path : List Link)
    → follows (intersect selectors) path ≡ all_follow selectors path
unfolding follows_from admit
follows-intersect selectors [] = sym (all_follow_nil selectors)
follows-intersect selectors (link ∷ path) = elim (Option-cases (admit_all selectors link)) [
  | inl refused ↦
      ap (λ o. follows_from (intersected o) path) refused
      ∙ follows_from-none path
      ∙ sym (admit_all-follow selectors link path ∙ ap (λ o. all_follow_from o path) refused)
  | inr (next, admitted) ↦
      ap (λ o. follows_from (intersected o) path) admitted
      ∙ follows-intersect next path
      ∙ sym (admit_all-follow selectors link path ∙ ap (λ o. all_follow_from o path) admitted)
]

-- What the loop of a union leaves: the slots that still follow, and whether there are any.
admit_some-follow :
    (slots : Slots) (link : Link) (path : List Link)
    → (some_follow slots (link ∷ path) ≡ some_follow (admit_some slots link).0 path)
      × ((admit_some slots link).1 ≡ some_follow (admit_some slots link).0 [])
unfolding admit_some follows_from
admit_some-follow end link path = (refl, refl)
admit_some-follow (gap slots) link path = admit_some-follow slots link path
admit_some-follow (slot s slots) link path = elim (Option-cases (admit s link)) [
  | inl refused ↦
      let (later, any) = admit_some-follow slots link path in
      (
        ap (λ o. follows_from o path || some_follow slots (link ∷ path)) refused
            ∙ rw (follows_from-none path) later
            ∙ sym (ap (λ o. some_follow (refill o (admit_some slots link).0) path) refused),
        ap (λ o. if is_some o then true else (admit_some slots link).1) refused
            ∙ any
            ∙ sym (ap (λ o. some_follow (refill o (admit_some slots link).0) []) refused),
      )
  | inr (next, admitted) ↦
      let (later, any) = admit_some-follow slots link path in
      (
        ap (λ o. follows_from o path || some_follow slots (link ∷ path)) admitted
            ∙ ap (λ b. follows next path || b) later
            ∙ sym (ap (λ o. some_follow (refill o (admit_some slots link).0) path) admitted),
        ap (λ o. if is_some o then true else (admit_some slots link).1) admitted
            ∙ sym (ap (λ o. some_follow (refill o (admit_some slots link).0) []) admitted),
      )
]

no_slot_follows :
    (slots : Slots) (path : List Link)
    → some_follow slots [] ≡ false
    → some_follow slots path ≡ false
unfolding follows_from
no_slot_follows end path h = refl
no_slot_follows (gap slots) path h = no_slot_follows slots path h
no_slot_follows (slot s slots) path h = absurd (cc)

-- A union follows a path, of one link at least, if and only if one of its selectors does.
pub follows-union :
    (slots : Slots) (link : Link) (path : List Link)
    → follows (union slots) (link ∷ path) ≡ some_follow slots (link ∷ path)
unfolding follows_from admit
follows-union slots link [] =
    let filled = (admit_some slots link).0 in
    let (later, any) = admit_some-follow slots link [] in
    elim (Bool-cases (admit_some slots link).1) [
      | inl t ↦
          ap (λ b. follows_from (if b then some (union filled) else none) []) t
          ∙ sym (later ∙ sym any ∙ t)
      | inr t ↦
          ap (λ b. follows_from (if b then some (union filled) else none) []) t
          ∙ sym (later ∙ sym any ∙ t)
    ]
follows-union slots link (link' ∷ path) =
    let filled = (admit_some slots link).0 in
    let (later, any) = admit_some-follow slots link (link' ∷ path) in
    elim (Bool-cases (admit_some slots link).1) [
      | inl t ↦
          ap (λ b. follows_from (if b then some (union filled) else none) (link' ∷ path)) t
          ∙ follows-union filled link' path
          ∙ sym later
      | inr t ↦
          ap (λ b. follows_from (if b then some (union filled) else none) (link' ∷ path)) t
          ∙ sym (later ∙ no_slot_follows filled (link' ∷ path) (sym any ∙ t))
    ]
