-- ===== src/LinkSelector.antt =====
-- Which links a trace follows: pkg/frontend/tf/config/link_selector.go and
-- pkg/frontend/tf/defaults/modifier/link_selector.go. A link is followed if the selector admits it,
-- and the links of the linked object are then tried with the selector that was returned.
pub mod Paths
pub mod Modified
mod Tests
use kelemetry.Base.{
  ℕ, ◌-◌, Bool, true, false, not, ◌&&◌, List, [], ◌∷◌, ◌++◌, Option, none, some, String,
  if◌then◌else◌, Eq, ◌==◌, nat_eq,
}
use kelemetry.Aggregator.{Key}
use kelemetry.Filter.{StringFilter, matches, ObjectFilter, object_matches, get_or, field_matches}

-- The arguments of `Admit`.
pub record Link : Type 0 where
  pub parent : Key
  pub child : Key
  pub from_parent : Bool
  pub link_class : String

pub record LinkPattern : Type 0 where
  pub parent : ObjectFilter
  pub child : ObjectFilter
  pub include_from_parent : Option Bool
  pub include_from_child : Option Bool
  pub link_class : Option StringFilter

unfoldable pub pattern_matches : LinkPattern → Link → Bool
pattern_matches p link =
    if not (object_matches p.parent link.parent)
    then false
    else if not (object_matches p.child link.child)
    then false
    else if not (get_or p.include_from_parent true) && link.from_parent
    then false
    else if not (get_or p.include_from_child true) && not link.from_parent
    then false
    else if not (field_matches p.link_class link.link_class)
    then false
    else true

unfoldable pub all_match : List LinkPattern → Link → Bool
unfolding pattern_matches
all_match [] link = true
all_match (p ∷ ps) link = if not (pattern_matches p link) then false else all_match ps link

-- `directionUpwards` is true. The implementations of `LinkSelector`; `Slots` is the list of a union,
-- where `gap` is a nil entry.
mutual
  pub data Selector : Type 0 where
    constant : Bool → Selector
    intersect : Selectors → Selector
    union : Slots → Selector
    deny_siblings : Bool → Bool → Selector
    patterns : List LinkPattern → Selector
    directed_distance : Bool → ℕ → Selector

  pub data Selectors : Type 0 where
    done : Selectors
    also : Selector → Selectors → Selectors

  pub data Slots : Type 0 where
    end : Slots
    gap : Slots → Slots
    slot : Selector → Slots → Slots

-- `==` on Booleans.
abbrev pub same : Bool → Bool → Bool
same true b = b
same false b = not b

-- A slot that has become nil, or has not.
abbrev pub refill : Option Selector → Slots → Slots
refill none slots = gap slots
refill (some s) slots = slot s slots

abbrev pub is_some : Option Selector → Bool
is_some none = false
is_some (some s) = true

abbrev pub also_admitted : Option Selector → Option Selectors → Option Selectors
also_admitted none rest = none
also_admitted (some s) none = none
also_admitted (some s) (some rest) = some (also s rest)

abbrev pub intersected : Option Selectors → Option Selector
intersected none = none
intersected (some rest) = some (intersect rest)

-- The loops of the two composites are functions on their lists. `none` is nil.
unfoldable mutual
  unfolding all_match

  pub admit : Selector → Link → Option Selector
  admit (constant b) link = if b then some (constant b) else none
  admit (intersect selectors) link = intersected (admit_all selectors link)
  admit (union slots) link =
      let (filled, ok) = admit_some slots link in if ok then some (union filled) else none
  admit (deny_siblings has_first first) link =
      if not has_first
      then some (deny_siblings true link.from_parent)
      else if not (same first link.from_parent)
      then none
      else some (deny_siblings has_first first)
  admit (patterns ps) link = if all_match ps link then some (patterns ps) else none
  admit (directed_distance upwards distance) link =
      if not (same link.from_parent (not upwards))
      then some (directed_distance upwards distance)
      else if distance == 0
      then none
      else some (directed_distance upwards (distance - 1))

  pub admit_all : Selectors → Link → Option Selectors
  admit_all done link = some done
  admit_all (also s rest) link = also_admitted (admit s link) (admit_all rest link)

  pub admit_some : Slots → Link → Slots × Bool
  admit_some end link = (end, false)
  admit_some (gap slots) link = let (filled, ok) = admit_some slots link in (gap filled, ok)
  admit_some (slot s slots) link =
      let (filled, ok) = admit_some slots link in
      (refill (admit s link) filled, if is_some (admit s link) then true else ok)

-- `LinkSelectorModifier`
pub record Modifier : Type 0 where
  pub include_siblings : Bool
  pub pattern_filters : List LinkPattern
  pub upward_distance : Option ℕ
  pub downward_distance : Option ℕ

abbrev pub distance_selector : Bool → Option ℕ → Selectors
distance_selector upwards none = done
distance_selector upwards (some n) = also (directed_distance upwards n) done

abbrev pub join : Selectors → Selectors → Selectors
join done more = more
join (also s rest) more = also s (join rest more)

unfoldable pub modified_selectors : Modifier → Selectors
modified_selectors m = join (also (patterns m.pattern_filters) done) (
    join (if m.include_siblings then done else also (deny_siblings false false) done) (
      join (distance_selector true m.upward_distance)
        (distance_selector false m.downward_distance)))

-- `config.LinkSelector` after the modifier.
unfoldable pub modify : Option Selector → Modifier → Selector
unfolding modified_selectors
modify selector m = union (refill selector (slot (intersect (modified_selectors m)) end))
