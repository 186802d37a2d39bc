-- ===== src/LinkSelector/Tests.antt =====
-- Runs of the filters of pkg/util/marshal/marshal.go and of the link selectors of
-- pkg/frontend/tf/config/link_selector.go.
use kelemetry.Base.{
  ◌≡◌, refl, Bool, true, false, ◌||◌, [], ◌∷◌, Option, none, some, String, ◌==◌, string_eq,
}
use kelemetry.Aggregator.{Key}
use kelemetry.LinkSelector.{
  Link, constant, Selectors, done, also, Slots, end, gap, slot, deny_siblings, directed_distance,
  Modifier, modify,
}
use kelemetry.LinkSelector.Paths.{follows_from, follows}
use kelemetry.LinkSelector.Modified.{follows_before, allowed, follows-modify}

abbrev no_regex : String → Option (String → Bool)
no_regex pattern = none

abbrev exactly : String → String → Bool
exactly s t = s == t

exactly_self : (s : String) → exactly s s ≡ true
exactly_self s = (string_eq.beq_iff s s).1 refl

abbrev pod : Key
pod = record { cluster = "c"; group = ""; resource = "pods"; namespace = "default"; name = "web" }

abbrev up : Link
up = record { parent = pod; child = pod; from_parent = false; link_class = "owner" }

abbrev down : Link
down = record { parent = pod; child = pod; from_parent = true; link_class = "owner" }

abbrev up_twice : Modifier
up_twice = record {
  include_siblings = false;
  pattern_filters = [];
  upward_distance = some 2;
  downward_distance = none;
}

-- Two links up are followed, a third one is not, and neither is a turn.
paths :
    (follows (modify none up_twice) (up ∷ up ∷ []) ≡ true)
    × (follows (modify none up_twice) (up ∷ up ∷ up ∷ []) ≡ false)
    × (follows (modify none up_twice) (up ∷ down ∷ []) ≡ false)
unfolding modify follows_from
paths = (refl, refl, refl)

follows-modify_example :
    follows (modify (some (constant false)) up_twice) (up ∷ up ∷ [])
    ≡ (follows_before (some (constant false)) (up ∷ up ∷ []) || allowed up_twice (up ∷ up ∷ []))
follows-modify_example = follows-modify (some (constant false)) up_twice up (up ∷ [])

abbrev both : Selectors
both = also (deny_siblings false false) (also (directed_distance true 1) done)

abbrev either : Slots
either = gap (slot (directed_distance true 1) (slot (constant false) end))
