-- ===== src/SpanTree/Tests.antt =====
-- Runs of the span tree of pkg/frontend/tf/tree/tree.go on a small trace.
use kelemetry.Base.Map.{erase}
use kelemetry.Base.{
  ℕ, ◌≡◌, refl, false, List, [], ◌∷◌, none, some, arith, if◌then◌else◌, ◌==◌, nat_eq,
}
use kelemetry.Base.Map.{insert, lookup, has}
use kelemetry.SpanTree.{struct, Span, SpanTree, children_of, new_span_tree, move}
use kelemetry.SpanTree.Links.{Sound, move-Sound, move_to_same_parent}
use kelemetry.SpanTree.Grafting.{Throughout}
use kelemetry.SpanTree.Visit.{span_id_collector, visit, changed, set_root}
use kelemetry.SpanTree.Visit.Quiet.{below, IsNode}
use kelemetry.SpanTree.Visit.Rooted.{rooted_at, set_root-below}
use kelemetry.SpanTree.Load.{find, DistinctIds, new_span_tree-Sound}

abbrev top : Span ℕ ℕ
top = record { id = 1; parent = none; payload = 10 }

abbrev left : Span ℕ ℕ
left = record { id = 2; parent = some 1; payload = 20 }

abbrev right : Span ℕ ℕ
right = record { id = 3; parent = some 1; payload = 30 }

abbrev trace : List (Span ℕ ℕ)
trace = left ∷ top ∷ right ∷ []

abbrev loaded : SpanTree ℕ ℕ
loaded = record {
  span_map = (2, left) ∷ (1, top) ∷ (3, right) ∷ [];
  children_map = (1, (2, struct) ∷ (3, struct) ∷ []) ∷ [];
  visitor_stack = [];
  exited = [];
  root = 1;
}

loads : new_span_tree trace ≡ some loaded
unfolding new_span_tree insert lookup
loads = refl

trace-DistinctIds : DistinctIds trace
unfolding find
trace-DistinctIds = (refl, (refl, (refl, tt)))

loaded-Sound : Sound loaded
unfolding children_of lookup has
loaded-Sound p c = ground arith

new_span_tree-Sound_example :
    (tree : SpanTree ℕ ℕ) × (root : Span ℕ ℕ) × (new_span_tree trace ≡ some tree)
    × Sound tree
    × ((j : ℕ) → lookup j tree.span_map ≡ find j trace)
    × (tree.root ≡ root.id)
    × (find root.id trace ≡ some root)
    × (root.parent ≡ none)
new_span_tree-Sound_example = new_span_tree-Sound trace trace-DistinctIds refl

open_span : has 2 loaded.exited ≡ false
unfolding has
open_span = refl

open_root : has 1 loaded.exited ≡ false
unfolding has
open_root = refl

fresh_id : lookup 4 loaded.span_map ≡ none
unfolding lookup
fresh_id = refl

right_there : lookup 3 loaded.span_map ≡ some right
unfolding lookup
right_there = refl

abbrev extra : Span ℕ ℕ
extra = record { id = 4; parent = none; payload = 40 }

move-Sound_example :
    (tree' : SpanTree ℕ ℕ) × (move loaded 3 2 ≡ some tree')
    × Sound tree'
    × ((j : ℕ)
        → lookup j tree'.span_map
          ≡ (if 3 == j then some (record right { parent = some 2 }) else lookup j loaded.span_map))
move-Sound_example =
    move-Sound loaded right 3 1 2 loaded-Sound open_span right_there refl (λ e. omega arith)

move_to_same_parent_example :
    (tree' : SpanTree ℕ ℕ) × (move loaded 3 1 ≡ some tree')
    × (lookup 3 tree'.span_map ≡ some right)
    × (has 3 (children_of 1 tree'.children_map) ≡ false)
move_to_same_parent_example = move_to_same_parent loaded right 3 1 open_root right_there refl

abbrev grafted : SpanTree ℕ ℕ
grafted = record {
  span_map =
      (5, record { id = 5; parent = none; payload = 50 })
      ∷ (3, record { id = 3; parent = some 5; payload = 31 })
      ∷ [];
  children_map = (5, (3, struct) ∷ []) ∷ [];
  visitor_stack = [];
  exited = [];
  root = 5;
}

left-Throughout : Throughout (rooted_at loaded 2 left) (IsNode (rooted_at loaded 2 left)) 1 2
unfolding children_of lookup insert
left-Throughout = ((record left { parent = none }, refl, refl, tt), tt)

set_root-below_example :
    (tree' : SpanTree ℕ ℕ) × (set_root 2 1 loaded 2 ≡ changed tree')
    × (tree'.root ≡ 2)
    × ((k : ℕ)
        → lookup k tree'.span_map ≡ (
            if below (rooted_at loaded 2 left) 1 k 2
            then lookup k (rooted_at loaded 2 left).span_map
            else none))
    × ((k : ℕ)
        → lookup k tree'.children_map
          ≡ (if below (rooted_at loaded 2 left) 1 k 2 then lookup k loaded.children_map else none))
unfolding lookup
set_root-below_example = set_root-below 0 1 loaded 2 left refl refl left-Throughout

-- From the root all spans are seen, and none is exited behind the visit.
all_seen :
    visit span_id_collector 2 2 (some tt) [] loaded 1
    ≡ some (insert 3 struct ((1, struct) ∷ (2, struct) ∷ []), loaded)
unfolding visit has lookup insert children_of erase
all_seen = refl
