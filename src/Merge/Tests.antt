-- ===== src/Merge/Tests.antt =====
-- Runs of pkg/frontend/reader/merge/merge.go on a deployment, its pod and a node.
use kelemetry.Base.{
  ◌+◌, map, nat_eq, ℕ, ◌≡◌, ◌≢◌, ◌↔◌, refl, Bool, true, false, List, [], ◌∷◌, none, some, String,
  arith, ltb, string_eq,
}
use kelemetry.Base.Map.{Map, lookup, has, insert, erase, IsMap}
use kelemetry.Aggregator.{Key}
use kelemetry.LinkTags.{parent_role, child_role}
use kelemetry.Merge.{TargetLink, key_eq, same_key}
use kelemetry.Merge.Components.Paints.{Reaches}
use kelemetry.Merge.Components.Collected.{InComponent}
use kelemetry.Merge.Roots.{Content, merge_root}
use kelemetry.Merge.Roots.Rounds.{merged_value}
use kelemetry.Merge.Roots.Tags.{merge_root-tags, third_overrides_second}
use kelemetry.Merge.Objects.{Object}
use kelemetry.Merge.LinkMap.{components_of, insert_all_links, keys_of, components_of-Reaches}
use kelemetry.SpanTree.{children_of}
use kelemetry.Merge.Linked.{
  detect_root, Merging, Outcome, merged, panicked, out_of_fuel, merge_below,
}
use kelemetry.Merge.Linked.Reached.{HasBelow, merge_below-Below}
use kelemetry.Merge.Linked.Spans.{SoundTrees}
use kelemetry.Merge.Linked.Root.{FindsRoot, detect_root-FindsRoot}

abbrev key_named : String → String → Key
key_named resource name = record {
  cluster = "c";
  group = "";
  resource = resource;
  namespace = "default";
  name = name;
}

abbrev deployment : Key
deployment = key_named "deployments" "web"

abbrev pod : Key
pod = key_named "pods" "web-1"

abbrev node : Key
node = key_named "nodes" "n1"

two_keys : deployment ≢ pod
unfolding same_key
two_keys e = let t = (key_eq.beq_iff deployment pod).1 e in absurd (cc)

abbrev content : ℕ → ℕ → String → Content ℕ
content start duration phase = record {
  operation_name = "pod";
  service_name = "s";
  start_time = start;
  duration = duration;
  tags = ("cluster", "c") ∷ ("phase", phase) ∷ [];
  logs = [];
  warnings = [];
}

abbrev first : Content ℕ
first = content 10 5 "pending"

abbrev second : Content ℕ
second = content 30 5 "gone"

abbrev third : Content ℕ
third = content 20 5 "running"

tags-IsMap : (start : ℕ) (phase : String) → IsMap (content start 5 phase).tags
unfolding has
tags-IsMap start phase = (refl, (refl, tt))

merge_root-tags_example :
    IsMap (merge_root first second).tags
    × ((k : String)
        → lookup k (merge_root first second).tags
          ≡ merged_value
              (ltb first.start_time second.start_time)
              (lookup k first.tags)
              (lookup k second.tags))
merge_root-tags_example =
    merge_root-tags first second (tags-IsMap 10 "pending") (tags-IsMap 30 "gone")

has_phase : has "phase" first.tags ≡ true
unfolding has
has_phase = refl

third_phase : lookup "phase" third.tags ≡ some "running"
unfolding lookup
third_phase = refl

third_overrides_second_example :
    lookup "phase" (merge_root (merge_root first second) third).tags ≡ some "running"
third_overrides_second_example =
    third_overrides_second first second third "phase" "running" (tags-IsMap 10 "pending")
      (tags-IsMap 30 "gone") (tags-IsMap 20 "running") (omega arith) (omega arith) has_phase
      third_phase

abbrev object : Key → ℕ → List TargetLink → Object ℕ ℕ ℕ
object key id links = record {
  key = key;
  metadata = [];
  tree = record {
    span_map = (id, record { id = id; parent = none; payload = first }) ∷ [];
    children_map = [];
    visitor_stack = [];
    exited = [];
    root = id;
  };
  links = links;
}

abbrev cluster_objects : Map Key (Object ℕ ℕ ℕ)
cluster_objects =
    (deployment, object deployment 1 [])
    ∷ (
      pod,
      object pod 2 ((record { key = deployment; role = parent_role; class = "children" }) ∷ []),
    )
    ∷ (node, object node 3 [])
    ∷ []

two_components : components_of cluster_objects ≡ some ((deployment ∷ pod ∷ []) ∷ (node ∷ []) ∷ [])
unfolding components_of lookup insert same_key has erase
two_components = refl

components_of-Reaches_example :
    (components : List (List Key)) × (components_of cluster_objects ≡ some components)
    × ((u : Key) → has u cluster_objects ≡ true → (i : ℕ) × InComponent components i u)
    × ((u : Key) (i : ℕ) → InComponent components i u → has u cluster_objects ≡ true)
    × ((u v : Key) (i j : ℕ)
        → InComponent components i u
        → InComponent components j v
        → (i ≡ j) ↔ Reaches (keys_of cluster_objects) (insert_all_links cluster_objects []) u v)
components_of-Reaches_example = components_of-Reaches cluster_objects

pod_is_object : has pod cluster_objects ≡ true
unfolding has same_key
pod_is_object = refl

root_is_deployment :
    detect_root 4 (insert_all_links cluster_objects []) (λ key. has key cluster_objects) pod
    ≡ some (deployment, false)
unfolding detect_root has lookup insert_all_links insert same_key
root_is_deployment = refl

detect_root-FindsRoot_example :
    (found : Key × Bool) × (detect_root 4
        (insert_all_links cluster_objects [])
        (λ key. has key cluster_objects)
        pod
      ≡ some found)
    × FindsRoot (insert_all_links cluster_objects []) (λ key. has key cluster_objects) pod found
detect_root-FindsRoot_example =
    detect_root-FindsRoot (insert_all_links cluster_objects []) cluster_objects pod pod_is_object

-- The deployment knows of its pod, and the tree below it has both.
abbrev linked_objects : Map Key (Object ℕ ℕ ℕ)
linked_objects =
    (deployment, object deployment 1 ((record { key = pod; role = child_role; class = "" }) ∷ []))
    ∷ (pod, object pod 2 [])
    ∷ (node, object node 3 [])
    ∷ []

deployment_is_object : has deployment linked_objects ≡ true
unfolding has same_key
deployment_is_object = refl

linked_objects-SoundTrees : SoundTrees 5 linked_objects
unfolding lookup children_of has
linked_objects-SoundTrees = (
  (refl, ((record { id = 1; parent = none; payload = first }, refl, refl, refl), tt)),
  (
    (refl, ((record { id = 2; parent = none; payload = first }, refl, refl, refl), tt)),
    ((refl, ((record { id = 3; parent = none; payload = first }, refl, refl, refl), tt)), tt),
  ),
)

merge_below-Below_example :
    (m : Merging ℕ ℕ) × (merge_below (λ n. n + 100) (λ k. "repeated") 5 linked_objects 3 deployment
      ≡ merged m)
    × HasBelow 5 linked_objects deployment m
merge_below-Below_example =
    merge_below-Below (λ n. n + 100) (λ k. "repeated") 5 linked_objects deployment
      deployment_is_object linked_objects-SoundTrees

abbrev objects_of : Outcome (Merging ℕ ℕ) → List Key
objects_of (merged m) = map (λ entry. entry.0) m.tree_objects
objects_of panicked = []
objects_of out_of_fuel = []

pod_below_deployment :
    objects_of (merge_below (λ n. n + 100) (λ k. "repeated") 5 linked_objects 3 deployment)
    ≡ deployment ∷ pod ∷ []
unfolding merge_below children_of lookup same_key has insert
pod_below_deployment = refl
