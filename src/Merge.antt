-- ===== src/Merge.antt =====
-- pkg/frontend/reader/merge/merge.go: the traces of one object become one, the traces of linked
-- objects are put together in a tree for each connected component. Here are the keys of objects,
-- their order, and the links between them.
pub mod Order
pub mod Components
pub mod Roots
pub mod Objects
pub mod LinkMap
pub mod Linked
pub mod Traces
mod Tests
use Prim.Native.Nat.{Ordering}
use Prim.Native.String.{compare}
use kelemetry.Base.{
  ◌≡◌, refl, subst, ◌↔◌, Bool, true, false, not, ◌&&◌, List, [], ◌∷◌, Option, none, some, String,
  arith, if◌then◌else◌, Eq, ◌==◌, string_eq,
}
use kelemetry.Base.Map.{Map, lookup, insert}
use kelemetry.Aggregator.{Key}
use kelemetry.LinkTags.{LinkRole, parent_role, child_role, other_role}

-- Go's `==` on keys, field by field.
unfoldable pub same_key : Key → Key → Bool
same_key left right =
    left.cluster == right.cluster
    && left.group == right.group
    && left.resource == right.resource
    && left.namespace == right.namespace
    && left.name == right.name

and_five :
    (a b c d e : Bool)
    → (a && b && c && d && e) ≡ true
    → (a ≡ true) × (b ≡ true) × (c ≡ true) × (d ≡ true) × (e ≡ true)
and_five a b c d e h = ground arith

pub same_key_iff : (left right : Key) → (same_key left right ≡ true) ↔ (left ≡ right)
unfolding same_key
same_key_iff left right = (
  λ h.
      let same =
        and_five (left.cluster == right.cluster) (left.group == right.group)
          (left.resource == right.resource) (left.namespace == right.namespace)
          (left.name == right.name) h in
      λ i. record {
        cluster = (string_eq.beq_iff left.cluster right.cluster).0 same.0 i;
        group = (string_eq.beq_iff left.group right.group).0 same.1 i;
        resource = (string_eq.beq_iff left.resource right.resource).0 same.2 i;
        namespace = (string_eq.beq_iff left.namespace right.namespace).0 same.3 i;
        name = (string_eq.beq_iff left.name right.name).0 same.4 i;
      },
  λ p.
      subst (λ k. same_key left k ≡ true) p
        (rw
          (
            (string_eq.beq_iff left.cluster left.cluster).1 refl,
            (string_eq.beq_iff left.group left.group).1 refl,
            (string_eq.beq_iff left.resource left.resource).1 refl,
            (string_eq.beq_iff left.namespace left.namespace).1 refl,
            (string_eq.beq_iff left.name left.name).1 refl,
          )
          refl),
)

instance abbrev pub key_eq : Eq Key
key_eq = record { beq = same_key; beq_iff = same_key_iff }

-- Go's `<` on strings.
unfoldable pub string_less : String → String → Bool
string_less left right = elim (compare left right) [ Ordering.lt ↦ true | _ ↦ false ]

-- One comparison of `groupingKeyLess`: it decides if the two texts differ, else the next one does.
unfoldable pub less_then : String → String → Bool → Bool
unfolding string_less
less_then left right next = if left == right then next else string_less left right

unfoldable pub grouping_key_less : Key → Key → Bool
unfolding less_then
grouping_key_less left right = less_then left.group right.group (
    less_then left.resource right.resource (
      less_then left.cluster right.cluster
        (less_then left.namespace right.namespace (less_then left.name right.name false))))

pub record TargetLink : Type 0 where
  pub key : Key
  pub role : LinkRole
  pub class : String

pub record AbLink : Type 0 where
  pub alpha : Key
  pub beta : Key
  pub alpha_is_parent : Bool
  pub class : String

unfoldable pub is_parent : AbLink → Key → Bool
is_parent link key = if link.alpha_is_parent then link.alpha == key else link.beta == key

unfoldable pub is_child_role : LinkRole → Bool
is_child_role child_role = true
is_child_role parent_role = false
is_child_role (other_role s) = false

-- The two branches of `abLinkFromTargetLink`, by whether the subject is the lesser key.
unfoldable pub ab_link : Bool → Key → TargetLink → AbLink
unfolding is_child_role
ab_link true subject link = record {
  alpha = subject;
  beta = link.key;
  alpha_is_parent = is_child_role link.role;
  class = link.class;
}
ab_link false subject link = record {
  alpha = link.key;
  beta = subject;
  alpha_is_parent = not (is_child_role link.role);
  class = link.class;
}

unfoldable pub ab_link_from_target_link : Key → TargetLink → AbLink
unfolding grouping_key_less ab_link
ab_link_from_target_link subject link = ab_link (grouping_key_less subject link.key) subject link

abbrev pub AbLinkMap : Type 0
AbLinkMap = Map Key (Map Key AbLink)

unfoldable pub peers_or_empty : Option (Map Key AbLink) → Map Key AbLink
peers_or_empty none = []
peers_or_empty (some peers) = peers

-- `m[key]`, where a missing key reads as the nil map.
unfoldable pub peers_of : Key → AbLinkMap → Map Key AbLink
unfolding peers_or_empty
peers_of key m = peers_or_empty (lookup key m)

unfoldable pub insert_directed : Key → Key → AbLink → AbLinkMap → AbLinkMap
unfolding peers_of
insert_directed k1 k2 link m = insert k1 (insert k2 link (peers_of k1 m)) m

unfoldable pub insert_link : AbLink → AbLinkMap → AbLinkMap
unfolding insert_directed
insert_link link m =
    insert_directed link.beta link.alpha link (insert_directed link.alpha link.beta link m)
