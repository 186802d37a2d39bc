-- ===== src/LinkTags.antt =====
-- pkg/util/zconstants/link.go and the keys of pkg/util/object/key.go: objects and links written into
-- the tags of a span and read back. The tags of a stored span are a map here.
pub mod RoundTrip
mod Tests
use kelemetry.Base.{
  Bool, true, false, List, [], ◌∷◌, Option, none, some, String, if◌then◌else◌, Eq, ◌==◌, string_eq,
}
use kelemetry.Base.Map.{Map, lookup, insert}
use kelemetry.Aggregator.{Key}

-- A role is a text in the source; every other text is `other_role`.
pub data LinkRole : Type 0 where
  parent_role child_role : LinkRole
  other_role : String → LinkRole

unfoldable pub role_text : LinkRole → String
role_text parent_role = "parent"
role_text child_role = "child"
role_text (other_role s) = s

unfoldable pub reverse_link_role : LinkRole → LinkRole
reverse_link_role parent_role = child_role
reverse_link_role child_role = parent_role
reverse_link_role (other_role s) = other_role s

pub record LinkRef : Type 0 where
  pub key : Key
  pub role : LinkRole
  pub class : String

unfoldable pub tag_linked_object : Map String String → LinkRef → Map String String
unfolding role_text
tag_linked_object tags ln = insert "linkClass" ln.class (
    insert "linkRole" (role_text ln.role) (
      insert "linkedName" ln.key.name (
        insert "linkedNamespace" ln.key.namespace (
          insert "linkedResource" ln.key.resource
            (insert "linkedGroup" ln.key.group (insert "linkedCluster" ln.key.cluster tags))))))

-- A tag that is missing reads as the empty text.
abbrev pub text_of : Option String → String
text_of none = ""
text_of (some s) = s

unfoldable pub object_key_from_span : Map String String → Key
object_key_from_span tags = record {
  cluster = text_of (lookup "cluster" tags);
  group = text_of (lookup "group" tags);
  resource = text_of (lookup "resource" tags);
  namespace = text_of (lookup "namespace" tags);
  name = text_of (lookup "name" tags);
}

unfoldable pub linked_key : Map String String → Key
linked_key tags = record {
  cluster = text_of (lookup "linkedCluster" tags);
  group = text_of (lookup "linkedGroup" tags);
  resource = text_of (lookup "linkedResource" tags);
  namespace = text_of (lookup "linkedNamespace" tags);
  name = text_of (lookup "linkedName" tags);
}

unfoldable pub if_link : Option String → Key → Option Key
if_link none key = none
if_link (some pseudo_type) key = if pseudo_type == "link" then some key else none

-- The key, if the span is a link.
unfoldable pub linked_key_from_span : Map String String → Option Key
unfolding linked_key if_link
linked_key_from_span tags = if_link (lookup "zzz-pseudoType" tags) (linked_key tags)
