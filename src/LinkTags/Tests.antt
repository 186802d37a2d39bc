-- ===== src/LinkTags/Tests.antt =====
-- Tags of pkg/util/zconstants/link.go on a small link.
use kelemetry.Base.{◌≡◌, refl, [], ◌∷◌, some, String, string_eq}
use kelemetry.Base.Map.{Map, lookup}
use kelemetry.Aggregator.{Rich}
use kelemetry.LinkTags.{
  LinkRef, parent_role, tag_linked_object, object_key_from_span, linked_key_from_span,
}
use kelemetry.LinkTags.RoundTrip.{linked_key_from_span-tag_linked_object}

abbrev pod : Rich
pod = record {
  key = record {
    cluster = "c";
    group = "";
    resource = "pods";
    namespace = "default";
    name = "web";
  };
  version = "v1";
}

abbrev owner : LinkRef
owner = record {
  key = record {
    cluster = "c";
    group = "apps";
    resource = "replicasets";
    namespace = "default";
    name = "web";
  };
  role = parent_role;
  class = "children";
}

abbrev tags : Map String String
tags = ("zzz-pseudoType", "link") ∷ ("cluster", "c") ∷ ("resource", "pods") ∷ []

is_link : lookup "zzz-pseudoType" tags ≡ some "link"
unfolding lookup
is_link = refl

linked_key_from_span-tag_linked_object_example :
    (linked_key_from_span (tag_linked_object tags owner) ≡ some owner.key)
    × (lookup "linkClass" (tag_linked_object tags owner) ≡ some "children")
    × (object_key_from_span (tag_linked_object tags owner) ≡ object_key_from_span tags)
linked_key_from_span-tag_linked_object_example =
    linked_key_from_span-tag_linked_object tags owner is_link
