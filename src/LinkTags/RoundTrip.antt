-- ===== src/LinkTags/RoundTrip.antt =====
-- What pkg/util/zconstants/link.go writes into tags is read back.
use kelemetry.Base.{◌≡◌, refl, some, String, string_eq}
use kelemetry.Base.Map.{Map, lookup, insert, lookup-insert}
use kelemetry.Aggregator.{Rich, key_to_span_tags, versioned_key_to_span_tags}
use kelemetry.LinkTags.{
  LinkRef, tag_linked_object, object_key_from_span, linked_key, if_link, linked_key_from_span,
}

linked_key-tag_linked_object :
    (tags : Map String String) (ln : LinkRef) → linked_key (tag_linked_object tags ln) ≡ ln.key
unfolding linked_key tag_linked_object
linked_key-tag_linked_object tags ln = simp lookup-insert refl

-- A link that is written into the tags of a link span is read back with its class, and leaves the
-- key of the span's own object.
pub linked_key_from_span-tag_linked_object :
    (tags : Map String String) (ln : LinkRef)
    → lookup "zzz-pseudoType" tags ≡ some "link"
    → (linked_key_from_span (tag_linked_object tags ln) ≡ some ln.key)
      × (lookup "linkClass" (tag_linked_object tags ln) ≡ some ln.class)
      × (object_key_from_span (tag_linked_object tags ln) ≡ object_key_from_span tags)
unfolding linked_key_from_span linked_key tag_linked_object object_key_from_span if_link
linked_key_from_span-tag_linked_object tags ln link =
    (simp (lookup-insert, link) refl, simp lookup-insert refl, simp lookup-insert refl)

-- The key that a span is tagged with is read back from its tags.
pub object_key_from_span-versioned_key_to_span_tags :
    (object : Rich) → object_key_from_span (versioned_key_to_span_tags object) ≡ object.key
unfolding object_key_from_span versioned_key_to_span_tags key_to_span_tags lookup insert
object_key_from_span-versioned_key_to_span_tags object = refl
