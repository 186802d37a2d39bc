-- ===== src/Merge/Roots/Tags.antt =====
-- The tags of a merged root of pkg/frontend/reader/merge/merge.go.
use kelemetry.Base.{
  ℕ, ◌<◌, ◌≡◌, refl, subst, ◌∙◌, true, [], Option, none, some, String, arith, if◌then◌else◌,
  string_eq, ltb, ltb-true,
}
use kelemetry.Base.Map.{lookup, has, IsMap}
use kelemetry.Merge.Roots.{
  Content, tag_positions, merge_tags, merge_root_interval, merge_root_tags, merge_root,
}
use kelemetry.Merge.Roots.Interval.{start_time-merge_root}
use kelemetry.Merge.Roots.Rounds.{merged_value, merge_tags-value, start_Ready}

newer_start : (b t : ℕ) → ltb (if ltb t b then t else b) t ≡ ltb b t
newer_start b t = ground arith

newer_wins : (base : Option String) (v : String) → merged_value true base (some v) ≡ some v
newer_wins none v = refl
newer_wins (some b) v = refl

module _ {ℓ} {L : Type ℓ} where
  -- When the tags of either root have distinct keys, so have those of the merged root: a key of one
  -- root keeps its value, and a key of both has the value of the second root if that is newer than
  -- the first, else that of the first.
  pub merge_root-tags :
      (base tail : Content L)
      → IsMap base.tags
      → IsMap tail.tags
      → IsMap (merge_root base tail).tags
        × ((k : String)
            → lookup k (merge_root base tail).tags
              ≡ merged_value
                  (ltb base.start_time tail.start_time)
                  (lookup k base.tags)
                  (lookup k tail.tags))
  unfolding merge_root merge_root_interval merge_root_tags
  merge_root-tags base tail m alone =
      let start =
        if ltb tail.start_time base.start_time then tail.start_time else base.start_time in
      let tag_pos = tag_positions 0 base.tags [] in
      subst
        (λ newer.
          IsMap (merge_tags (ltb start tail.start_time) tag_pos base.tags tail.tags)
          × ((k : String)
              → lookup k (merge_tags (ltb start tail.start_time) tag_pos base.tags tail.tags)
                ≡ merged_value newer (lookup k base.tags) (lookup k tail.tags)))
        (newer_start base.start_time tail.start_time)
        (merge_tags-value (ltb start tail.start_time) tag_pos base.tags tail.tags
          (start_Ready base.tags tail.tags) m alone)

  -- When the second trace to be merged is newer than both others, the third, though older than the
  -- second, has the last word on the tags that all have: it is compared with the first.
  pub third_overrides_second :
      (first second third : Content L) (k v : String)
      → IsMap first.tags
      → IsMap second.tags
      → IsMap third.tags
      → first.start_time < third.start_time
      → third.start_time < second.start_time
      → has k first.tags ≡ true
      → lookup k third.tags ≡ some v
      → lookup k (merge_root (merge_root first second) third).tags ≡ some v
  third_overrides_second first second third k v m1 m2 m3 early late there found =
      let one = merge_root-tags first second m1 m2 in
      let two = merge_root-tags (merge_root first second) third one.0 m3 in
      let start = start_time-merge_root first second in
      let newer =
        ltb-true (merge_root first second).start_time third.start_time
          (omega (arith, start, early, late)) in
      two.1 k ∙ rw (newer, found) (newer_wins (lookup k (merge_root first second).tags) v)
