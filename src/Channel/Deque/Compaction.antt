-- ===== src/Channel/Deque/Compaction.antt =====
-- `Compact` of pkg/util/channel/channel.go: sound on a wrapped deque given room, and a trap on a
-- straight one.
use kelemetry.Base.{
  ltb-true, ltb-false, ℕ, ◌+◌, ◌-◌, ◌≤◌, ◌<◌, ◌≡◌, refl, sym, ap, ◌∙◌, List, none, some, arith,
  length, take, drop, replicate, length-take, length-drop, length-replicate,
}
use kelemetry.Channel.Deque.{Deque, slice, write_all, len, cap, push_back, compact}
use kelemetry.Channel.Deque.Slices.{take-length, length-write_all, take-write_all_twice}
use kelemetry.Channel.Deque.Fifo.{IsValid, to_list, to_list-straight, to_list-wrapped}

module _ {ℓ} {A : Type ℓ} (zero_value : A) where
  -- On a valid deque whose contents do not wrap around, `Compact` succeeds, whatever the capacity, and
  -- leaves `end` behind the last slot, so that the next push panics.
  pub push_back-compact_straight :
      (q : Deque A) (capacity : ℕ) (x : A)
      → IsValid q
      → q.start ≤ q.end
      → (r : Deque A) × (compact zero_value capacity q ≡ some r) × (push_back zero_value r x ≡ none)
  unfolding compact push_back len
  push_back-compact_straight q capacity x v h =
      let l : length (slice q.start q.end q.slots) ≤ q.end - q.start =
        omega (arith, length-take (q.end - q.start) (drop q.start q.slots)) in
      rw (ltb-false q.end q.start h) (
        record q { slots = slice q.start q.end q.slots; start = 0; end = q.end - q.start },
        refl,
        rw (ltb-false (q.end - q.start) (length (slice q.start q.end q.slots)) l) refl,
      )

  module _ (q : Deque A) (capacity : ℕ) (v : IsValid q) (h : q.end < q.start) where
    len_wrapped : len q ≡ q.end + length q.slots - q.start
    unfolding len
    len_wrapped = rw (ltb-true q.end q.start h) refl

    fresh : List A
    fresh = replicate capacity zero_value

    copied : List A
    unfolding fresh
    copied =
        write_all (write_all fresh 0 (drop q.start q.slots)) (length q.slots - q.start)
          (take q.end q.slots)

    length-copied : length copied ≡ capacity
    unfolding copied
    length-copied =
        length-write_all (take q.end q.slots) _ (length q.slots - q.start)
        ∙ length-write_all (drop q.start q.slots) fresh 0
        ∙ length-replicate capacity zero_value

    take-copied : len q < capacity → take (len q) copied ≡ to_list q
    unfolding copied
    take-copied room =
        let a = length-drop q.start q.slots in
        let b = length-take q.end q.slots in
        ap
          (λ k.
            take (len q)
              (write_all (write_all fresh 0 (drop q.start q.slots)) k (take q.end q.slots)))
          (sym a)
        ∙ take-write_all_twice fresh (drop q.start q.slots) (take q.end q.slots) (len q)
            (omega (arith, a, b, len_wrapped, length-replicate capacity zero_value))
            (omega (arith, a, b, len_wrapped))
        ∙ sym (to_list-wrapped q h)

    -- On a valid deque whose contents wrap around, `Compact`, given more room than elements, keeps the contents in order, a valid deque,
    -- and the capacity that was asked for.
    compact-wrapped :
        len q < capacity
        → (r : Deque A) × (compact zero_value capacity q ≡ some r)
          × IsValid r
          × (to_list r ≡ to_list q)
          × (cap r ≡ capacity)
    unfolding compact copied cap
    compact-wrapped room =
        let moved : Deque A = record q { slots = copied; start = 0; end = len q } in
        let l = length-copied in
        (
          moved,
          rw
              (
                ltb-true q.end q.start h,
                ltb-false capacity (length q.slots - q.start) (omega (arith, len_wrapped)),
                take-length (take q.end q.slots) (capacity - (length q.slots - q.start))
                    (omega (arith, length-take q.end q.slots, len_wrapped)),
              )
              refl,
          record { start_in = omega (arith, l); end_in = omega (arith, l) },
          to_list-straight moved (omega arith)
              ∙ ap (λ k. take k copied) (omega arith)
              ∙ take-copied room,
          l,
        )
