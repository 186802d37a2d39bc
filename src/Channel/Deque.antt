-- ===== src/Channel/Deque.antt =====
-- pkg/util/channel/channel.go, `Deque`: a ring buffer over a Go slice. Each operation holds the
-- deque's lock, so it is one function of the state; `none` is a Go panic (an index out of range).
mod Slices
pub mod Fifo
pub mod Push
pub mod Pop
pub mod Runs
pub mod Compaction
use kelemetry.Base.{
  ℕ, suc, ◌+◌, ◌-◌, ◌*◌, ◌%◌, Bool, true, false, List, [], ◌∷◌, Option, none, some, length, set,
  get_elem?, take, drop, replicate, ltb, ◌==◌, nat_eq, if◌then◌else◌,
}

-- The field `data` of the source is `slots` here; the mutex is left out.
pub record Deque {ℓ} (A : Type ℓ) : Type ℓ where
  pub slots : List A
  pub start : ℕ
  pub end : ℕ
  pub max_length : ℕ

-- A loop that stores the values of a slice at rising indices from `i`.
unfoldable pub write_all {ℓ} : {A : Type ℓ} → List A → ℕ → List A → List A
write_all dst i [] = dst
write_all dst i (x ∷ xs) = write_all (set dst i x) (i + 1) xs

module _ {ℓ} {A : Type ℓ} where
  -- `q.data[lo:hi]`
  abbrev pub slice : ℕ → ℕ → List A → List A
  slice lo hi xs = take (hi - lo) (drop lo xs)

  -- The two slices of `LockedGetAll`.
  unfoldable pub get_all : Deque A → List A × List A
  get_all q =
      if ltb q.end q.start
      then (drop q.start q.slots, take q.end q.slots)
      else (slice q.start q.end q.slots, [])

  -- The difference in Go may be negative; then the length of the slice is added.
  unfoldable pub len : Deque A → ℕ
  len q = if ltb q.end q.start then q.end + length q.slots - q.start else q.end - q.start

  pub cap : Deque A → ℕ
  cap q = length q.slots

  unfoldable pub get_and_reset_length : Deque A → Deque A × ℕ
  get_and_reset_length q = (record q { max_length = 0 }, q.max_length)

  -- `zero[T]()` is a parameter: antt has no zero values.
  module _ (zero_value : A) where
    unfoldable pub new_deque : ℕ → Deque A
    new_deque initial_capacity = record {
      slots = replicate initial_capacity zero_value;
      start = 0;
      end = 0;
      max_length = 0;
    }

    -- The first two statements of `LockedPushBack`, once the index is in range.
    unfoldable pub advance : Deque A → A → Deque A
    advance q obj = record q { slots = set q.slots q.end obj; end = (q.end + 1) % length q.slots }

    -- The block that doubles the slice when `end` meets `start`.
    unfoldable pub expand : Deque A → Deque A
    expand q =
        let fresh = replicate (length q.slots * 2) zero_value in
        let left_offset = length q.slots - q.start in
        record q {
          slots =
              write_all (write_all fresh 0 (drop q.start q.slots)) left_offset (take q.end q.slots);
          start = 0;
          end = length q.slots;
        }

    unfoldable pub expand_if_full : Deque A → Deque A
    expand_if_full q = if q.end == q.start then expand q else q

    unfoldable pub note_length : Deque A → Deque A
    unfolding len
    note_length q = if ltb q.max_length (len q) then record q { max_length = len q } else q

    unfoldable pub push_back : Deque A → A → Option (Deque A)
    push_back q obj =
        if ltb q.end (length q.slots)
        then some (note_length (expand_if_full (advance q obj)))
        else none

    -- The last statements of `LockedPopFront`: the slot is cleared and `start` moves on.
    unfoldable pub drop_front : Deque A → Deque A
    drop_front q = record q {
      slots = set q.slots q.start zero_value;
      start = (q.start + 1) % length q.slots;
    }

    pop_at_start : Deque A → Option A → Option (Deque A × A × Bool)
    pop_at_start q none = none
    pop_at_start q (some ret) = some (drop_front q, ret, true)

    unfoldable pub pop_front : Deque A → Option (Deque A × A × Bool)
    unfolding pop_at_start
    pop_front q =
        if q.start == q.end
        then some (q, zero_value, false)
        else pop_at_start q (get_elem? q.slots q.start)

    peek_at_start : Option A → Option (A × Bool)
    peek_at_start none = none
    peek_at_start (some ret) = some (ret, true)

    unfoldable pub peek_front : Deque A → Option (A × Bool)
    unfolding peek_at_start
    peek_front q =
        if q.start == q.end
        then some (zero_value, false)
        else peek_at_start (get_elem? q.slots q.start)

    -- `capacity` is the rounded product of the length with the float argument of `Compact`. A
    -- slice bound above the new capacity panics, and `copy` stops at the shorter slice.
    unfoldable pub compact : ℕ → Deque A → Option (Deque A)
    compact capacity q =
        let first_length = length q.slots - q.start in
        let fresh = replicate capacity zero_value in
        let head = write_all fresh 0 (drop q.start q.slots) in
        let tail = take (capacity - first_length) (take q.end q.slots) in
        let wrapped = record q {
          slots = write_all head first_length tail;
          start = 0;
          end = len q;
        } in
        let straight = record q { slots = slice q.start q.end q.slots; start = 0; end = len q } in
        if ltb q.end q.start
        then (if ltb capacity first_length then none else some wrapped)
        else some straight
