-- ===== src/Channel/Deque/Fifo.antt =====
-- The deque of pkg/util/channel/channel.go as a first-in first-out queue: what it holds is a list,
-- oldest first, and each operation acts on that list.
use mathlib.Core.List.{append-nil}
use kelemetry.Base.{
  ltb, if◌then◌else◌, ℕ, ◌-◌, ◌≤◌, ◌<◌, ◌≡◌, refl, sym, List, [], ◌++◌, arith, length, take, drop,
  length-append, length-take, length-drop, length-replicate,
}
use kelemetry.Channel.Deque.{Deque, slice, get_all, len, new_deque}
use kelemetry.Channel.Deque.Slices.{take-length}

-- What the deque holds, oldest first.
abbrev pub to_list {ℓ} : {A : Type ℓ} → Deque A → List A
to_list q = (get_all q).0 ++ (get_all q).1

-- A recorded maximum after a length is noted.
abbrev pub raised : ℕ → ℕ → ℕ
raised high n = if ltb high n then n else high

-- `start == end` means empty, so the deque is never full.
pub record IsValid {ℓ} {A : Type ℓ} (q : Deque A) : Type 0 where
  pub start_in : q.start < length q.slots
  pub end_in : q.end < length q.slots

module _ {ℓ} {A : Type ℓ} where
  pub to_list-straight : (q : Deque A) → q.start ≤ q.end → to_list q ≡ slice q.start q.end q.slots
  unfolding get_all
  to_list-straight q h = ground (arith, append-nil (slice q.start q.end q.slots))

  pub to_list-wrapped :
      (q : Deque A) → q.end < q.start → to_list q ≡ drop q.start q.slots ++ take q.end q.slots
  unfolding get_all
  to_list-wrapped q h = ground arith

  pub drop-eq-slice : (xs : List A) (i : ℕ) → drop i xs ≡ slice i (length xs) xs
  drop-eq-slice xs i = sym (take-length (drop i xs) _ (omega (arith, length-drop i xs)))

  -- Len counts what is held.
  pub len-length : (q : Deque A) → IsValid q → len q ≡ length (to_list q)
  unfolding len get_all
  len-length q v = ground (
    arith,
    length-append (drop q.start q.slots) (take q.end q.slots),
    length-drop q.start q.slots,
    length-take q.end q.slots,
    length-append (slice q.start q.end q.slots) [],
    length-take (q.end - q.start) (drop q.start q.slots),
  )

  module _ (zero_value : A) where
    pub new_deque-IsValid : (n : ℕ) → 0 < n → IsValid (new_deque zero_value n)
    unfolding new_deque
    new_deque-IsValid n h = record {
      start_in = omega (arith, length-replicate n zero_value);
      end_in = omega (arith, length-replicate n zero_value);
    }

    pub to_list-new_deque : (n : ℕ) → to_list (new_deque zero_value n) ≡ []
    unfolding new_deque get_all
    to_list-new_deque n = refl
