-- ===== src/Channel/Deque/Push.antt =====
-- `LockedPushBack` of pkg/util/channel/channel.go: the store, the growth of the slice, and what the
-- deque holds afterwards.
use mathlib.Core.List.{append_assoc, append-nil}
use native.Mathlib.Decide.{dec_lt}
use native.Mathlib.Nat.{mod-lt, le_of_eq}
use kelemetry.Base.{
  ltb, ◌+◌, ◌-◌, ◌*◌, ◌≤◌, ◌≡◌, refl, sym, ap, ◌∙◌, ◌≢◌, inl, inr, [], ◌∷◌, ◌++◌, some, arith,
  length, set, take, drop, replicate, ltb, nat_beq, nat_beq_iff, length-set, length-take,
  length-drop, length-replicate, Bool-cases,
}
use kelemetry.Channel.Deque.{
  Deque, slice, write_all, get_all, len, advance, expand, expand_if_full, note_length, push_back,
}
use kelemetry.Channel.Deque.Slices.{
  drop-set_lt, slice-set-suc, length-write_all, take-set-suc, next_index, take-write_all_twice,
}
use kelemetry.Channel.Deque.Fifo.{
  IsValid, to_list, to_list-straight, to_list-wrapped, drop-eq-slice, len-length, raised, raised,
}

module _ {ℓ} {A : Type ℓ} where
  module _ (zero_value : A) where
    module _ (q : Deque A) (obj : A) (v : IsValid q) where
      length-advance : length (advance zero_value q obj).slots ≡ length q.slots
      unfolding advance
      length-advance = length-set q.slots q.end obj

      -- The store with `end` behind `start`, or meeting it.
      advance-rotated :
          (advance zero_value q obj).end ≤ q.start
          → drop q.start (advance zero_value q obj).slots
              ++ take (advance zero_value q obj).end (advance zero_value q obj).slots
            ≡ to_list q ++ obj ∷ []
      unfolding advance
      advance-rotated h = elim (next_index q.end (length q.slots) v.end_in) [
        | inl (e, inside) ↦
            ap (λ k. drop q.start (set q.slots q.end obj) ++ take k (set q.slots q.end obj)) e
            ∙ rw
                (
                  drop-set_lt q.slots q.start q.end obj (omega arith),
                  take-set-suc q.slots q.end obj v.end_in,
                )
                (sym (append_assoc (drop q.start q.slots) (take q.end q.slots) (obj ∷ [])))
            ∙ ap (λ l. l ++ obj ∷ []) (sym (to_list-wrapped q (omega arith)))
        | inr (e, outside) ↦
            ap (λ k. drop q.start (set q.slots q.end obj) ++ take k (set q.slots q.end obj)) e
            ∙ append-nil (drop q.start (set q.slots q.end obj))
            ∙ drop-eq-slice (set q.slots q.end obj) q.start
            ∙ ap (λ k. slice q.start k (set q.slots q.end obj)) (length-advance ∙ sym outside)
            ∙ slice-set-suc q.slots q.start q.end obj (omega arith) v.end_in
            ∙ ap (λ l. l ++ obj ∷ []) (sym (to_list-straight q (omega arith)))
      ]

      -- After the store the deque is one longer, unless `end` has met `start`.
      advance-not_full :
          (advance zero_value q obj).end ≢ q.start
          → to_list (advance zero_value q obj) ≡ to_list q ++ obj ∷ []
      unfolding advance
      advance-not_full h = elim (dec_lt (advance zero_value q obj).end q.start) [
        | yes behind ↦
            to_list-wrapped (advance zero_value q obj) behind ∙ advance-rotated (omega arith)
        | no ahead ↦ elim (next_index q.end (length q.slots) v.end_in) [
          | inl (e, inside) ↦
              to_list-straight (advance zero_value q obj) (omega arith)
              ∙ ap (λ k. slice q.start k (set q.slots q.end obj)) e
              ∙ slice-set-suc q.slots q.start q.end obj (omega arith) v.end_in
              ∙ ap (λ l. l ++ obj ∷ []) (sym (to_list-straight q (omega arith)))
          | inr (e, outside) ↦ absurd (omega arith)
        ]
      ]

      advance-IsValid : IsValid (advance zero_value q obj)
      unfolding advance
      advance-IsValid = record {
        start_in = omega (arith, length-advance);
        end_in = omega (
          arith,
          length-set q.slots q.end obj,
          mod-lt (q.end + 1) {m = length q.slots} (omega arith),
        );
      }

    -- The doubled slice begins with what was held.
    expand-IsValid : (q : Deque A) → IsValid q → IsValid (expand zero_value q)
    unfolding expand
    expand-IsValid q v =
        let n = length q.slots in
        let fresh = replicate (n * 2) zero_value in
        let both =
          length-write_all (take q.end q.slots) (write_all fresh 0 (drop q.start q.slots))
            (n - q.start)
          ∙ length-write_all (drop q.start q.slots) fresh 0
          ∙ length-replicate (n * 2) zero_value in
        record { start_in = omega (arith, both); end_in = omega (arith, both) }

    to_list-expand :
        (q : Deque A)
        → IsValid q
        → q.end ≡ q.start
        → to_list (expand zero_value q) ≡ drop q.start q.slots ++ take q.end q.slots
    unfolding expand
    to_list-expand q v full =
        let n = length q.slots in
        let fresh = replicate (n * 2) zero_value in
        let copied = write_all fresh 0 (drop q.start q.slots) in
        to_list-straight (expand zero_value q) (omega arith)
        ∙ ap (λ k. take k (write_all copied (n - q.start) (take q.end q.slots))) (omega arith)
        ∙ ap (λ k. take n (write_all copied k (take q.end q.slots)))
            (sym (length-drop q.start q.slots))
        ∙ take-write_all_twice fresh (drop q.start q.slots) (take q.end q.slots) n
            (omega (
              arith,
              length-drop q.start q.slots,
              length-take q.end q.slots,
              length-replicate (n * 2) zero_value,
            ))
            (omega (arith, length-drop q.start q.slots, length-take q.end q.slots))

    note_length-keeps :
        (q : Deque A)
        → IsValid q
        → IsValid (note_length zero_value q) × (to_list (note_length zero_value q) ≡ to_list q)
    unfolding note_length get_all
    note_length-keeps q v = elim (Bool-cases (ltb q.max_length (len q))) [
      | inl e ↦ rw e (record { start_in = v.start_in; end_in = v.end_in }, refl)
      | inr e ↦ rw e (v, refl)
    ]

    expand_if_full-keeps :
        (q : Deque A) (obj : A)
        → IsValid q
        → IsValid (expand_if_full zero_value (advance zero_value q obj))
          × (to_list (expand_if_full zero_value (advance zero_value q obj)) ≡ to_list q ++ obj ∷ [])
    unfolding expand_if_full advance
    expand_if_full-keeps q obj v =
        elim (Bool-cases
          (nat_beq (advance zero_value q obj).end (advance zero_value q obj).start)) [
            | inl full ↦
                let e = (nat_beq_iff (advance zero_value q obj).end _).0 full in
                rw full (
                  expand-IsValid _ (advance-IsValid q obj v),
                  to_list-expand _ (advance-IsValid q obj v) e
                      ∙ advance-rotated q obj v (le_of_eq e),
                )
            | inr room ↦ rw room (
              advance-IsValid q obj v,
              advance-not_full q obj v
                  (λ e. cc ((nat_beq_iff (advance zero_value q obj).end _).1 e)),
            )
          ]

    max_length-note_length :
        (q : Deque A) → (note_length zero_value q).max_length ≡ raised q.max_length (len q)
    unfolding note_length
    max_length-note_length q = elim (Bool-cases (ltb q.max_length (len q))) [
      | inl e ↦ rw e refl
      | inr e ↦ rw e refl
    ]

    max_length-expand_if_full :
        (q : Deque A) (obj : A)
        → (expand_if_full zero_value (advance zero_value q obj)).max_length ≡ q.max_length
    unfolding expand_if_full advance expand
    max_length-expand_if_full q obj =
        elim (Bool-cases (nat_beq (advance zero_value q obj).end q.start)) [
          | inl e ↦ rw e refl
          | inr e ↦ rw e refl
        ]

    -- Push succeeds on a valid deque, keeps it valid, puts the new element behind the others, and
    -- raises the recorded maximum to the new length.
    pub push_back_lem :
        (q : Deque A) (obj : A)
        → IsValid q
        → (r : Deque A) × (push_back zero_value q obj ≡ some r)
          × IsValid r
          × (to_list r ≡ to_list q ++ obj ∷ [])
          × (r.max_length ≡ raised q.max_length (length (to_list r)))
    unfolding push_back
    push_back_lem q obj v =
        let grown = expand_if_full zero_value (advance zero_value q obj) in
        let (kept, holds) = expand_if_full-keeps q obj v in
        let (noted, same) = note_length-keeps grown kept in
        let n = len-length grown kept in
        (
          note_length zero_value grown,
          ground arith,
          noted,
          same ∙ holds,
          max_length-note_length grown
              ∙ ap (λ m. raised m (len grown)) (max_length-expand_if_full q obj)
              ∙ ap (raised q.max_length) (n ∙ ap length (sym same)),
        )
