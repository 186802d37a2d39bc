-- ===== src/Channel/Deque/Pop.antt =====
-- `LockedPopFront` and `LockedPeekFront` of pkg/util/channel/channel.go.
use mathlib.Core.Option
use native.Mathlib.Decide.{dec_lt}
use native.Mathlib.Nat.{mod-lt}
use kelemetry.Base.{
  suc, ◌+◌, ◌-◌, ◌≡◌, refl, sym, ap, ◌∙◌, ◌≢◌, ◌⊎◌, inl, inr, Bool, true, false, [], ◌∷◌, ◌++◌,
  Option, some, arith, length, set, get_elem?, take, drop, nat_beq, nat_beq_iff, length-set,
  get_elem?-some, Bool-cases,
}
use kelemetry.Channel.Deque.{Deque, slice, drop_front, pop_front, peek_front}
use kelemetry.Channel.Deque.Slices.{take-set_ge, drop-set_lt, drop-length, drop-suc, next_index}
use kelemetry.Channel.Deque.Fifo.{IsValid, to_list, to_list-straight, to_list-wrapped}

module _ {ℓ} {A : Type ℓ} where
  module _ (zero_value : A) where
    -- What taking the oldest element does, on an empty and on a non-empty deque.
    abbrev pub Pops : Deque A → Option (Deque A × A × Bool) → Type ℓ
    Pops q out =
        ((to_list q ≡ []) × (out ≡ some (q, zero_value, false)))
        ⊎ ((x : A) × (r : Deque A) × (to_list q ≡ x ∷ to_list r)
            × IsValid r
            × (r.max_length ≡ q.max_length)
            × (out ≡ some (r, x, true)))

    drop_front-IsValid : (q : Deque A) → IsValid q → IsValid (drop_front zero_value q)
    unfolding drop_front
    drop_front-IsValid q v = record {
      start_in = omega (
        arith,
        length-set q.slots q.start zero_value,
        mod-lt (q.start + 1) {m = length q.slots} (omega arith),
      );
      end_in = omega (arith, length-set q.slots q.start zero_value);
    }

    to_list-drop_front :
        (q : Deque A) (x : A)
        → IsValid q
        → q.start ≢ q.end
        → get_elem? q.slots q.start ≡ some x
        → to_list q ≡ x ∷ to_list (drop_front zero_value q)
    unfolding drop_front
    to_list-drop_front q x v ne found = elim (next_index q.start (length q.slots) v.start_in) [
      | inl (e, inside) ↦ elim (dec_lt q.start q.end) [
        | yes straight ↦
            let fewer : q.end - q.start ≡ suc (q.end - suc q.start) = omega arith in
            to_list-straight q (omega arith)
            ∙ rw (drop-suc q.slots q.start x found, fewer)
                (ap (◌∷◌ x) (
                  sym (
                    to_list-straight (drop_front zero_value q) (omega arith)
                    ∙ ap (λ k. slice k q.end (set q.slots q.start zero_value)) e
                    ∙ rw (drop-set_lt q.slots (suc q.start) q.start zero_value (omega arith))
                        refl)))
        | no other ↦
            to_list-wrapped q (omega arith)
            ∙ rw (drop-suc q.slots q.start x found) (
                ap (◌∷◌ x) (
                  sym (
                    to_list-wrapped (drop_front zero_value q) (omega arith)
                    ∙ ap
                        (λ k.
                          drop k (set q.slots q.start zero_value)
                          ++ take q.end (set q.slots q.start zero_value))
                        e
                    ∙ rw
                        (
                          drop-set_lt q.slots (suc q.start) q.start zero_value (omega arith),
                          take-set_ge q.slots q.end q.start zero_value (omega arith),
                        )
                        refl)))
      ]
      | inr (e, outside) ↦
          to_list-wrapped q (omega arith)
          ∙ rw (drop-suc q.slots q.start x found, drop-length q.slots (suc q.start) (omega arith))
              (ap (◌∷◌ x) (
                sym (
                  to_list-straight (drop_front zero_value q) (omega arith)
                  ∙ ap (λ k. slice k q.end (set q.slots q.start zero_value)) e
                  ∙ ap (λ k. take k (set q.slots q.start zero_value)) (omega arith)
                  ∙ take-set_ge q.slots q.end q.start zero_value (omega arith))))
    ]

    to_list_empty : (q : Deque A) → q.start ≡ q.end → to_list q ≡ []
    to_list_empty q e =
        let nothing : q.end - q.start ≡ 0 = omega arith in
        to_list-straight q (omega arith) ∙ rw nothing refl

    -- Pop takes the oldest element, or answers that there is none and changes nothing.
    pub pop_front-Pops : (q : Deque A) → IsValid q → Pops q (pop_front zero_value q)
    unfolding pop_front drop_front
    pop_front-Pops q v = elim (Bool-cases (nat_beq q.start q.end)) [
      | inl e ↦ rw e (inl (to_list_empty q ((nat_beq_iff q.start q.end).0 e), refl))
      | inr ne ↦
          let (x, found) = get_elem?-some q.slots q.start v.start_in in
          rw (ne, found)
            (inr (
              x,
              drop_front zero_value q,
              to_list-drop_front q x v (λ e. cc ((nat_beq_iff q.start q.end).1 e)) found,
              drop_front-IsValid q v,
              refl,
              refl,
            ))
    ]

    -- On a valid deque, peek shows the element that pop would take, and the same answer on an empty deque.
    pub peek-pop :
        (q : Deque A)
        → IsValid q
        → peek_front zero_value q ≡ Option.map (λ out. (out.1, out.2)) (pop_front zero_value q)
    unfolding peek_front pop_front
    peek-pop q v = elim (Bool-cases (nat_beq q.start q.end)) [
      | inl e ↦ rw e refl
      | inr ne ↦ let (x, found) = get_elem?-some q.slots q.start v.start_in in rw (ne, found) refl
    ]
