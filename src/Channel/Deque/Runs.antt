-- ===== src/Channel/Deque/Runs.antt =====
-- The deque of pkg/util/channel/channel.go against a plain queue: any sequence of calls is answered
-- alike, and no call panics.
use kelemetry.Base.{
  ℕ, ◌<◌, ◌≡◌, refl, sym, ap, ◌∙◌, inl, inr, Bool, true, false, List, [], ◌∷◌, ◌++◌, Option, none,
  some, length,
}
use kelemetry.Channel.Deque.{
  Deque, get_all, len, get_and_reset_length, new_deque, push_back, pop_front, peek_front,
}
use kelemetry.Channel.Deque.Fifo.{raised, IsValid, to_list, len-length, new_deque-IsValid}
use kelemetry.Channel.Deque.Push.{push_back_lem}
use kelemetry.Channel.Deque.Pop.{pop_front-Pops, peek-pop}

-- The calls of a client. `measure` is `GetAndResetLength`.
pub data Call {ℓ} (A : Type ℓ) : Type ℓ where
  push : A → Call A
  pop peek size measure : Call A

pub data Answer {ℓ} (A : Type ℓ) : Type ℓ where
  done : Answer A
  item : A → Bool → Answer A
  number : ℕ → Answer A

-- The promise: a list, oldest first, and the greatest length that a push made since it was asked.
pub record Spec {ℓ} (A : Type ℓ) : Type ℓ where
  pub items : List A
  pub peak : ℕ

module _ {ℓ} {A : Type ℓ} (zero_value : A) where
  abbrev pub front : List A → Answer A
  front [] = item zero_value false
  front (x ∷ xs) = item x true

  abbrev pub rest : List A → List A
  rest [] = []
  rest (x ∷ xs) = xs

  abbrev pub spec_push : Spec A → A → Spec A
  spec_push s x =
      let longer = s.items ++ x ∷ [] in
      record { items = longer; peak = raised s.peak (length longer) }

  abbrev pub spec_step : Spec A → Call A → Spec A × Answer A
  spec_step s (push x) = (spec_push s x, done)
  spec_step s pop = (record s { items = rest s.items }, front s.items)
  spec_step s peek = (s, front s.items)
  spec_step s size = (s, number (length s.items))
  spec_step s measure = (record s { peak = 0 }, number s.peak)

  abbrev pub spec_run : Spec A → List (Call A) → List (Answer A)
  spec_run s [] = []
  spec_run s (c ∷ cs) = let (s', a) = spec_step s c in a ∷ spec_run s' cs

  pushed : Option (Deque A) → Option (Deque A × Answer A)
  pushed none = none
  pushed (some q) = some (q, done)

  popped : Option (Deque A × A × Bool) → Option (Deque A × Answer A)
  popped none = none
  popped (some (q, x, found)) = some (q, item x found)

  peeked : Deque A → Option (A × Bool) → Option (Deque A × Answer A)
  peeked q none = none
  peeked q (some (x, found)) = some (q, item x found)

  unfoldable pub step : Deque A → Call A → Option (Deque A × Answer A)
  unfolding pushed popped peeked
  step q (push x) = pushed (push_back zero_value q x)
  step q pop = popped (pop_front zero_value q)
  step q peek = peeked q (peek_front zero_value q)
  step q size = some (q, number (len q))
  step q measure = let (q', n) = get_and_reset_length q in some (q', number n)

  -- Any number of calls; `none` as soon as one panics.
  unfoldable pub run : Deque A → List (Call A) → Option (List (Answer A))
  run q [] = some []
  run q (c ∷ cs) = elim (step q c) [
    | none ↦ none
    | some (q', a) ↦ elim (run q' cs) [ none ↦ none | some as' ↦ some (a ∷ as') ]
  ]

  abbrev pub view : Deque A → Spec A
  view q = record { items = to_list q; peak = q.max_length }

  -- One call: the deque answers as the queue does, and stays valid.
  abbrev Follows : Deque A → Call A → Type ℓ
  Follows q c =
      (r : Deque A) × (step q c ≡ some (r, (spec_step (view q) c).1))
      × IsValid r
      × (view r ≡ (spec_step (view q) c).0)

  step-Follows : (q : Deque A) (c : Call A) → IsValid q → Follows q c
  unfolding step get_and_reset_length get_all
  step-Follows q (push x) v =
      let (r, ran, valid, holds, high) = push_back_lem zero_value q x v in
      let peak = rw holds at high in
      (r, rw (ran, pushed) refl, valid, λ i. record { items = holds i; peak = peak i })
  step-Follows q pop v = elim (pop_front-Pops zero_value q v) [
    | inl (nothing, out) ↦ (
      q,
      rw (out, popped, nothing) refl,
      v,
      λ i. record { items = (nothing ∙ sym (ap rest nothing)) i; peak = q.max_length },
    )
    | inr (x, r, holds, valid, same, out) ↦ (
      r,
      rw (out, popped, holds) refl,
      valid,
      λ i. record { items = sym (ap rest holds) i; peak = same i },
    )
  ]
  step-Follows q peek v = elim (pop_front-Pops zero_value q v) [
    | inl (nothing, out) ↦ (q, rw (peek-pop zero_value q v, out, nothing) refl, v, refl)
    | inr (x, r, holds, valid, same, out) ↦
        (q, rw (peek-pop zero_value q v, out, holds) refl, v, refl)
  ]
  step-Follows q size v = (q, rw (len-length q v) refl, v, refl)
  step-Follows q measure v =
      (record q { max_length = 0 }, refl, record { start_in = v.start_in; end_in = v.end_in }, refl)

  pub run-spec_run :
      (q : Deque A) (cs : List (Call A)) → IsValid q → run q cs ≡ some (spec_run (view q) cs)
  unfolding run
  run-spec_run q [] v = refl
  run-spec_run q (c ∷ cs) v =
      let (r, ran, valid, same) = step-Follows q c v in
      rw (ran, run) (rw (run-spec_run r cs valid, same) refl)

  -- A new deque with room, however small, behaves as an empty queue under any calls.
  pub new_deque_refines :
      (capacity : ℕ) (cs : List (Call A))
      → 0 < capacity
      → run (new_deque zero_value capacity) cs
        ≡ some (spec_run (record { items = []; peak = 0 }) cs)
  unfolding new_deque get_all
  new_deque_refines capacity cs h =
      run-spec_run (new_deque zero_value capacity) cs (new_deque-IsValid zero_value capacity h)
      ∙ ap (λ s. some (spec_run s cs)) refl
