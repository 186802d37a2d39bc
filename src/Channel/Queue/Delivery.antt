-- ===== src/Channel/Queue/Delivery.antt =====
-- What `UnboundedQueue` of pkg/util/channel/channel.go promises: nothing is lost, doubled or
-- reordered, and the receiver never sleeps on a deque that holds something.
use mathlib.Core.List.{append_assoc}
use kelemetry.Base.{
  ℕ, suc, ◌<◌, ◌≡◌, refl, sym, ap, subst, ◌∙◌, ◌≢◌, ◌⊎◌, inl, inr, Bool, true, false, List, [], ◌∷◌,
  ◌++◌, some, arith,
}
use kelemetry.Channel.Deque.{Deque, push_back, pop_front}
use kelemetry.Channel.Deque.Fifo.{IsValid, to_list, new_deque-IsValid, to_list-new_deque}
use kelemetry.Channel.Deque.Push.{push_back_lem}
use kelemetry.Channel.Deque.Pop.{pop_front-Pops}
use kelemetry.Channel.Queue.{
  Loop, polling, waiting, holding, closed, Queue, new_unbounded_queue, Step, push, notify,
  take_item, find_none, deliver, wake, close_holding, close_waiting, Reach, here, next,
}

-- What the loop has taken and not delivered.
abbrev pub in_flight {ℓ} : {A : Type ℓ} → Loop A → List A
in_flight polling = []
in_flight waiting = []
in_flight (holding x) = x ∷ []
in_flight (closed dropped) = dropped

-- A sleeping loop has an empty deque, a pending signal, or a sender about to signal.
abbrev pub Awake {ℓ} : {A : Type ℓ} → Queue A → Type ℓ
Awake s =
    s.loop ≡ waiting → (to_list s.deque ≡ []) ⊎ (s.signal ≡ true) ⊎ ((n : ℕ) × (s.sending ≡ suc n))

pub record Inv {ℓ} {A : Type ℓ} (s : Queue A) : Type ℓ where
  pub valid : IsValid s.deque
  pub conserved : s.sent ≡ s.delivered ++ (in_flight s.loop ++ to_list s.deque)
  pub awake : Awake s

module _ {ℓ} {A : Type ℓ} (zero_value : A) where
  new_unbounded_queue-Inv : (n : ℕ) → 0 < n → Inv (new_unbounded_queue zero_value n)
  unfolding new_unbounded_queue
  new_unbounded_queue-Inv n h = record {
    valid = new_deque-IsValid zero_value n h;
    conserved = sym (to_list-new_deque zero_value n);
    awake = λ e. absurd (cc);
  }

  push-Inv :
      (s : Queue A) (x : A) (d : Deque A)
      → Inv s
      → push_back zero_value s.deque x ≡ some d
      → Inv (record s { deque = d; sending = suc s.sending; sent = s.sent ++ x ∷ [] })
  push-Inv s x d v e =
      let (r, ran, valid, holds, _) = push_back_lem zero_value s.deque x v.valid in
      let same : r ≡ d = cc in
      record {
        valid = subst IsValid same valid;
        conserved =
            ap (λ l. l ++ x ∷ []) v.conserved
            ∙ append_assoc s.delivered (in_flight s.loop ++ to_list s.deque) (x ∷ [])
            ∙ ap (◌++◌ s.delivered) (
                append_assoc (in_flight s.loop) (to_list s.deque) (x ∷ [])
                ∙ ap (◌++◌ (in_flight s.loop)) (sym holds ∙ ap to_list same));
        awake = λ _. inr (inr (s.sending, refl));
      }

  take_item-Inv :
      (s : Queue A) (x : A) (d : Deque A)
      → Inv s
      → s.loop ≡ polling
      → pop_front zero_value s.deque ≡ some (d, x, true)
      → Inv (record s { deque = d; loop = holding x })
  take_item-Inv s x d v at e = elim (pop_front-Pops zero_value s.deque v.valid) [
    | inl (nothing, out) ↦ absurd (cc)
    | inr (y, r, holds, valid, _, out) ↦
        let deque_same : r ≡ d = cc in
        let item_same : y ≡ x = cc in
        record {
          valid = subst IsValid deque_same valid;
          conserved =
              v.conserved
              ∙ ap (λ l. s.delivered ++ (in_flight l ++ to_list s.deque)) at
              ∙ ap (◌++◌ s.delivered)
                  (holds ∙ ap (λ z. z ∷ to_list r) item_same ∙ ap (λ q. x ∷ to_list q) deque_same);
          awake = λ w. absurd (cc);
        }
  ]

  find_none-Inv :
      (s : Queue A) (x : A) (d : Deque A)
      → Inv s
      → s.loop ≡ polling
      → pop_front zero_value s.deque ≡ some (d, x, false)
      → Inv (record s { deque = d; loop = waiting })
  find_none-Inv s x d v at e = elim (pop_front-Pops zero_value s.deque v.valid) [
    | inl (nothing, out) ↦
        let same : s.deque ≡ d = cc in
        record {
          valid = subst IsValid same v.valid;
          conserved =
              v.conserved
              ∙ ap (λ l. s.delivered ++ (in_flight l ++ to_list s.deque)) at
              ∙ ap (λ q. s.delivered ++ to_list q) same;
          awake = λ _. inl (ap to_list (sym same) ∙ nothing);
        }
    | inr (y, r, holds, valid, _, out) ↦ absurd (cc)
  ]

  -- A step that moves the loop alone, and none of what is in flight.
  loop-Inv :
      (s : Queue A) (loop : Loop A) (signal : Bool)
      → Inv s
      → in_flight s.loop ≡ in_flight loop
      → loop ≢ waiting
      → Inv (record s { loop = loop; signal = signal })
  loop-Inv s loop signal v same busy = record {
    valid = v.valid;
    conserved = v.conserved ∙ ap (λ l. s.delivered ++ (l ++ to_list s.deque)) same;
    awake = λ w. absurd (busy w);
  }

  Step-Inv : {s t : Queue A} → Step zero_value s t → Inv s → Inv t
  Step-Inv {s} (push x d e) v = push-Inv s x d v e
  Step-Inv {s} (notify n e) v = record {
    valid = v.valid;
    conserved = v.conserved;
    awake = λ _. inr (inl refl);
  }
  Step-Inv {s} (take_item x d at e) v = take_item-Inv s x d v at e
  Step-Inv {s} (find_none x d at e) v = find_none-Inv s x d v at e
  Step-Inv {s} (deliver x at) v = record {
    valid = v.valid;
    conserved =
        v.conserved
        ∙ ap (λ l. s.delivered ++ (in_flight l ++ to_list s.deque)) at
        ∙ sym (append_assoc s.delivered (x ∷ []) (to_list s.deque));
    awake = λ w. absurd (cc);
  }
  Step-Inv {s} (wake at up) v = loop-Inv s polling false v (ap in_flight at) (λ w. cc)
  Step-Inv {s} (close_holding x at) v =
      loop-Inv s (closed (x ∷ [])) s.signal v (ap in_flight at) (λ w. cc)
  Step-Inv {s} (close_waiting at) v = loop-Inv s (closed []) s.signal v (ap in_flight at) (λ w. cc)

  Reach-Inv : {s t : Queue A} → Reach zero_value s t → Inv s → Inv t
  Reach-Inv here v = v
  Reach-Inv (next r st) v = Step-Inv st (Reach-Inv r v)

  -- Whatever the interleaving, the items sent are the items delivered, then the one in flight, then
  -- those in the deque, in this order.
  pub sent-conserved :
      (n : ℕ) {t : Queue A}
      → 0 < n
      → Reach zero_value (new_unbounded_queue zero_value n) t
      → t.sent ≡ t.delivered ++ (in_flight t.loop ++ to_list t.deque)
  sent-conserved n h r = (Reach-Inv r (new_unbounded_queue-Inv n h)).conserved

  -- No wakeup is lost: once every sender has returned, a sleeping loop over a deque that holds
  -- something has its signal.
  pub waiting-signal :
      (n : ℕ) {t : Queue A}
      → 0 < n
      → Reach zero_value (new_unbounded_queue zero_value n) t
      → t.sending ≡ 0
      → t.loop ≡ waiting
      → to_list t.deque ≢ []
      → t.signal ≡ true
  waiting-signal n h r quiet at some_left =
      elim ((Reach-Inv r (new_unbounded_queue-Inv n h)).awake at) [
        | inl nothing ↦ absurd (some_left nothing)
        | inr (inl up) ↦ up
        | inr (inr (m, e)) ↦ absurd (omega arith)
      ]
