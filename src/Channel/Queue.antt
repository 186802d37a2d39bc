-- ===== src/Channel/Queue.antt =====
-- pkg/util/channel/channel.go, `UnboundedQueue`: senders, the deque, the one-slot notifier and the
-- receiver loop, as a step relation whose steps interleave freely.
pub mod Delivery
use kelemetry.Base.{ℕ, zero, suc, ◌≡◌, Bool, true, false, List, [], ◌∷◌, ◌++◌, some}
use kelemetry.Channel.Deque.{Deque, new_deque, push_back, pop_front}

-- Where the receiver loop stands. `polling` is before `PopFront`, `holding` at the send of an item,
-- `waiting` at the notifier. The argument of `closed` is what was dropped, for the statements only.
pub data Loop {ℓ} (A : Type ℓ) : Type ℓ where
  polling waiting : Loop A
  holding : A → Loop A
  closed : List A → Loop A

-- `sending` counts the calls of `Send` between the push and the notification. `sent` and
-- `delivered` record the history.
pub record Queue {ℓ} (A : Type ℓ) : Type ℓ where
  pub deque : Deque A
  pub signal : Bool
  pub loop : Loop A
  pub sending : ℕ
  pub sent : List A
  pub delivered : List A

module _ {ℓ} {A : Type ℓ} (zero_value : A) where
  unfoldable pub new_unbounded_queue : ℕ → Queue A
  new_unbounded_queue initial_capacity = record {
    deque = new_deque zero_value initial_capacity;
    signal = false;
    loop = polling;
    sending = 0;
    sent = [];
    delivered = [];
  }

  pub data Step (s : Queue A) : Queue A → Type ℓ where
    -- `Send`: the push, then the notification, which a full notifier makes a no-op.
    push :
        (x : A) (d : Deque A)
        → push_back zero_value s.deque x ≡ some d
        → Step s (record s { deque = d; sending = suc s.sending; sent = s.sent ++ x ∷ [] })
    notify : (n : ℕ) → s.sending ≡ suc n → Step s (record s { signal = true; sending = n })
    -- `receiverLoop`: `PopFront` with and without an item, the send, the notification, `ctx.Done`.
    take_item :
        (x : A) (d : Deque A)
        → s.loop ≡ polling
        → pop_front zero_value s.deque ≡ some (d, x, true)
        → Step s (record s { deque = d; loop = holding x })
    find_none :
        (x : A) (d : Deque A)
        → s.loop ≡ polling
        → pop_front zero_value s.deque ≡ some (d, x, false)
        → Step s (record s { deque = d; loop = waiting })
    deliver :
        (x : A)
        → s.loop ≡ holding x
        → Step s (record s { loop = polling; delivered = s.delivered ++ x ∷ [] })
    wake : s.loop ≡ waiting → s.signal ≡ true → Step s (record s { signal = false; loop = polling })
    close_holding : (x : A) → s.loop ≡ holding x → Step s (record s { loop = closed (x ∷ []) })
    close_waiting : s.loop ≡ waiting → Step s (record s { loop = closed [] })

  pub data Reach (s : Queue A) : Queue A → Type ℓ where
    here : Reach s s
    next : {t u : Queue A} → Reach s t → Step t u → Reach s u
