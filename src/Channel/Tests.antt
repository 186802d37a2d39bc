-- ===== src/Channel/Tests.antt =====
-- Runs of the deque and the queue of pkg/util/channel/channel.go on small inputs.
use kelemetry.Base.{ℕ, ◌≡◌, refl, ◌≢◌, true, false, List, [], ◌∷◌, ◌++◌, none, some, arith}
use kelemetry.Channel.Deque.{
  get_and_reset_length, drop_front, write_all, expand, advance, expand_if_full, note_length, Deque,
  get_all, len, new_deque, push_back, pop_front, peek_front, compact,
}
use kelemetry.Channel.Deque.Fifo.{IsValid, to_list}
use kelemetry.Channel.Deque.Runs.{
  Call, step, push, pop, peek, size, measure, item, number, done, spec_run, run, new_deque_refines,
}
use kelemetry.Channel.Deque.Compaction.{push_back-compact_straight}
use kelemetry.Channel.Queue.{
  polling, waiting, holding, Queue, new_unbounded_queue, Step, Reach, here, next,
}
use kelemetry.Channel.Queue.Delivery.{in_flight, sent-conserved, waiting-signal}

abbrev calls : List (Call ℕ)
calls = push 7 ∷ push 8 ∷ pop ∷ push 9 ∷ size ∷ peek ∷ measure ∷ pop ∷ pop ∷ pop ∷ []

answers :
    run 0 (new_deque 0 1) calls
    ≡ some (
        done
        ∷ done
        ∷ item 7 true
        ∷ done
        ∷ number 2
        ∷ item 8 true
        ∷ number 2
        ∷ item 8 true
        ∷ item 9 true
        ∷ item 0 false
        ∷ [])
unfolding run step new_deque push_back pop_front peek_front len note_length expand_if_full advance
    expand write_all drop_front get_and_reset_length
answers = refl

new_deque_refines_example :
    run 0 (new_deque 0 1) calls ≡ some (spec_run 0 (record { items = []; peak = 0 }) calls)
new_deque_refines_example = new_deque_refines 0 1 calls (omega arith)

-- Slots 2 and 0 are in use, and slot 1 is free.
abbrev wrapped : Deque ℕ
wrapped = record { slots = 6 ∷ 0 ∷ 5 ∷ []; start = 2; end = 1; max_length = 2 }

abbrev wrapped-IsValid : IsValid wrapped
wrapped-IsValid = record { start_in = omega arith; end_in = omega arith }

abbrev straight : Deque ℕ
straight = record { slots = 5 ∷ 6 ∷ 0 ∷ 0 ∷ []; start = 0; end = 2; max_length = 2 }

abbrev straight-IsValid : IsValid straight
straight-IsValid = record { start_in = omega arith; end_in = omega arith }

push_back-compact_straight_example :
    (r : Deque ℕ) × (compact 0 3 straight ≡ some r) × (push_back 0 r 9 ≡ none)
push_back-compact_straight_example =
    push_back-compact_straight 0 straight 3 9 straight-IsValid (omega arith)

abbrev start : Queue ℕ
start = new_unbounded_queue 0 2

abbrev one_slot_used : Deque ℕ
one_slot_used = record { slots = 5 ∷ 0 ∷ []; start = 0; end = 1; max_length = 1 }

abbrev sent_one : Queue ℕ
sent_one = record {
  deque = one_slot_used;
  signal = false;
  loop = polling;
  sending = 1;
  sent = 5 ∷ [];
  delivered = [];
}

abbrev taken_one : Queue ℕ
taken_one = record {
  deque = record { slots = 0 ∷ 0 ∷ []; start = 1; end = 1; max_length = 1 };
  signal = false;
  loop = holding 5;
  sending = 1;
  sent = 5 ∷ [];
  delivered = [];
}

taken_one-Reach : Reach 0 start taken_one
unfolding new_unbounded_queue new_deque push_back pop_front note_length expand_if_full advance
    drop_front
taken_one-Reach =
    next (next here (Step.push 5 one_slot_used refl)) (Step.take_item 5 taken_one.deque refl refl)

sent-conserved_example : 5 ∷ [] ≡ [] ++ (in_flight (holding 5) ++ to_list taken_one.deque)
sent-conserved_example = sent-conserved 0 2 {t = taken_one} (omega arith) taken_one-Reach

abbrev asleep : Queue ℕ
asleep = record {
  deque = record { slots = 0 ∷ 0 ∷ []; start = 0; end = 0; max_length = 0 };
  signal = false;
  loop = waiting;
  sending = 0;
  sent = [];
  delivered = [];
}

abbrev signalled : Queue ℕ
signalled = record {
  deque = one_slot_used;
  signal = true;
  loop = waiting;
  sending = 0;
  sent = 5 ∷ [];
  delivered = [];
}

signalled-Reach : Reach 0 start signalled
unfolding new_unbounded_queue new_deque push_back pop_front note_length expand_if_full advance
signalled-Reach =
    next
      (next (next {t = start} {u = asleep} here (Step.find_none 0 asleep.deque refl refl))
        (Step.push 5 one_slot_used refl))
      (Step.notify 0 refl)

something_left : to_list one_slot_used ≢ []
unfolding get_all
something_left e = cc

waiting-signal_example : signalled.signal ≡ true
waiting-signal_example =
    waiting-signal 0 2 {t = signalled} (omega arith) signalled-Reach refl refl something_left
