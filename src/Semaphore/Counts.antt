-- ===== src/Semaphore/Counts.antt =====
-- What the counters of pkg/util/semaphore/semaphore.go count.
use kelemetry.Base.{
  ℕ, suc, ◌+◌, ◌*◌, ◌≤◌, ◌≡◌, ◌≢◌, refl, sym, ◌∙◌, inl, inr, true, false, Option, none, some, arith,
  lt_of_ltb,
}
use kelemetry.Semaphore.{
  Main, before_run, publishing, returned_nil, Semaphore, new, has_room, take_slot, free_slot,
  CanSchedule, Step, schedule, run, acquire, give_up, start, skip, finish, fail, offer, receive,
  drop_offer, release, sign_off, published, publish_failed, watch, return_nil, return_error,
  cancelled, Steps, done, next, Reachable,
}

-- The tasks that hold a slot.
abbrev pub in_slots : Semaphore → ℕ
in_slots s = s.holding + s.running + s.offering + s.leaving

-- A publish function that runs has one of the counts of `doneWg`, and one that is offered another.
abbrev pub publish_count : Main → ℕ
publish_count m = elim m [ publishing ↦ 1 | _ ↦ 0 ]

abbrev pub SlotsHeld : Option ℕ → ℕ → ℕ → Type 0
SlotsHeld none slots held = slots ≡ 0
SlotsHeld (some limit) slots held = (slots ≡ held) × (slots ≤ limit)

-- What `doneWg` counts.
abbrev pub counts : Semaphore → ℕ
counts s =
    s.queued
    + s.holding
    + s.running
    + 2 * s.offering
    + s.leaving
    + s.released
    + publish_count s.main

pub record Counted (limit : Option ℕ) (s : Semaphore) : Type 0 where
  pub wg : s.done_wg ≡ counts s
  pub held : SlotsHeld limit s.slots (in_slots s)
  pub closed : s.done_closed ≡ true → (s.done_wg ≡ 0) × (s.main ≢ before_run)
  pub begun : s.started ≡ false → (s.main ≡ before_run)
  pub going : s.started ≡ true → s.main ≢ before_run
  pub ended : s.main ≡ returned_nil → s.done_closed ≡ true

held_take :
    (limit : Option ℕ) (slots held held' : ℕ)
    → has_room limit slots ≡ true
    → SlotsHeld limit slots held
    → held' ≡ suc held
    → SlotsHeld limit (take_slot limit slots) held'
unfolding has_room take_slot
held_take none slots held held' room h e = h
held_take (some n) slots held held' room h e =
    (omega (arith, h.0, e), omega (arith, lt_of_ltb slots n room))

held_free :
    (limit : Option ℕ) (slots held held' : ℕ)
    → SlotsHeld limit slots held
    → held ≡ suc held'
    → SlotsHeld limit (free_slot limit slots) held'
unfolding free_slot
held_free none slots held held' h e = h
held_free (some n) slots held held' h e = (omega (arith, h.0, e), omega (arith, h.1))

held_same :
    (limit : Option ℕ) (slots held held' : ℕ)
    → SlotsHeld limit slots held
    → held' ≡ held
    → SlotsHeld limit slots held'
held_same none slots held held' h e = h
held_same (some n) slots held held' h e = (h.0 ∙ sym e, h.1)

-- Who can schedule is counted, so `doneCh` is not closed.
busy :
    (limit : Option ℕ) (s : Semaphore)
    → Counted limit s
    → CanSchedule s
    → (s.done_wg ≡ 0) × (s.main ≢ before_run)
    → ⊥
busy limit s c (inl early) quiet = quiet.1 early
busy limit s c (inr (inl p)) quiet =
    let one : publish_count s.main ≡ 1 = rw p refl in omega (arith, c.wg, quiet.0, one)
busy limit s c (inr (inr (r, e))) quiet = omega (arith, c.wg, quiet.0, e)

-- A step that changes neither the phase of `Run` nor the channels.
task_step :
    (limit : Option ℕ) (s t : Semaphore)
    → Counted limit s
    → t.main ≡ s.main
    → t.started ≡ s.started
    → t.done_closed ≡ s.done_closed
    → t.done_wg ≡ counts t
    → SlotsHeld limit t.slots (in_slots t)
    → (s.done_closed ≡ true → t.done_wg ≡ 0)
    → Counted limit t
task_step limit s t c main started closed wg held all_done = record {
  wg = wg;
  held = held;
  closed = λ e. (all_done (sym closed ∙ e), λ m. (c.closed (sym closed ∙ e)).1 (sym main ∙ m));
  begun = λ e. main ∙ c.begun (sym started ∙ e);
  going = λ e m. c.going (sym started ∙ e) (sym main ∙ m);
  ended = λ m. closed ∙ c.ended (sym main ∙ m);
}

-- A step of `Run` after its beginning.
main_step :
    (limit : Option ℕ) (s t : Semaphore)
    → Counted limit s
    → s.main ≢ before_run
    → t.main ≢ before_run
    → (t.main ≡ returned_nil → t.done_closed ≡ true)
    → t.started ≡ s.started
    → t.done_closed ≡ s.done_closed
    → t.done_wg ≡ counts t
    → SlotsHeld limit t.slots (in_slots t)
    → (s.done_wg ≡ 0 → t.done_wg ≡ 0)
    → Counted limit t
main_step limit s t c was is ended started closed wg held all_done = record {
  wg = wg;
  held = held;
  closed = λ e. (all_done (c.closed (sym closed ∙ e)).0, is);
  begun = λ e. absurd (was (c.begun (sym started ∙ e)));
  going = λ e. is;
  ended = ended;
}

pub Step-Counted :
    (limit : Option ℕ) (s t : Semaphore) → Step limit s t → Counted limit s → Counted limit t
Step-Counted limit _ _ (schedule s can) c =
    task_step limit s _ c refl refl refl (omega (arith, c.wg)) c.held
      (λ t. absurd (busy limit s c can (c.closed t)))
Step-Counted limit _ _ (run s m) c = record {
  wg = let zero_count : publish_count s.main ≡ 0 = rw m refl in omega (arith, c.wg, zero_count);
  held = c.held;
  closed = λ t. ((c.closed t).0, λ e. absurd (cc));
  begun = λ t. absurd (cc);
  going = λ t e. absurd (cc);
  ended = λ t. absurd (cc);
}
Step-Counted limit _ _ (acquire s q b e room) c =
    task_step limit s _ c refl refl refl (omega (arith, c.wg, e))
      (held_take limit s.slots (in_slots s) _ room c.held (omega arith)) (λ t. (c.closed t).0)
Step-Counted limit _ _ (give_up s n q l b f e) c =
    task_step limit s _ c refl refl refl (omega (arith, c.wg, e)) c.held (λ t. (c.closed t).0)
Step-Counted limit _ _ (start s h f e) c =
    task_step limit s _ c refl refl refl (omega (arith, c.wg, e))
      (held_same limit s.slots (in_slots s) _ c.held (omega (arith, e))) (λ t. (c.closed t).0)
Step-Counted limit _ _ (skip s h f e) c =
    task_step limit s _ c refl refl refl (omega (arith, c.wg, e))
      (held_same limit s.slots (in_slots s) _ c.held (omega (arith, e))) (λ t. (c.closed t).0)
Step-Counted limit _ _ (finish s r e) c =
    task_step limit s _ c refl refl refl (omega (arith, c.wg, e))
      (held_same limit s.slots (in_slots s) _ c.held (omega (arith, e))) (λ t. (c.closed t).0)
Step-Counted limit _ _ (fail s r e) c =
    task_step limit s _ c refl refl refl (omega (arith, c.wg, e))
      (held_same limit s.slots (in_slots s) _ c.held (omega (arith, e))) (λ t. (c.closed t).0)
Step-Counted limit _ _ (offer s r e) c =
    task_step limit s _ c refl refl refl (omega (arith, c.wg, e))
      (held_same limit s.slots (in_slots s) _ c.held (omega (arith, e)))
      (λ t. absurd (busy limit s c (inr (inr (r, e))) (c.closed t)))
Step-Counted limit _ _ (receive s o m e) c =
    let none_yet : publish_count s.main ≡ 0 = rw m refl in
    main_step limit s _ c (λ b. absurd (cc)) (λ b. absurd (cc)) (λ n. absurd (cc)) refl refl
      (omega (arith, c.wg, e, none_yet))
      (held_same limit s.slots (in_slots s) _ c.held (omega (arith, e))) (λ z. z)
Step-Counted limit _ _ (drop_offer s o f e) c =
    task_step limit s _ c refl refl refl (omega (arith, c.wg, e))
      (held_same limit s.slots (in_slots s) _ c.held (omega (arith, e)))
      (λ t. omega (arith, (c.closed t).0))
Step-Counted limit _ _ (release s l e) c =
    task_step limit s _ c refl refl refl (omega (arith, c.wg, e))
      (held_free limit s.slots (in_slots s) _ c.held (omega (arith, e))) (λ t. (c.closed t).0)
Step-Counted limit _ _ (sign_off s r e) c =
    task_step limit s _ c refl refl refl (omega (arith, c.wg, e)) c.held
      (λ t. omega (arith, (c.closed t).0))
Step-Counted limit _ _ (published s m) c =
    let one : publish_count s.main ≡ 1 = rw m refl in
    main_step limit s _ c (λ b. absurd (cc)) (λ b. absurd (cc)) (λ n. absurd (cc)) refl refl
      (omega (arith, c.wg, one)) c.held (λ z. omega (arith, z))
Step-Counted limit _ _ (publish_failed s m) c =
    let one : publish_count s.main ≡ 1 = rw m refl in
    main_step limit s _ c (λ b. absurd (cc)) (λ b. absurd (cc)) (λ n. absurd (cc)) refl refl
      (omega (arith, c.wg, one)) c.held (λ z. omega (arith, z))
Step-Counted limit _ _ (watch s b w) c = record {
  wg = c.wg;
  held = c.held;
  closed = λ t. (w, c.going b);
  begun = c.begun;
  going = c.going;
  ended = λ t. refl;
}
Step-Counted limit _ _ (return_nil s m d) c =
    let none_yet : publish_count s.main ≡ 0 = rw m refl in
    main_step limit s _ c (λ b. absurd (cc)) (λ b. absurd (cc)) (λ n. d) refl refl
      (omega (arith, c.wg, none_yet)) c.held (λ z. z)
Step-Counted limit _ _ (return_error s m w) c =
    let none_yet : publish_count s.main ≡ 0 = rw m refl in
    main_step limit s _ c (λ b. absurd (cc)) (λ b. absurd (cc)) (λ n. absurd (cc)) refl refl
      (omega (arith, c.wg, none_yet)) c.held (λ z. z)
Step-Counted limit _ _ (cancelled s m) c =
    let none_yet : publish_count s.main ≡ 0 = rw m refl in
    main_step limit s _ c (λ b. absurd (cc)) (λ b. absurd (cc)) (λ n. absurd (cc)) refl refl
      (omega (arith, c.wg, none_yet)) c.held (λ z. z)

Steps-Counted :
    (limit : Option ℕ) (s t : Semaphore) → Steps limit s t → Counted limit s → Counted limit t
Steps-Counted limit _ _ (done s) c = c
Steps-Counted limit _ _ (next s t u first rest) c =
    Steps-Counted limit t u rest (Step-Counted limit s t first c)

new-Counted : (limit : Option ℕ) → Counted limit new
unfolding new
new-Counted none = record {
  wg = refl;
  held = refl;
  closed = λ t. absurd (cc);
  begun = λ t. refl;
  going = λ t. absurd (cc);
  ended = λ t. absurd (cc);
}
new-Counted (some limit) = record {
  wg = refl;
  held = (refl, omega arith);
  closed = λ t. absurd (cc);
  begun = λ t. refl;
  going = λ t. absurd (cc);
  ended = λ t. absurd (cc);
}

pub Reachable-Counted : (limit : Option ℕ) (s : Semaphore) → Reachable limit s → Counted limit s
Reachable-Counted limit s way = Steps-Counted limit new s way (new-Counted limit)

-- Whatever tasks are scheduled and however their goroutines interleave, no more of them are between
-- taking and freeing a slot than the limit allows; so many are the slots taken.
pub in_slots_le_limit :
    (n : ℕ) (s : Semaphore) → Reachable (some n) s → (s.slots ≡ in_slots s) × (in_slots s ≤ n)
in_slots_le_limit n s way =
    let held = (Reachable-Counted (some n) s way).held in (held.0, omega (arith, held.0, held.1))

-- When `Run` has returned nil, no goroutine of a task is left and no result waits to be published.
pub returned_nil_all_done :
    (limit : Option ℕ) (s : Semaphore)
    → Reachable limit s
    → s.main ≡ returned_nil
    → (s.queued ≡ 0) × (in_slots s ≡ 0) × (s.released ≡ 0)
returned_nil_all_done limit s way m =
    let c = Reachable-Counted limit s way in
    let quiet = (c.closed (c.ended m)).0 in
    (omega (arith, c.wg, quiet), omega (arith, c.wg, quiet), omega (arith, c.wg, quiet))
