-- ===== src/Semaphore/Progress.antt =====
-- `Run` of pkg/util/semaphore/semaphore.go can always come to its return.
use kelemetry.Base.{
  ℕ, zero, suc, ◌+◌, ◌*◌, ◌≤◌, ◌<◌, ◌≡◌, refl, ◌⊎◌, inl, inr, Bool, true, Option, none, some, arith,
  if◌then◌else◌, ltb-true, Bool-cases,
}
use kelemetry.Semaphore.{
  Main, looping, publishing, returned_nil, Semaphore, has_room, Step, acquire, start, skip, finish,
  receive, release, sign_off, published, watch, return_nil, Steps, done, next, Reachable,
}
use kelemetry.Semaphore.Counts.{
  in_slots, publish_count, SlotsHeld, Counted, Step-Counted, Reachable-Counted,
}

abbrev main_weight : Main → ℕ
main_weight m = elim m [ looping ↦ 1 | publishing ↦ 2 | _ ↦ 0 ]

abbrev open_weight : Bool → ℕ
open_weight closed = if closed then 0 else 1

-- How far the tasks are from their end.
abbrev weight : Semaphore → ℕ
weight s =
    8 * s.queued
    + 7 * s.holding
    + 6 * s.running
    + 5 * s.offering
    + 2 * s.leaving
    + s.released
    + main_weight s.main
    + open_weight s.done_closed

-- `Run` is in its loop, or runs a publish function.
abbrev pub Active : Main → Type 0
Active m = (m ≡ looping) ⊎ (m ≡ publishing)

-- A limit that lets a task run.
abbrev pub Positive : Option ℕ → Type 0
Positive none = Unit
Positive (some n) = 1 ≤ n

abbrev Advance : Option ℕ → Semaphore → Type 0
Advance limit s =
    (t : Semaphore) × Step limit s t
    × (weight t < weight s)
    × (Active t.main ⊎ (t.main ≡ returned_nil))

ℕ-cases : (n : ℕ) → (n ≡ 0) ⊎ ((m : ℕ) × (n ≡ suc m))
ℕ-cases zero = inl refl
ℕ-cases (suc m) = inr (m, refl)

room_of_idle :
    (limit : Option ℕ) (slots held : ℕ)
    → Positive limit
    → SlotsHeld limit slots held
    → held ≡ 0
    → has_room limit slots ≡ true
unfolding has_room
room_of_idle none slots held p h e = refl
room_of_idle (some n) slots held p h e = ltb-true slots n (omega (arith, p, h.0, e))

module _ (limit : Option ℕ) (s : Semaphore) (c : Counted limit s) where
  begun : s.main ≡ looping → s.started ≡ true
  begun m = elim (Bool-cases s.started) [ inl t ↦ t | inr t ↦ let early = c.begun t in absurd (cc) ]

  -- No goroutine of a task is left.
  advance_idle : s.main ≡ looping → s.done_wg ≡ 0 → Advance limit s
  advance_idle m quiet = elim (Bool-cases s.done_closed) [
    | inl t ↦ (record s { main = returned_nil }, return_nil s m t, rw m (omega arith), inr refl)
    | inr t ↦
        (record s { done_closed = true }, watch s (begun m) quiet, rw t (omega arith), inl (inl m))
  ]

  -- All goroutines that are left wait for a slot.
  advance_queued :
      Positive limit → s.main ≡ looping → in_slots s ≡ 0 → s.released ≡ 0 → Advance limit s
  advance_queued p m none_in none_out = elim (ℕ-cases s.queued) [
    | inl e ↦
        let nothing : publish_count s.main ≡ 0 = rw m refl in
        advance_idle m (omega (arith, c.wg, none_in, none_out, e, nothing))
    | inr (q, e) ↦ (
      _,
      acquire s q (begun m) e (room_of_idle limit s.slots (in_slots s) p c.held none_in),
      omega (arith, e),
      inl (inl m),
    )
  ]

  advance_looping : Positive limit → s.main ≡ looping → Advance limit s
  advance_looping p m = elim (ℕ-cases s.offering) [
    | inr (o, e) ↦ (_, receive s o m e, rw m (omega (arith, e)), inl (inr refl))
    | inl no_offer ↦ elim (ℕ-cases s.running) [
      | inr (r, e) ↦ (_, finish s r e, omega (arith, e), inl (inl m))
      | inl no_run ↦ elim (ℕ-cases s.holding) [
        | inr (h, e) ↦ elim (Bool-cases s.failed) [
          | inl t ↦ (_, skip s h t e, omega (arith, e), inl (inl m))
          | inr t ↦ (_, start s h t e, omega (arith, e), inl (inl m))
        ]
        | inl no_hold ↦ elim (ℕ-cases s.leaving) [
          | inr (l, e) ↦ (_, release s l e, omega (arith, e), inl (inl m))
          | inl no_leave ↦ elim (ℕ-cases s.released) [
            | inr (r, e) ↦ (_, sign_off s r e, omega (arith, e), inl (inl m))
            | inl none_out ↦
                advance_queued p m (omega (arith, no_offer, no_run, no_hold, no_leave)) none_out
          ]
        ]
      ]
    ]
  ]

  advance : Positive limit → Active s.main → Advance limit s
  advance p (inl m) = advance_looping p m
  advance p (inr m) = (_, published s m, rw m (omega arith), inl (inl refl))

comes_to_return :
    (fuel : ℕ) (limit : Option ℕ) (s : Semaphore)
    → Positive limit
    → Counted limit s
    → Active s.main
    → weight s ≤ fuel
    → (t : Semaphore) × Steps limit s t × (t.main ≡ returned_nil)
comes_to_return zero limit s p c a w =
    let one = advance limit s c p a in absurd (omega (arith, one.2, w))
comes_to_return (suc fuel) limit s p c a w =
    let one = advance limit s c p a in
    elim one.3 [
      | inl more ↦
          let rest =
            comes_to_return fuel limit one.0 p (Step-Counted limit s one.0 one.1 c) more
              (omega (arith, one.2, w)) in
          (rest.0, next s one.0 rest.0 one.1 rest.1, rest.2)
      | inr over ↦ (one.0, next s one.0 one.0 one.1 (done one.0), over)
    ]

-- With room for one task or more, whatever has been scheduled and has happened while `Run` waits or
-- publishes, there are further steps after which `Run` has returned nil, so without a cancelled
-- context and without an error: the pool has no deadlock.
pub Run_can_return :
    (limit : Option ℕ) (s : Semaphore)
    → Positive limit
    → Reachable limit s
    → Active s.main
    → (t : Semaphore) × Steps limit s t × (t.main ≡ returned_nil)
Run_can_return limit s p way a =
    comes_to_return (weight s) limit s p (Reachable-Counted limit s way) a (omega arith)
