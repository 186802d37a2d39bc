-- ===== src/Semaphore/Tests.antt =====
-- A run of pkg/util/semaphore/semaphore.go with two tasks and one slot.
use kelemetry.Base.{◌≤◌, ◌≡◌, refl, inl, true, none, some, arith}
use kelemetry.Semaphore.{
  looping, returned_nil, Semaphore, new, has_room, take_slot, free_slot, schedule, run, acquire,
  start, offer, receive, published, release, sign_off, watch, return_nil, Steps, done, next,
  Reachable,
}
use kelemetry.Semaphore.Counts.{in_slots, in_slots_le_limit, returned_nil_all_done}
use kelemetry.Semaphore.Progress.{Run_can_return}
use kelemetry.Semaphore.Errors.{Run_may_lose_errors}

-- One task runs and one waits.
abbrev busy_pool : Semaphore
busy_pool = record new {
  main = looping;
  queued = 1;
  running = 1;
  slots = 1;
  done_wg = 2;
  started = true;
}

busy_pool-Reachable : Reachable (some 1) busy_pool
unfolding new has_room take_slot
busy_pool-Reachable = next _ _ _ (schedule new (inl refl)) (
    next _ _ _ (schedule _ (inl refl)) (
      next _ _ _ (run _ refl) (
        next _ _ _ (acquire _ 1 refl refl refl)
          (next _ _ _ (start _ 0 refl refl) (done busy_pool)))))

in_slots_le_limit_example : (busy_pool.slots ≡ in_slots busy_pool) × (in_slots busy_pool ≤ 1)
in_slots_le_limit_example = in_slots_le_limit 1 busy_pool busy_pool-Reachable

is_looping : busy_pool.main ≡ looping
is_looping = refl

Run_can_return_example : (t : Semaphore) × Steps (some 1) busy_pool t × (t.main ≡ returned_nil)
Run_can_return_example =
    Run_can_return (some 1) busy_pool (omega arith) busy_pool-Reachable (inl is_looping)

-- One task ran and its result was published.
abbrev over_pool : Semaphore
over_pool = record new { main = returned_nil; started = true; done_closed = true }

over_pool-Reachable : Reachable none over_pool
unfolding new has_room take_slot free_slot
over_pool-Reachable = next _ _ _ (schedule new (inl refl)) (
    next _ _ _ (run _ refl) (
      next _ _ _ (acquire _ 0 refl refl refl) (
        next _ _ _ (start _ 0 refl refl) (
          next _ _ _ (offer _ 0 refl) (
            next _ _ _ (receive _ 0 refl refl) (
              next _ _ _ (release _ 0 refl) (
                next _ _ _ (published _ refl) (
                  next _ _ _ (sign_off _ 0 refl) (
                    next _ _ _ (watch _ refl refl)
                      (next _ _ _ (return_nil _ refl refl) (done over_pool)))))))))))

returned_nil_all_done_example :
    (over_pool.queued ≡ 0) × (in_slots over_pool ≡ 0) × (over_pool.released ≡ 0)
returned_nil_all_done_example = returned_nil_all_done none over_pool over_pool-Reachable refl

Run_may_lose_errors_example :
    (s : Semaphore) × Reachable (some 2) s
    × (s.main ≡ returned_nil)
    × (s.failures ≡ 3)
    × (s.err_waiting ≡ true)
Run_may_lose_errors_example = Run_may_lose_errors (some 2) 2 (omega arith)
