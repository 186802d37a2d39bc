-- ===== src/Semaphore/Errors.antt =====
-- The errors of tasks in pkg/util/semaphore/semaphore.go: `Run` may return nil all the same, as its
-- `select` is free to see that the tasks are done before it sees the error.
use kelemetry.Base.{
  ℕ, zero, suc, ◌+◌, ◌-◌, subst, ◌≡◌, refl, inl, Bool, true, false, Option, none, some, arith,
  ltb-true,
}
use kelemetry.Semaphore.{
  Main, before_run, looping, returned_nil, Semaphore, new, has_room, take_slot, free_slot, schedule,
  run, acquire, start, fail, release, sign_off, watch, return_nil, Steps, done, next, Reachable,
}
use kelemetry.Semaphore.Progress.{Positive}

Steps-trans :
    (limit : Option ℕ) (s t u : Semaphore) → Steps limit s t → Steps limit t u → Steps limit s u
Steps-trans limit _ _ u (done s) q = q
Steps-trans limit _ _ u (next s t v first rest) q =
    next s t u first (Steps-trans limit t v u rest q)

-- `q` tasks wait, and all that ran have failed.
abbrev waiting : Main → Bool → Bool → ℕ → ℕ → Semaphore
waiting main started err q failures = record {
  main = main;
  queued = q;
  holding = 0;
  running = 0;
  offering = 0;
  leaving = 0;
  released = 0;
  slots = 0;
  done_wg = q;
  started = started;
  failed = false;
  done_closed = false;
  err_waiting = err;
  failures = failures;
}

schedule_all : (limit : Option ℕ) (n : ℕ) → Steps limit new (waiting before_run false false n 0)
unfolding new
schedule_all limit zero = done new
schedule_all limit (suc n) =
    Steps-trans limit new (waiting before_run false false n 0)
      (waiting before_run false false (suc n) 0) (schedule_all limit n)
      (next _ _ _ (schedule (waiting before_run false false n 0) (inl refl)) (done _))

landed :
    {limit : Option ℕ} (s : Semaphore) (q k : ℕ)
    → Steps limit s (record (waiting looping true true q (suc k)) { done_wg = suc q - 1 })
    → Steps limit s (waiting looping true true q (suc k))
landed {limit} s q k way =
    let count : suc q - 1 ≡ q = omega arith in
    subst (λ w. Steps limit s (record (waiting looping true true q (suc k)) { done_wg = w })) count
      way

-- One task takes its slot, fails, and leaves.
fail_one :
    (limit : Option ℕ) (err : Bool) (q k : ℕ)
    → Positive limit
    → Steps limit (waiting looping true err (suc q) k) (waiting looping true true q (suc k))
unfolding has_room take_slot free_slot
fail_one none err q k p = landed _ q k (
    next _ _ _ (acquire _ q refl refl refl) (
      next _ _ _ (start _ 0 refl refl) (
        next _ _ _ (fail _ 0 refl)
          (next _ _ _ (release _ 0 refl) (next _ _ _ (sign_off _ 0 refl) (done _))))))
fail_one (some n) err q k p = landed _ q k (
    next _ _ _ (acquire _ q refl refl (ltb-true 0 n (omega (arith, p)))) (
      next _ _ _ (start _ 0 refl refl) (
        next _ _ _ (fail _ 0 refl)
          (next _ _ _ (release _ 0 refl) (next _ _ _ (sign_off _ 0 refl) (done _))))))

fail_all :
    (limit : Option ℕ) (q k : ℕ)
    → Positive limit
    → (f : ℕ) × Steps limit (waiting looping true true q k) (waiting looping true true 0 f)
      × (f ≡ q + k)
fail_all limit zero k p = (k, done _, omega arith)
fail_all limit (suc q) k p =
    let rest = fail_all limit q (suc k) p in
    (rest.0, Steps-trans limit _ _ _ (fail_one limit true q k p) rest.1, omega (arith, rest.2))

-- With room for one task or more, any number of tasks can all fail and `Run` yet return nil, while
-- the first error waits in its channel unread.
pub Run_may_lose_errors :
    (limit : Option ℕ) (n : ℕ)
    → Positive limit
    → (s : Semaphore) × Reachable limit s
      × (s.main ≡ returned_nil)
      × (s.failures ≡ suc n)
      × (s.err_waiting ≡ true)
Run_may_lose_errors limit n p =
    let rest = fail_all limit n 1 p in
    let last = waiting looping true true 0 rest.0 in
    let closed : Semaphore = record last { done_closed = true } in
    let over : Semaphore = record closed { main = returned_nil } in
    let finale : Steps limit last over =
      next _ _ _ (watch last refl refl) (next _ _ _ (return_nil closed refl refl) (done over)) in
    (
      over,
      Steps-trans limit new (waiting before_run false false (suc n) 0) over
          (schedule_all limit (suc n))
          (next _ _ _ (run (waiting before_run false false (suc n) 0) refl) (
            Steps-trans limit _ _ over (fail_one limit false n 0 p)
              (Steps-trans limit _ last over rest.1 finale))),
      refl,
      omega (arith, rest.2),
      refl,
    )
