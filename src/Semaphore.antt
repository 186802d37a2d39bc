-- ===== src/Semaphore.antt =====
-- pkg/util/semaphore/semaphore.go: a pool of tasks of which a limited number run at once, and whose
-- results are published on the goroutine that called `Run`. A step is what one goroutine does
-- between two points at which another may run.
pub mod Counts
pub mod Progress
pub mod Errors
mod Tests
use kelemetry.Base.{
  ℕ, zero, suc, ◌+◌, ◌-◌, ◌≡◌, ◌⊎◌, Bool, true, false, Option, none, some, if◌then◌else◌, ltb,
}

-- Where the goroutine that calls `Run` stands.
pub data Main : Type 0 where
  before_run looping publishing returned_nil returned_error : Main

-- The goroutines of tasks by what they do next: take a slot, look for an error, run the task, offer
-- its result, free the slot, sign off. `slots` is the length of `limitCh`, `done_wg` the count of
-- `doneWg`; `failed` says that `errNotifyCh` is closed, `done_closed` that `doneCh` is,
-- `err_waiting` that `errCh` holds an error. `failures` counts the tasks that failed.
pub record Semaphore : Type 0 where
  pub main : Main
  pub queued : ℕ
  pub holding : ℕ
  pub running : ℕ
  pub offering : ℕ
  pub leaving : ℕ
  pub released : ℕ
  pub slots : ℕ
  pub done_wg : ℕ
  pub started : Bool
  pub failed : Bool
  pub done_closed : Bool
  pub err_waiting : Bool
  pub failures : ℕ

unfoldable pub new : Semaphore
new = record {
  main = before_run;
  queued = 0;
  holding = 0;
  running = 0;
  offering = 0;
  leaving = 0;
  released = 0;
  slots = 0;
  done_wg = 0;
  started = false;
  failed = false;
  done_closed = false;
  err_waiting = false;
  failures = 0;
}

-- The limit is `none` for a nil `limitCh`, on which no goroutine waits.
unfoldable pub has_room : Option ℕ → ℕ → Bool
has_room none slots = true
has_room (some limit) slots = ltb slots limit

unfoldable pub take_slot : Option ℕ → ℕ → ℕ
take_slot none slots = slots
take_slot (some limit) slots = suc slots

unfoldable pub free_slot : Option ℕ → ℕ → ℕ
free_slot none slots = slots
free_slot (some limit) slots = slots - 1

-- Who calls `Schedule`: the caller before `Run`, a publish function, or a task.
abbrev pub CanSchedule : Semaphore → Type 0
CanSchedule s = (s.main ≡ before_run) ⊎ ((s.main ≡ publishing) ⊎ ((r : ℕ) × (s.running ≡ suc r)))

-- The steps; `limit` is the one that `New` was given.
pub data Step (limit : Option ℕ) : Semaphore → Semaphore → Type 0 where
  schedule :
      (s : Semaphore)
      → CanSchedule s
      → Step limit s (record s { queued = suc s.queued; done_wg = suc s.done_wg })
  run :
      (s : Semaphore)
      → s.main ≡ before_run
      → Step limit s (record s { main = looping; started = true })
  acquire :
      (s : Semaphore) (q : ℕ)
      → s.started ≡ true
      → s.queued ≡ suc q
      → has_room limit s.slots ≡ true
      → Step limit s
          (record s { queued = q; holding = suc s.holding; slots = take_slot limit s.slots })
  give_up :
      (s : Semaphore) (n q : ℕ)
      → limit ≡ some n
      → s.started ≡ true
      → s.failed ≡ true
      → s.queued ≡ suc q
      → Step limit s (record s { queued = q; released = suc s.released })
  start :
      (s : Semaphore) (h : ℕ)
      → s.failed ≡ false
      → s.holding ≡ suc h
      → Step limit s (record s { holding = h; running = suc s.running })
  skip :
      (s : Semaphore) (h : ℕ)
      → s.failed ≡ true
      → s.holding ≡ suc h
      → Step limit s (record s { holding = h; leaving = suc s.leaving })
  finish :
      (s : Semaphore) (r : ℕ)
      → s.running ≡ suc r
      → Step limit s (record s { running = r; leaving = suc s.leaving })
  fail :
      (s : Semaphore) (r : ℕ)
      → s.running ≡ suc r
      → Step limit s (record s {
        running = r;
        leaving = suc s.leaving;
        err_waiting = true;
        failures = suc s.failures;
      })
  offer :
      (s : Semaphore) (r : ℕ)
      → s.running ≡ suc r
      → Step limit s (record s { running = r; offering = suc s.offering; done_wg = suc s.done_wg })
  receive :
      (s : Semaphore) (o : ℕ)
      → s.main ≡ looping
      → s.offering ≡ suc o
      → Step limit s (record s { main = publishing; offering = o; leaving = suc s.leaving })
  drop_offer :
      (s : Semaphore) (o : ℕ)
      → s.failed ≡ true
      → s.offering ≡ suc o
      → Step limit s (record s { offering = o; leaving = suc s.leaving; done_wg = s.done_wg - 1 })
  release :
      (s : Semaphore) (l : ℕ)
      → s.leaving ≡ suc l
      → Step limit s
          (record s { leaving = l; released = suc s.released; slots = free_slot limit s.slots })
  sign_off :
      (s : Semaphore) (r : ℕ)
      → s.released ≡ suc r
      → Step limit s (record s { released = r; done_wg = s.done_wg - 1 })
  published :
      (s : Semaphore)
      → s.main ≡ publishing
      → Step limit s (record s { main = looping; done_wg = s.done_wg - 1 })
  publish_failed :
      (s : Semaphore)
      → s.main ≡ publishing
      → Step limit s (record s { main = returned_error; failed = true; done_wg = s.done_wg - 1 })
  watch :
      (s : Semaphore)
      → s.started ≡ true
      → s.done_wg ≡ 0
      → Step limit s (record s { done_closed = true })
  return_nil :
      (s : Semaphore)
      → s.main ≡ looping
      → s.done_closed ≡ true
      → Step limit s (record s { main = returned_nil })
  return_error :
      (s : Semaphore)
      → s.main ≡ looping
      → s.err_waiting ≡ true
      → Step limit s (record s { main = returned_error; failed = true; err_waiting = false })
  cancelled :
      (s : Semaphore)
      → s.main ≡ looping
      → Step limit s (record s { main = returned_error; failed = true })

pub data Steps (limit : Option ℕ) : Semaphore → Semaphore → Type 0 where
  done : (s : Semaphore) → Steps limit s s
  next : (s t u : Semaphore) → Step limit s t → Steps limit t u → Steps limit s u

abbrev pub Reachable : Option ℕ → Semaphore → Type 0
Reachable limit s = Steps limit new s
