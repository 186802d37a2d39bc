-- ===== src/Aggregator/Window.antt =====
-- The time windows of pkg/aggregator/aggregator.go.
use native.Mathlib.Nat.{mod-lt, div-add-mod'}
use kelemetry.Base.{
  ℕ, ◌+◌, ◌-◌, ◌*◌, ◌/◌, ◌%◌, ◌≤◌, ◌<◌, ◌≡◌, refl, false, some, arith, ◌==◌, nat_eq,
}
use kelemetry.Aggregator.{
  Options, second, unix, ttl_seconds, go_divide, go_remainder, expiring_window, start_of,
}

-- A span of a window covers the event that it was made for, and starts in the first second of the
-- window, so that all events of one window give spans that start in the same second. The lifetime
-- must be a second at least.
start_of-window :
    (options : Options) (event_time : ℕ)
    → second ≤ options.span_ttl
    → (start window : ℕ) × (start_of options event_time ≡ some start)
      × (expiring_window options event_time ≡ some window)
      × (start ≤ event_time)
      × (event_time < start + options.span_ttl)
      × (unix start ≡ window * ttl_seconds options)
unfolding start_of expiring_window go_divide go_remainder
start_of-window options event_time h =
    let u = unix event_time in
    let n = ttl_seconds options in
    let split = div-add-mod' u n in
    let small = mod-lt u {m = n} (omega arith) in
    let positive : (n == 0) ≡ false = ground (arith, nat_eq.beq_iff n 0, small) in
    (
      event_time - u % n * second,
      u / n,
      rw (positive, start_of) refl,
      rw (positive, expiring_window) refl,
      omega arith,
      omega (arith, small),
      omega (arith, split, small),
    )
