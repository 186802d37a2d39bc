-- ===== src/TtlOnce/Loop.antt =====
-- `RunCleanupLoop` of pkg/util/cache/ttl.go beside the insertions of other goroutines and the
-- passage of time. The wakeup channel has no sender in the source, so no step receives from it.
use kelemetry.Base.{
  ℕ, ◌+◌, ◌^◌, ◌≤◌, ◌≡◌, refl, sym, ap, subst, ◌∙◌, ◌⊎◌, inl, inr, true, false, none, some, arith,
  String, if◌then◌else◌, ◌==◌, string_eq,
}
use kelemetry.TtlOnce.{TtlOnce, add, get, peek_expiry, do_cleanup}
use kelemetry.TtlOnce.Entries.{Inv, first_of, get-add}

abbrev pub second : ℕ
second = 10 ^ 9

-- Where the loop stands: before `peekExpiry`, or in `select` with the wakeup channel or with a timer.
pub data Wait : Type 0 where
  checking for_wakeup stopped : Wait
  for_timer : ℕ → Wait

pub record Runner {ℓ} (V : Type ℓ) : Type ℓ where
  pub cache : TtlOnce V
  pub now : ℕ
  pub wait : Wait

pub data Step {ℓ} {V : Type ℓ} (s : Runner V) : Runner V → Type ℓ where
  pass : (d : ℕ) → Step s (record s { now = s.now + d })
  insertion :
      (k : String) (v : V) (c : TtlOnce V)
      → add s.cache k v s.now ≡ some c
      → Step s (record s { cache = c })
  idle :
      (expiry : ℕ)
      → s.wait ≡ checking
      → peek_expiry s.cache ≡ some (expiry, false)
      → Step s (record s { wait = for_wakeup })
  -- The timer is a second late on purpose.
  arm :
      (expiry : ℕ)
      → s.wait ≡ checking
      → peek_expiry s.cache ≡ some (expiry, true)
      → Step s (record s { wait = for_timer (expiry + second) })
  fire :
      (at : ℕ) (clock : ℕ → ℕ) (c : TtlOnce V)
      → s.wait ≡ for_timer at
      → at ≤ s.now
      → do_cleanup clock s.cache ≡ some c
      → Step s (record s { cache = c; wait = checking })
  cancel_idle : s.wait ≡ for_wakeup → Step s (record s { wait = stopped })
  cancel_timer : (at : ℕ) → s.wait ≡ for_timer at → Step s (record s { wait = stopped })

pub data Reach {ℓ} {V : Type ℓ} (s : Runner V) : Runner V → Type ℓ where
  here : Reach s s
  next : {t u : Runner V} → Reach s t → Step t u → Reach s u

abbrev Idle : Wait → Type 0
Idle w = (w ≡ for_wakeup) ⊎ (w ≡ stopped)

module _ {ℓ} {V : Type ℓ} where
  -- What holds of every state after the loop has gone to wait for a wakeup.
  record Kept (s t : Runner V) : Type ℓ where
    inv : Inv t.cache
    idle_still : Idle t.wait
    keeps : (k : String) (v : V) → get s.cache k ≡ some v → get t.cache k ≡ some v

  insertion-Kept :
      {s t : Runner V} (k : String) (v : V) (c : TtlOnce V)
      → Kept s t
      → add t.cache k v t.now ≡ some c
      → Kept s (record t { cache = c })
  insertion-Kept {s} {t} k v c p ran =
      let (c', ran', inv, gets) = get-add t.cache k v t.now p.inv in
      let same : c' ≡ c = cc in
      record {
        inv = subst Inv same inv;
        idle_still = p.idle_still;
        keeps = λ j w h.
            ap (λ d. get d j) (sym same)
            ∙ gets j
            ∙ ap (λ o. first_of o (if k == j then some v else none)) (p.keeps j w h);
      }

  Step-Kept : {s t u : Runner V} → Kept s t → Step t u → Kept s u
  Step-Kept p (pass d) = record { inv = p.inv; idle_still = p.idle_still; keeps = p.keeps }
  Step-Kept p (insertion k v c ran) = insertion-Kept k v c p ran
  Step-Kept p (idle e at _) = absurd (ground arith)
  Step-Kept p (arm e at _) = absurd (ground arith)
  Step-Kept p (fire t clock c at _ _) = absurd (ground arith)
  Step-Kept p (cancel_idle at) = record { inv = p.inv; idle_still = inr refl; keeps = p.keeps }
  Step-Kept p (cancel_timer t at) = absurd (ground arith)

  Reach-Kept : {s t : Runner V} → Kept s s → Reach s t → Kept s t
  Reach-Kept p here = p
  Reach-Kept p (next r st) = Step-Kept (Reach-Kept p r) st

  -- Once the loop has found the queue empty and waits for a wakeup, it never removes an entry
  -- again: whatever is inserted and however much time passes, each value that the cache holds
  -- stays.
  pub idle_loop_never_cleans :
      (s t u : Runner V)
      → Inv s.cache
      → s.wait ≡ for_wakeup
      → Reach s t
      → Reach t u
      → (k : String) (v : V) → get t.cache k ≡ some v
      → get u.cache k ≡ some v
  idle_loop_never_cleans s t u i w r q =
      let p = Reach-Kept (record { inv = i; idle_still = inl w; keeps = λ k v h. h }) r in
      (Reach-Kept (record { inv = p.inv; idle_still = p.idle_still; keeps = λ k v h. h }) q).keeps
