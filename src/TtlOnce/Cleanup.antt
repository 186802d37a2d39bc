-- ===== src/TtlOnce/Cleanup.antt =====
-- What `doCleanup` of pkg/util/cache/ttl.go removes.
use kelemetry.Base.{
  ℕ, zero, suc, ◌+◌, ◌<◌, ◌≡◌, refl, ap, subst, ◌∙◌, inl, inr, Bool, true, false, ◌||◌, List, [],
  ◌∷◌, ◌++◌, none, some, arith, String, length, ltb, if◌then◌else◌, string_eq, ◌==◌, Bool-cases,
}
use kelemetry.Base.Map.{lookup, erase, lookup-erase, has-erase}
use kelemetry.Channel.Deque.{Deque, len, pop_front}
use kelemetry.Channel.Deque.Fifo.{IsValid, to_list, len-length}
use kelemetry.Channel.Deque.Pop.{pop_front-Pops, peek-pop}
use kelemetry.TtlOnce.{CleanupEntry, zero_entry, TtlOnce, get, cleanup_loop, do_cleanup}
use kelemetry.TtlOnce.Entries.{entries, mem_key, Distinct, Inv}

module _ (clock : ℕ → ℕ) where
  -- The entries at the front of the queue that have expired when their round reads the clock, and
  -- the rest of the queue.
  pub expired_part : ℕ → List CleanupEntry → List CleanupEntry
  expired_part i [] = []
  expired_part i (e ∷ es) = if ltb e.expiry (clock i) then e ∷ expired_part (i + 1) es else []

  pub kept_part : ℕ → List CleanupEntry → List CleanupEntry
  kept_part i [] = []
  kept_part i (e ∷ es) = if ltb e.expiry (clock i) then kept_part (i + 1) es else e ∷ es

  pub expired_part-kept_part :
      (i : ℕ) (es : List CleanupEntry) → expired_part i es ++ kept_part i es ≡ es
  unfolding expired_part kept_part
  expired_part-kept_part i [] = refl
  expired_part-kept_part i (e ∷ es) = ground (arith, expired_part-kept_part (i + 1) es)

  module _ {ℓ} {V : Type ℓ} where
    -- One round on a queue whose head has expired.
    pop-Inv :
        (c : TtlOnce V) (e : CleanupEntry) (q : Deque CleanupEntry)
        → Inv c
        → entries c ≡ e ∷ to_list q
        → IsValid q
        → Inv (record c { cleanup_queue = q; values = erase e.key c.values })
    unfolding mem_key
    pop-Inv c e q i holds valid =
        let d = subst Distinct holds i.distinct in
        record {
          valid = valid;
          distinct = d.1;
          covers = λ j.
              has-erase e.key j c.values
              ∙ ground (arith, i.covers j, ap (mem_key j) holds, d.0, string_eq.beq_iff e.key j);
        }

    get-erase :
        (c : TtlOnce V) (k j : String) (gone : Bool)
        → (if gone then none else lookup j (erase k c.values))
          ≡ (if k == j || gone then none else lookup j c.values)
    get-erase c k j true = ground arith
    get-erase c k j false = ground (arith, lookup-erase k j c.values)

    -- What the loop leaves, given a round for each entry and one more.
    abbrev Cleans : ℕ → ℕ → List CleanupEntry → TtlOnce V → Type ℓ
    Cleans fuel i es c =
        (c' : TtlOnce V) × (cleanup_loop fuel clock i c ≡ some c')
        × Inv c'
        × (entries c' ≡ kept_part i es)
        × ((k : String) → get c' k ≡ (if mem_key k (expired_part i es) then none else get c k))

    cleanup_loop-Cleans :
        (fuel i : ℕ) (es : List CleanupEntry) (c : TtlOnce V)
        → Inv c
        → entries c ≡ es
        → length es < fuel
        → Cleans fuel i es c
    unfolding cleanup_loop kept_part expired_part mem_key get
    cleanup_loop-Cleans zero i es c v e h = absurd (omega arith)
    cleanup_loop-Cleans (suc fuel) i [] c v e h =
        elim (pop_front-Pops zero_entry c.cleanup_queue v.valid) [
          | inl (nothing, out) ↦
              rw (peek-pop zero_entry c.cleanup_queue v.valid, out, cleanup_loop)
                (c, refl, v, e, λ k. refl)
          | inr (y, q, holds, _, _, _) ↦ absurd (cc)
        ]
    cleanup_loop-Cleans (suc fuel) i (x ∷ es) c v e h =
        elim (pop_front-Pops zero_entry c.cleanup_queue v.valid) [
          | inl (nothing, _) ↦ absurd (cc)
          | inr (y, q, holds, valid, _, out) ↦
              let head : pop_front zero_entry c.cleanup_queue ≡ some (q, x, true) = cc in
              let behind : to_list q ≡ es = cc in
              let holds' : entries c ≡ x ∷ to_list q = cc in
              elim (Bool-cases (ltb x.expiry (clock i))) [
                | inr live ↦
                    rw (peek-pop zero_entry c.cleanup_queue v.valid, head, live, cleanup_loop)
                      (c, refl, v, e, λ k. refl)
                | inl expired ↦
                    let (c', ran, inv, kept, gets) =
                      cleanup_loop-Cleans fuel (i + 1) es _ (pop-Inv c x q v holds' valid) behind
                        (omega arith) in
                    rw (peek-pop zero_entry c.cleanup_queue v.valid, head, expired, cleanup_loop)
                      (rw (head, cleanup_loop)
                        (c', ran, inv, kept, λ k. gets k ∙ get-erase c x.key k _))
              ]
        ]

    -- On a consistent cache, cleanup ends, keeps the cache consistent, and removes the expired entries at the front of the
    -- queue: their keys have no value any more, every other key has the value that it had.
    pub do_cleanup_lem :
        (c : TtlOnce V)
        → Inv c
        → (c' : TtlOnce V) × (do_cleanup clock c ≡ some c')
          × Inv c'
          × (entries c' ≡ kept_part 0 (entries c))
          × ((k : String)
              → get c' k ≡ (if mem_key k (expired_part 0 (entries c)) then none else get c k))
    unfolding do_cleanup
    do_cleanup_lem c v =
        cleanup_loop-Cleans (len c.cleanup_queue + 1) 0 (entries c) c v refl
          (omega (arith, len-length c.cleanup_queue v.valid))
