-- ===== src/SpanCache/Etcd/Run.antt =====
-- Whole uses of a key by pkg/aggregator/spancache/etcd/etcd.go: one reservation from its start to
-- its readers, and fills without a reservation.
use Prim.Native.String.{◌++◌ as ◌<>◌}
use kelemetry.Base.{ℕ, ◌^◌, ◌≤◌, ◌<◌, ◌≡◌, refl, ap, ◌∙◌, ◌∷◌, [], none, some, String, arith}
use kelemetry.SpanCache.{uid_mismatch}
use kelemetry.SpanCache.Etcd.{
  Client, cache_error, reserved_since, answer, failed, Bytes, encode_int64, decode_int64, copy_uid,
  swapped, lease_seconds, etcd_fetch_or_reserve, etcd_fetch, set_with, etcd_set_reserved,
}
use kelemetry.SpanCache.Etcd.Protocol.{
  modified, IsEtcd, Filled, fetch_absent_lem, fetch_reserved_lem, fetch_filled_lem,
  etcd_fetch-Reserved, etcd_fetch-Filled, set_current_lem, set_stale_lem,
}

module _ {ℓ} {S : Type ℓ} (client : Client S) (etcd : IsEtcd client) (prefix key : String) where
  -- The key is in one state as it is in another, which is not earlier.
  abbrev pub Since : S → S → Type 0
  Since s t =
      (etcd.view (prefix <> key) t ≡ etcd.view (prefix <> key) s)
      × (etcd.revision s ≤ etcd.revision t)

  -- A key that does not exist is reserved for one caller. In every later state in which the key is as
  -- that call left it, other callers are told that it is reserved, and the owner's fill succeeds. In
  -- every later state in which the key is as the fill left it, all callers read the value, and the UID
  -- of the reservation is refused.
  pub etcd_reserve_fill_read :
      (now ttl : ℕ) (s : S)
      → etcd.view (prefix <> key) s ≡ none
      → now < 2 ^ 63
      → etcd.revision s < 2 ^ 63
      → (t : S) × (etcd_fetch_or_reserve client prefix now key ttl s
          ≡ (t, answer (record { value = none; last_uid = encode_int64 (etcd.revision s) })))
        × ((u : S)
            → Since t u
            → ((now' ttl' : ℕ)
                → (w : S) × (time : ℕ) × (etcd_fetch_or_reserve client prefix now' key ttl' u
                    ≡ (w, failed (reserved_since time))))
              × (etcd_fetch client prefix key u
                  ≡ answer
                      (some (record { value = none; last_uid = encode_int64 (etcd.revision s) })))
              × ((v : Bytes) (ttl' : ℕ)
                  → (w : S) × (etcd_set_reserved client prefix key v
                        (encode_int64 (etcd.revision s))
                        ttl'
                        u
                      ≡ (w, none))
                    × ((x : S)
                        → Since w x
                        → ((now' ttl'' : ℕ)
                            → (y : S) × (etcd_fetch_or_reserve client prefix now' key ttl'' x ≡ (
                              y,
                              answer (record {
                                value = some v;
                                last_uid = encode_int64 (etcd.revision s);
                              }),
                            )))
                          × (etcd_fetch client prefix key x
                              ≡ answer (
                                  some (record {
                                    value = some v;
                                    last_uid = encode_int64 (etcd.revision u);
                                  })))
                          × ((other : Bytes) (ttl'' : ℕ)
                              → (y : S) × (etcd_set_reserved client prefix key other
                                    (encode_int64 (etcd.revision s))
                                    ttl''
                                    x
                                  ≡ (y, some (cache_error uid_mismatch)))))))
  etcd_reserve_fill_read now ttl s absent h small =
      let r = etcd.revision s in
      let pos = etcd.revision_pos s in
      let (t, ran, (n, lt, holds), later) =
        fetch_absent_lem client etcd prefix key now ttl s absent h in
      (
        t,
        ran,
        λ u since.
            let there = since.0 ∙ holds in
            (
              λ now' ttl'.
                  let (w, time, told, _) =
                    fetch_reserved_lem client etcd prefix key r now' ttl' u pos (n, lt, there) in
                  (w, time, told),
              etcd_fetch-Reserved client etcd prefix key r u (n, lt, there),
              λ v ttl'.
                  let (w, wrote, filled, _) =
                    set_current_lem client etcd prefix key _ v ttl' u there (omega arith) in
                  (
                    w,
                    wrote,
                    λ x after.
                        let full = after.0 ∙ filled in
                        (
                          λ now' ttl''.
                              let (y, read, _) =
                                fetch_filled_lem client etcd prefix key v r _ now' ttl'' x pos
                                  full in
                              (y, read),
                          etcd_fetch-Filled client etcd prefix key v r _ x full,
                          λ other ttl''.
                              let (y, refused, _) =
                                set_stale_lem client etcd prefix key _ r ttl'' other x full
                                  (omega arith)
                                  (λ same. absurd (omega (arith, same, later, since.1))) in
                              (y, refused),
                        ),
                  ),
            ),
      )

  -- The UID that `Fetch` gives of a key that has a value lets `SetReserved` replace the value.
  pub fetched_uid_overwrites :
      (v other : Bytes) (c m ttl : ℕ) (s : S)
      → Filled client etcd prefix key v c m s
      → m < 2 ^ 63
      → (etcd_fetch client prefix key s
          ≡ answer (some (record { value = some v; last_uid = encode_int64 m })))
        × (t : S) × (etcd_set_reserved client prefix key other (encode_int64 m) ttl s ≡ (t, none))
        × (etcd_fetch client prefix key t
            ≡ answer
                (some (record { value = some other; last_uid = encode_int64 (etcd.revision s) })))
  fetched_uid_overwrites v other c m ttl s full small =
      let (t, wrote, filled, _) =
        set_current_lem client etcd prefix key _ other ttl s full (omega arith) in
      (
        etcd_fetch-Filled client etcd prefix key v c m s full,
        t,
        wrote,
        etcd_fetch-Filled client etcd prefix key other c _ t filled,
      )

  -- On a key that does not exist, `SetReserved` with an empty UID stores the value, unreserved.
  pub empty_uid_stores :
      (v : Bytes) (ttl : ℕ) (s : S)
      → etcd.view (prefix <> key) s ≡ none
      → (t : S) × (etcd_set_reserved client prefix key v [] ttl s ≡ (t, none))
        × (etcd_fetch client prefix key t
            ≡ answer (some (record { value = some v; last_uid = encode_int64 (etcd.revision s) })))
  unfolding etcd_set_reserved set_with swapped copy_uid decode_int64
  empty_uid_stores v ttl s absent =
      let (s', lease, g, same, next) = etcd.granted (lease_seconds ttl) s in
      let k = prefix <> key in
      let missing = same k ∙ absent in
      let (t, wrote, after, _) =
        etcd.modified_same k 0 (record { key = k; content = 1 ∷ v; lease = lease }) s' refl
          (ap modified missing) in
      (
        t,
        ap (set_with client prefix k (1 ∷ v) 0) g ∙ rw wrote refl,
        etcd_fetch-Filled client etcd prefix key v (etcd.revision s) (etcd.revision s) t
            (rw after (rw (missing, next) refl)),
      )
