-- ===== src/SpanCache/Etcd/Protocol.antt =====
-- The contract of pkg/aggregator/spancache/interface.go on the methods of etcd/etcd.go, and where
-- they leave it. Requests are answered, and the server is what its documentation says.
use Prim.Native.String.{◌++◌ as ◌<>◌}
use kelemetry.Base.{
  ℕ, suc, ◌^◌, ◌≤◌, ◌<◌, ◌≡◌, refl, sym, ap, ◌∙◌, ◌≢◌, false, List, [], ◌∷◌, Option, none, some,
  String, arith, ◌==◌, nat_eq,
}
use kelemetry.SpanCache.{uid_mismatch}
use kelemetry.SpanCache.Etcd.{
  Kv, created_at, modified_at, Put, put_done, got, Client, cache_error, reserved_since, answer,
  failed, Bytes, encode_int64, reserved_varint_time, first_kv, reserved_by, read_occupied, occupied,
  read_txn, read_fetched, fetched_kv, fetched_kvs, refusal, swapped, lease_seconds, reserve_with,
  etcd_fetch_or_reserve, etcd_fetch, set_with, etcd_set_reserved,
}
use kelemetry.SpanCache.Etcd.Bytes.{decode_int64-encode_int64, read_varint-encode_int64}

-- A key that does not exist has revision 0.
abbrev pub created : Option Kv → ℕ
created none = 0
created (some kv) = kv.create_revision

abbrev pub modified : Option Kv → ℕ
modified none = 0
modified (some kv) = kv.mod_revision

abbrev pub found : Option Kv → List (Option Kv)
found none = []
found (some kv) = some kv ∷ []

-- What a put leaves, at a revision, of a key that was `before`.
abbrev pub written : Bytes → ℕ → Option Kv → Kv
written content revision none = record {
  value = content;
  create_revision = revision;
  mod_revision = revision;
}
written content revision (some kv) = record kv { value = content; mod_revision = revision }

-- The documented behaviour of etcd, on requests that are answered, for transactions on one key:
-- `view` is what it keeps of a key, and `revision` the one that the next write gets.
pub record IsEtcd {ℓ} {S : Type ℓ} (client : Client S) : Type ℓ where
  pub view : String → S → Option Kv
  pub revision : S → ℕ
  pub revision_pos : (s : S) → 1 ≤ revision s
  pub granted :
      (seconds : ℕ) (s : S)
      → (t : S) × (lease : ℕ) × (client.grant seconds s ≡ (t, some lease))
        × ((k : String) → view k t ≡ view k s)
        × (revision t ≡ revision s)
  pub get_reads : (k : String) (s : S) → client.get_key k s ≡ some (found (view k s))
  pub created_same :
      (k : String) (n : ℕ) (put : Put) (s : S)
      → put.key ≡ k
      → created (view k s) ≡ n
      → (t : S) × (client.commit (created_at k n) put k s ≡ (t, some (put_done (revision s))))
        × (view k t ≡ some (written put.content (revision s) (view k s)))
        × (revision t ≡ suc (revision s))
  pub created_other :
      (k : String) (n : ℕ) (put : Put) (s : S)
      → created (view k s) ≢ n
      → client.commit (created_at k n) put k s ≡ (s, some (got (found (view k s))))
  pub modified_same :
      (k : String) (n : ℕ) (put : Put) (s : S)
      → put.key ≡ k
      → modified (view k s) ≡ n
      → (t : S) × (client.commit (modified_at k n) put k s ≡ (t, some (put_done (revision s))))
        × (view k t ≡ some (written put.content (revision s) (view k s)))
        × (revision t ≡ suc (revision s))
  pub modified_other :
      (k : String) (n : ℕ) (put : Put) (s : S)
      → modified (view k s) ≢ n
      → client.commit (modified_at k n) put k s ≡ (s, some (got (found (view k s))))

module _ {ℓ} {S : Type ℓ} (client : Client S) (etcd : IsEtcd client) (prefix key : String) where
  -- The key has a reservation that was made at a revision.
  abbrev pub Reserved : ℕ → S → Type 0
  Reserved r s =
      (now : ℕ) × (now < 2 ^ 63)
      × (etcd.view (prefix <> key) s
          ≡ some
              (record { value = reserved_varint_time now; create_revision = r; mod_revision = r }))

  -- The key has a value, from the revisions of its creation and of its last write.
  abbrev pub Filled : Bytes → ℕ → ℕ → S → Type 0
  Filled v c m s =
      etcd.view (prefix <> key) s
      ≡ some (record { value = 1 ∷ v; create_revision = c; mod_revision = m })

  -- A key that does not exist is reserved, by the revision of the write.
  pub fetch_absent_lem :
      (now ttl : ℕ) (s : S)
      → etcd.view (prefix <> key) s ≡ none
      → now < 2 ^ 63
      → (t : S) × (etcd_fetch_or_reserve client prefix now key ttl s
          ≡ (t, answer (record { value = none; last_uid = encode_int64 (etcd.revision s) })))
        × Reserved (etcd.revision s) t
        × (etcd.revision t ≡ suc (etcd.revision s))
  unfolding etcd_fetch_or_reserve reserve_with read_txn
  fetch_absent_lem now ttl s absent h =
      let (s', lease, g, same, next) = etcd.granted (lease_seconds ttl) s in
      let k = prefix <> key in
      let missing : etcd.view k s' ≡ none = same k ∙ absent in
      let (t, wrote, holds, after) =
        etcd.created_same k 0
          (record { key = k; content = reserved_varint_time now; lease = lease }) s' refl
          (ap created missing) in
      (
        t,
        ap (reserve_with client prefix k (reserved_varint_time now)) g ∙ rw (wrote, next) refl,
        (now, h, rw holds (rw (missing, next) refl)),
        after ∙ ap suc next,
      )

  -- Another caller is told that a reserved key is taken.
  pub fetch_reserved_lem :
      (r now ttl : ℕ) (s : S)
      → 1 ≤ r
      → Reserved r s
      → (t : S) × (time : ℕ) × (etcd_fetch_or_reserve client prefix now key ttl s
          ≡ (t, failed (reserved_since time)))
        × ((k : String) → etcd.view k t ≡ etcd.view k s)
  unfolding etcd_fetch_or_reserve reserve_with read_txn first_kv occupied read_occupied reserved_by
      reserved_varint_time
  fetch_reserved_lem r now ttl s pos (then', h, holds) =
      let (s', lease, g, same, next) = etcd.granted (lease_seconds ttl) s in
      let k = prefix <> key in
      let there = same k ∙ holds in
      let refused =
        etcd.created_other k 0
          (record { key = k; content = reserved_varint_time now; lease = lease }) s'
          (λ zero_created. absurd (omega (arith, sym (ap created there) ∙ zero_created))) in
      let (time, reads) = read_varint-encode_int64 then' h in
      (
        s',
        time,
        ap (reserve_with client prefix k (reserved_varint_time now)) g
            ∙ rw (refused, there, reads, read_occupied) refl,
        same,
      )

  -- A key with a value answers it, with the revision of its creation.
  pub fetch_filled_lem :
      (v : Bytes) (c m now ttl : ℕ) (s : S)
      → 1 ≤ c
      → Filled v c m s
      → (t : S) × (etcd_fetch_or_reserve client prefix now key ttl s
          ≡ (t, answer (record { value = some v; last_uid = encode_int64 c })))
        × ((k : String) → etcd.view k t ≡ etcd.view k s)
  unfolding etcd_fetch_or_reserve reserve_with read_txn first_kv occupied read_occupied
  fetch_filled_lem v c m now ttl s pos holds =
      let (s', lease, g, same, next) = etcd.granted (lease_seconds ttl) s in
      let k = prefix <> key in
      let there = same k ∙ holds in
      let refused =
        etcd.created_other k 0
          (record { key = k; content = reserved_varint_time now; lease = lease }) s'
          (λ zero_created. absurd (omega (arith, sym (ap created there) ∙ zero_created))) in
      (
        s',
        ap (reserve_with client prefix k (reserved_varint_time now)) g ∙ rw (refused, there) refl,
        same,
      )

  -- `Fetch` answers the value, if there is one, with the revision of the last write.
  pub etcd_fetch-Reserved :
      (r : ℕ) (s : S)
      → Reserved r s
      → etcd_fetch client prefix key s
        ≡ answer (some (record { value = none; last_uid = encode_int64 r }))
  unfolding etcd_fetch fetched_kvs first_kv fetched_kv read_fetched reserved_varint_time
  etcd_fetch-Reserved r s (now, h, holds) =
      rw (etcd.get_reads (prefix <> key) s, holds, fetched_kvs) refl

  pub etcd_fetch-Filled :
      (v : Bytes) (c m : ℕ) (s : S)
      → Filled v c m s
      → etcd_fetch client prefix key s
        ≡ answer (some (record { value = some v; last_uid = encode_int64 m }))
  unfolding etcd_fetch fetched_kvs first_kv fetched_kv read_fetched
  etcd_fetch-Filled v c m s holds = rw (etcd.get_reads (prefix <> key) s, holds, fetched_kvs) refl

  -- A `SetReserved` by the revision of the last write stores the value.
  pub set_current_lem :
      (kv : Kv) (v : Bytes) (ttl : ℕ) (s : S)
      → etcd.view (prefix <> key) s ≡ some kv
      → kv.mod_revision < 2 ^ 64
      → (t : S) × (etcd_set_reserved client prefix key v (encode_int64 kv.mod_revision) ttl s
          ≡ (t, none))
        × Filled v kv.create_revision (etcd.revision s) t
        × (etcd.revision t ≡ suc (etcd.revision s))
  unfolding etcd_set_reserved set_with swapped
  set_current_lem kv v ttl s holds small =
      let (s', lease, g, same, next) = etcd.granted (lease_seconds ttl) s in
      let k = prefix <> key in
      let there = same k ∙ holds in
      let (t, wrote, after, later) =
        etcd.modified_same k kv.mod_revision (record { key = k; content = 1 ∷ v; lease = lease }) s'
          refl (ap modified there) in
      (
        t,
        ap (λ n. set_with client prefix k (1 ∷ v) n (client.grant (lease_seconds ttl) s))
              (decode_int64-encode_int64 kv.mod_revision small)
            ∙ ap (set_with client prefix k (1 ∷ v) kv.mod_revision) g
            ∙ rw wrote refl,
        rw after (rw (there, next) refl),
        later ∙ ap suc next,
      )

  -- A `SetReserved` by another revision is refused.
  pub set_stale_lem :
      (kv : Kv) (r ttl : ℕ) (v : Bytes) (s : S)
      → etcd.view (prefix <> key) s ≡ some kv
      → r < 2 ^ 64
      → kv.mod_revision ≢ r
      → (t : S) × (etcd_set_reserved client prefix key v (encode_int64 r) ttl s
          ≡ (t, some (cache_error uid_mismatch)))
        × ((k : String) → etcd.view k t ≡ etcd.view k s)
  unfolding etcd_set_reserved set_with swapped first_kv refusal
  set_stale_lem kv r ttl v s holds small other =
      let (s', lease, g, same, next) = etcd.granted (lease_seconds ttl) s in
      let k = prefix <> key in
      let there = same k ∙ holds in
      let refused =
        etcd.modified_other k r (record { key = k; content = 1 ∷ v; lease = lease }) s'
          (λ is. other (sym (ap modified there) ∙ is)) in
      let differ : (kv.mod_revision == r) ≡ false =
        ground (arith, nat_eq.beq_iff kv.mod_revision r) in
      (
        s',
        ap (λ n. set_with client prefix k (1 ∷ v) n (client.grant (lease_seconds ttl) s))
              (decode_int64-encode_int64 r small)
            ∙ ap (set_with client prefix k (1 ∷ v) r) g
            ∙ rw (refused, there) (rw differ refl),
        same,
      )
