-- ===== src/SpanCache/Etcd/Tests.antt =====
-- Runs of pkg/aggregator/spancache/etcd/etcd.go against a server that keeps its keys in a map.
use kelemetry.Base.{
  ℕ, suc, ◌≡◌, ◌≢◌, refl, ◌∙◌, Bool, true, false, [], ◌∷◌, Option, none, some, String, arith, ◌==◌,
  nat_eq, string_eq,
}
use kelemetry.Base.Map.{Map, lookup, insert, lookup-insert}
use kelemetry.SpanCache.Etcd.{
  Kv, Compare, created_at, modified_at, Put, TxnResponse, put_done, got, Client, cache_error,
  reserved_since, answer, failed, Bytes, encode_int64, read_varint, etcd_fetch_or_reserve,
  etcd_fetch, etcd_set_reserved,
}
use kelemetry.SpanCache.{uid_mismatch}
use kelemetry.SpanCache.Etcd.Protocol.{created, modified, found, written, IsEtcd, Filled}
use kelemetry.SpanCache.Etcd.Run.{Since, etcd_reserve_fill_read, fetched_uid_overwrites}

record Server : Type 0 where
  writes : ℕ
  leases : ℕ
  keys : Map String Kv

abbrev put_in : Put → Server → Server
put_in put s = record s {
  writes = suc s.writes;
  keys = insert put.key (written put.content (suc s.writes) (lookup put.key s.keys)) s.keys;
}

abbrev commit_if : Bool → Put → String → Server → Server × Option TxnResponse
commit_if true put key s = (put_in put s, some (put_done (suc s.writes)))
commit_if false put key s = (s, some (got (found (lookup key s.keys))))

abbrev commit_on : Compare → Put → String → Server → Server × Option TxnResponse
commit_on (created_at k n) put key s = commit_if (created (lookup k s.keys) == n) put key s
commit_on (modified_at k n) put key s = commit_if (modified (lookup k s.keys) == n) put key s

abbrev server : Client Server
server = record {
  grant = λ seconds s. (record s { leases = suc s.leases }, some s.leases);
  commit = commit_on;
  get_key = λ key s. some (found (lookup key s.keys));
}

view-put_in :
    (k : String) (put : Put) (s : Server)
    → put.key ≡ k
    → lookup k (put_in put s).keys ≡ some (written put.content (suc s.writes) (lookup k s.keys))
view-put_in k put s same =
    lookup-insert put.key k _ s.keys ∙ rw (same, (string_eq.beq_iff k k).1 refl) refl

commit_same :
    (test : Bool) (k : String) (put : Put) (s : Server)
    → put.key ≡ k
    → test ≡ true
    → (t : Server) × (commit_if test put k s ≡ (t, some (put_done (suc s.writes))))
      × (lookup k t.keys ≡ some (written put.content (suc s.writes) (lookup k s.keys)))
      × (suc t.writes ≡ suc (suc s.writes))
commit_same test k put s same holds = (put_in put s, rw holds refl, view-put_in k put s same, refl)

commit_other :
    (a n : ℕ) (k : String) (put : Put) (s : Server)
    → a ≢ n
    → commit_if (a == n) put k s ≡ (s, some (got (found (lookup k s.keys))))
commit_other a n k put s other =
    let differ : (a == n) ≡ false = ground (arith, nat_eq.beq_iff a n) in rw differ refl

abbrev server-IsEtcd : IsEtcd server
server-IsEtcd = record {
  view = λ k s. lookup k s.keys;
  revision = λ s. suc s.writes;
  revision_pos = λ s. omega arith;
  granted = λ seconds s. (record s { leases = suc s.leases }, s.leases, refl, λ k. refl, refl);
  get_reads = λ k s. refl;
  created_same = λ k n put s same is.
      commit_same (created (lookup k s.keys) == n) k put s same ((nat_eq.beq_iff _ n).1 is);
  created_other = λ k n put s other. commit_other (created (lookup k s.keys)) n k put s other;
  modified_same = λ k n put s same is.
      commit_same (modified (lookup k s.keys) == n) k put s same ((nat_eq.beq_iff _ n).1 is);
  modified_other = λ k n put s other. commit_other (modified (lookup k s.keys)) n k put s other;
}

abbrev started : Server
started = record { writes = 4; leases = 0; keys = [] }

-- A reserve time of 1000 ms is read back as 244 ms.
reserve_time_misread : read_varint (encode_int64 1000) ≡ some 244
unfolding read_varint encode_int64
reserve_time_misread = refl

etcd_reserve_fill_read_example :
    (t : Server) × (etcd_fetch_or_reserve server "/span/" 1000 "a" 9000000000 started
      ≡ (t, answer (record { value = none; last_uid = encode_int64 5 })))
    × ((u : Server)
        → Since server server-IsEtcd "/span/" "a" t u
        → ((now' ttl' : ℕ)
            → (w : Server) × (time : ℕ) × (etcd_fetch_or_reserve server "/span/" now' "a" ttl' u
                ≡ (w, failed (reserved_since time))))
          × (etcd_fetch server "/span/" "a" u
              ≡ answer (some (record { value = none; last_uid = encode_int64 5 })))
          × ((v : Bytes) (ttl' : ℕ)
              → (w : Server) × (etcd_set_reserved server "/span/" "a" v (encode_int64 5) ttl' u
                  ≡ (w, none))
                × ((x : Server)
                    → Since server server-IsEtcd "/span/" "a" w x
                    → ((now' ttl'' : ℕ)
                        → (y : Server) × (etcd_fetch_or_reserve server "/span/" now' "a" ttl'' x
                            ≡ (y, answer (record { value = some v; last_uid = encode_int64 5 }))))
                      × (etcd_fetch server "/span/" "a" x
                          ≡ answer (
                              some (record {
                                value = some v;
                                last_uid = encode_int64 (suc u.writes);
                              })))
                      × ((other : Bytes) (ttl'' : ℕ)
                          → (y : Server) × (etcd_set_reserved server "/span/" "a" other
                                (encode_int64 5)
                                ttl''
                                x
                              ≡ (y, some (cache_error uid_mismatch)))))))
unfolding lookup
etcd_reserve_fill_read_example =
    etcd_reserve_fill_read server server-IsEtcd "/span/" "a" 1000 9000000000 started refl
      (omega arith) (omega arith)

abbrev filled_server : Server
filled_server = record {
  writes = 4;
  leases = 0;
  keys = ("/span/a", record { value = 1 ∷ 7 ∷ []; create_revision = 2; mod_revision = 3 }) ∷ [];
}

filled_server-Filled : Filled server server-IsEtcd "/span/" "a" (7 ∷ []) 2 3 filled_server
unfolding lookup
filled_server-Filled = refl

fetched_uid_overwrites_example :
    (etcd_fetch server "/span/" "a" filled_server
      ≡ answer (some (record { value = some (7 ∷ []); last_uid = encode_int64 3 })))
    × (t : Server) × (etcd_set_reserved server "/span/" "a"
          (8 ∷ [])
          (encode_int64 3)
          9
          filled_server
        ≡ (t, none))
    × (etcd_fetch server "/span/" "a" t
        ≡ answer (some (record { value = some (8 ∷ []); last_uid = encode_int64 5 })))
fetched_uid_overwrites_example =
    fetched_uid_overwrites server server-IsEtcd "/span/" "a" (7 ∷ []) (8 ∷ []) 2 3 9 filled_server
      filled_server-Filled (omega arith)
