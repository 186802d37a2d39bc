-- ===== src/SpanCache/Etcd.antt =====
-- pkg/aggregator/spancache/etcd/etcd.go: the span cache in an etcd cluster. The client of etcd is a
-- parameter. An int64 is its 64 bits, read as a number, and a byte is a number below 256.
pub mod Bytes
pub mod Protocol
pub mod Run
mod Tests
use Prim.Native.String.{◌++◌ as ◌<>◌}
use kelemetry.Base.{
  ℕ, zero, suc, ◌+◌, ◌-◌, ◌*◌, ◌/◌, ◌%◌, ◌^◌, Bool, true, false, ◌&&◌, List, [], ◌∷◌, Option, none,
  some, String, ltb, leb, if◌then◌else◌, Eq, ◌==◌, nat_eq,
}
use kelemetry.SpanCache.{CacheError, already_reserved, invalid_key, uid_mismatch, Entry}

-- What etcd keeps of a key.
pub record Kv : Type 0 where
  pub value : List ℕ
  pub create_revision : ℕ
  pub mod_revision : ℕ

-- `Compare(CreateRevision(key), "=", n)` and `Compare(ModRevision(key), "=", n)`.
pub data Compare : Type 0 where
  created_at modified_at : String → ℕ → Compare

pub record Put : Type 0 where
  pub key : String
  pub content : List ℕ
  pub lease : ℕ

-- The put of a transaction that succeeded, with the revision in its header, or what the `Get` of one
-- that did not succeed found. A nil pointer is `none`.
pub data TxnResponse : Type 0 where
  put_done : ℕ → TxnResponse
  got : List (Option Kv) → TxnResponse

-- The requests of the client that the cache makes; `none` is an error of the request.
pub record Client {ℓ} (S : Type ℓ) : Type ℓ where
  pub grant : ℕ → S → S × Option ℕ
  pub commit : Compare → Put → String → S → S × Option TxnResponse
  pub get_key : String → S → Option (List (Option Kv))

pub data EtcdError : Type 0 where
  request_failed empty_value invalid_timestamp invalid_header misbehaves : EtcdError
  cache_error : CacheError → EtcdError
  -- `ErrAlreadyReserved` with the time from which its duration is taken.
  reserved_since : ℕ → EtcdError

pub data Reply {ℓ} (A : Type ℓ) : Type ℓ where
  answer : A → Reply A
  failed : EtcdError → Reply A
  panics : Reply A

abbrev pub Bytes : Type 0
Bytes = List ℕ

-- `PutUint64` of `binary.LittleEndian`, of so many bytes.
unfoldable pub le_bytes : ℕ → ℕ → Bytes
le_bytes zero i = []
le_bytes (suc n) i = i % 256 ∷ le_bytes n (i / 256)

unfoldable pub from_le_bytes : Bytes → ℕ
from_le_bytes [] = 0
from_le_bytes (b ∷ bytes) = b + 256 * from_le_bytes bytes

unfoldable pub encode_int64 : ℕ → Bytes
unfolding le_bytes
encode_int64 i = le_bytes 8 i

unfoldable pub decode_int64 : Bytes → ℕ
unfolding from_le_bytes
decode_int64 b = from_le_bytes b

-- `copy(uid[:], lastUid)` into an array of so many zeros.
unfoldable pub copy_uid : ℕ → Bytes → Bytes
copy_uid zero bytes = []
copy_uid (suc n) [] = 0 ∷ copy_uid n []
copy_uid (suc n) (b ∷ bytes) = b ∷ copy_uid n bytes

-- `now` is the clock, in milliseconds.
unfoldable pub reserved_varint_time : ℕ → Bytes
unfolding encode_int64
reserved_varint_time now = 0 ∷ encode_int64 now

more_of : ℕ → Option ℕ → Option ℕ
more_of low none = none
more_of low (some high) = some (low + high)

-- `binary.ReadUvarint`, for so many bytes more, with the weight of the next one.
unfoldable pub read_uvarint : ℕ → ℕ → Bytes → Option ℕ
unfolding more_of
read_uvarint zero weight bytes = none
read_uvarint (suc n) weight [] = none
read_uvarint (suc n) weight (b ∷ bytes) =
    let rest = read_uvarint n (128 * weight) bytes in
    if ltb b 128
    then if n == 0 && ltb 1 b then none else some (b * weight)
    else more_of (b % 128 * weight) rest

abbrev pub unzigzag : Option ℕ → Option ℕ
unzigzag none = none
unzigzag (some x) = some (if x % 2 == 0 then x / 2 else 2 ^ 64 - 1 - x / 2)

-- `binary.ReadVarint`
unfoldable pub read_varint : Bytes → Option ℕ
unfolding read_uvarint
read_varint bytes = unzigzag (read_uvarint 10 1 bytes)

-- `Kvs[0]`, where there is one that is not nil.
unfoldable pub first_kv : List (Option Kv) → Option Kv
first_kv [] = none
first_kv (kv ∷ more) = kv

unfoldable pub reserved_by : Option ℕ → Reply (Entry Bytes Bytes)
reserved_by none = failed invalid_timestamp
reserved_by (some time) = failed (reserved_since time)

unfoldable pub read_occupied : Bytes → ℕ → Reply (Entry Bytes Bytes)
unfolding reserved_by
read_occupied [] revision = failed empty_value
read_occupied (header ∷ rest) revision =
    if header == 0
    then reserved_by (read_varint rest)
    else if header == 1
    then answer (record { value = some rest; last_uid = encode_int64 revision })
    else failed invalid_header

unfoldable pub occupied : Option Kv → Reply (Entry Bytes Bytes)
unfolding read_occupied
occupied none = panics
occupied (some kv) = read_occupied kv.value kv.create_revision

unfoldable pub read_txn : Option TxnResponse → Reply (Entry Bytes Bytes)
unfolding first_kv occupied
read_txn none = failed request_failed
read_txn (some (got kvs)) = occupied (first_kv kvs)
read_txn (some (put_done revision)) =
    answer (record { value = none; last_uid = encode_int64 revision })

unfoldable pub read_fetched : Bytes → ℕ → Reply (Option (Entry Bytes Bytes))
read_fetched [] revision = failed empty_value
read_fetched (header ∷ rest) revision =
    if header == 0
    then answer (some (record { value = none; last_uid = encode_int64 revision }))
    else if header == 1
    then answer (some (record { value = some rest; last_uid = encode_int64 revision }))
    else failed invalid_header

unfoldable pub fetched_kv : Option Kv → Reply (Option (Entry Bytes Bytes))
unfolding read_fetched
fetched_kv none = answer none
fetched_kv (some kv) = read_fetched kv.value kv.mod_revision

unfoldable pub fetched_kvs : Option (List (Option Kv)) → Reply (Option (Entry Bytes Bytes))
unfolding first_kv fetched_kv
fetched_kvs none = failed request_failed
fetched_kvs (some kvs) = fetched_kv (first_kv kvs)

-- The error of a `SetReserved` whose comparison failed.
unfoldable pub refusal : ℕ → Option Kv → EtcdError
refusal revision none = cache_error invalid_key
refusal revision (some kv) =
    if kv.mod_revision == revision then misbehaves else cache_error uid_mismatch

unfoldable pub swapped : ℕ → Option TxnResponse → Option EtcdError
unfolding first_kv refusal
swapped revision none = some request_failed
swapped revision (some (put_done written)) = none
swapped revision (some (got kvs)) = some (refusal revision (first_kv kvs))

-- `int64(ttl.Seconds())` of a duration in nanoseconds.
abbrev pub lease_seconds : ℕ → ℕ
lease_seconds ttl = ttl / 1000000000

module _ {ℓ} {S : Type ℓ} (client : Client S) (prefix : String) where
  unfoldable pub reserve_with : String → Bytes → S × Option ℕ → S × Reply (Entry Bytes Bytes)
  unfolding read_txn
  reserve_with key buf (s, none) = (s, failed request_failed)
  reserve_with key buf (s, some lease) =
      let txn =
        client.commit (created_at key 0) (record { key = key; content = buf; lease = lease }) key
          s in
      (txn.0, read_txn txn.1)

  unfoldable pub etcd_fetch_or_reserve : ℕ → String → ℕ → S → S × Reply (Entry Bytes Bytes)
  unfolding reserve_with reserved_varint_time
  etcd_fetch_or_reserve now key ttl s =
      reserve_with (prefix <> key) (reserved_varint_time now) (client.grant (lease_seconds ttl) s)

  unfoldable pub etcd_fetch : String → S → Reply (Option (Entry Bytes Bytes))
  unfolding fetched_kvs
  etcd_fetch key s = fetched_kvs (client.get_key (prefix <> key) s)

  unfoldable pub set_with : String → Bytes → ℕ → S × Option ℕ → S × Option EtcdError
  unfolding swapped
  set_with key buf revision (s, none) = (s, some request_failed)
  set_with key buf revision (s, some lease) =
      let txn =
        client.commit (modified_at key revision)
          (record { key = key; content = buf; lease = lease }) key s in
      (txn.0, swapped revision txn.1)

  unfoldable pub etcd_set_reserved : String → Bytes → Bytes → ℕ → S → S × Option EtcdError
  unfolding set_with copy_uid decode_int64
  etcd_set_reserved key value last_uid ttl s =
      set_with (prefix <> key) (1 ∷ value) (decode_int64 (copy_uid 8 last_uid))
        (client.grant (lease_seconds ttl) s)
