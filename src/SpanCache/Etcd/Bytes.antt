-- ===== src/SpanCache/Etcd/Bytes.antt =====
-- The bytes of revisions and of reserve times, in pkg/aggregator/spancache/etcd/etcd.go.
use native.Mathlib.Nat.{div-add-mod', div-lt_iff_lt-mul}
use kelemetry.Base.{
  ℕ, zero, suc, ◌+◌, ◌*◌, ◌/◌, ◌%◌, ◌^◌, ◌<◌, ◌≡◌, ◌==◌, nat_eq, false, refl, ap, ◌∙◌, inl, inr,
  ◌∷◌, some, ltb, ltb-true, Bool-cases, arith,
}
use kelemetry.SpanCache.Etcd.{
  le_bytes, from_le_bytes, encode_int64, decode_int64, copy_uid, read_uvarint, read_varint,
  unzigzag,
}

pub from_le_bytes-le_bytes : (n i : ℕ) → i < 256 ^ n → from_le_bytes (le_bytes n i) ≡ i
unfolding from_le_bytes le_bytes
from_le_bytes-le_bytes zero i h = omega arith
from_le_bytes-le_bytes (suc n) i h =
    let rest =
      from_le_bytes-le_bytes n (i / 256)
        ((div-lt_iff_lt-mul {k = 256} {x = i} {y = 256 ^ n} (omega arith)).1 (omega arith)) in
    rw rest (omega (arith, div-add-mod' i 256))

pub copy_uid-le_bytes : (n i : ℕ) → copy_uid n (le_bytes n i) ≡ le_bytes n i
unfolding copy_uid le_bytes
copy_uid-le_bytes zero i = refl
copy_uid-le_bytes (suc n) i = ap (λ bytes. i % 256 ∷ bytes) (copy_uid-le_bytes n (i / 256))

-- A revision comes out of the UID that it was written into.
pub decode_int64-encode_int64 :
    (i : ℕ) → i < 2 ^ 64 → decode_int64 (copy_uid 8 (encode_int64 i)) ≡ i
unfolding decode_int64 encode_int64
decode_int64-encode_int64 i h =
    ap from_le_bytes (copy_uid-le_bytes 8 i) ∙ from_le_bytes-le_bytes 8 i h

suc_beq_zero : (n : ℕ) → (suc n == 0) ≡ false
suc_beq_zero n = ground arith

uvarint_ends :
    (n i weight : ℕ)
    → i < 128 * 256 ^ n
    → (x : ℕ) × (read_uvarint (suc (suc (suc n))) weight (le_bytes (suc n) i) ≡ some x)
unfolding read_uvarint le_bytes
uvarint_ends zero i weight h = (i % 256 * weight, rw (ltb-true (i % 256) 128 (omega arith)) refl)
uvarint_ends (suc n) i weight h =
    let (x, rest) =
      uvarint_ends n (i / 256) (128 * weight)
        ((div-lt_iff_lt-mul {k = 256} {x = i} {y = 128 * 256 ^ n} (omega arith)).1 (omega arith)) in
    elim (Bool-cases (ltb (i % 256) 128)) [
      | inl t ↦ (i % 256 * weight, rw (t, suc_beq_zero (suc (suc n))) refl)
      | inr f ↦ (i % 256 % 128 * weight + x, rw (f, rest) refl)
    ]

-- A reserve time reads back as some time.
pub read_varint-encode_int64 :
    (i : ℕ) → i < 2 ^ 63 → (x : ℕ) × (read_varint (encode_int64 i) ≡ some x)
unfolding read_varint encode_int64
read_varint-encode_int64 i h = let (x, ends) = uvarint_ends 7 i 1 h in (_, ap unzigzag ends)
