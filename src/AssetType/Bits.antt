-- ===== src/AssetType/Bits.antt =====
-- The order of identifiers, and their bits.
use Prim.Native.Nat.Ordering.{lt, eq, gt}
use masp.Base.{ℕ, ◌+◌, ◌*◌, ◌<◌, ◌≡◌, refl, Bool, arith}
use masp.Base.{List, [], ◌∷◌, ◌++◌, length, length-append, All, if◌then◌else◌}
use masp.Base.Bytes.{Bytes, IsByte, from_le_bytes}
use masp.Base.Ord.{Ord, IsLawful}
use masp.AssetType.{AssetType, cmp_bytes, byte_bits, bits_of, identifier_bits}

cmp_bytes_refl : (x : Bytes) → cmp_bytes x x ≡ eq
unfolding cmp_bytes
cmp_bytes_refl [] = refl
cmp_bytes_refl (a ∷ x) = ground (arith, cmp_bytes_refl x)

eq_of_cmp_bytes : (x y : Bytes) → cmp_bytes x y ≡ eq → x ≡ y
unfolding cmp_bytes
eq_of_cmp_bytes [] [] e = refl
eq_of_cmp_bytes [] (b ∷ y) e = cc
eq_of_cmp_bytes (a ∷ x) [] e = cc
eq_of_cmp_bytes (a ∷ x) (b ∷ y) e = ground (arith, eq_of_cmp_bytes x y)

lt_of_gt_bytes : (x y : Bytes) → cmp_bytes x y ≡ gt → cmp_bytes y x ≡ lt
unfolding cmp_bytes
lt_of_gt_bytes [] [] e = cc
lt_of_gt_bytes [] (b ∷ y) e = cc
lt_of_gt_bytes (a ∷ x) [] e = refl
lt_of_gt_bytes (a ∷ x) (b ∷ y) e = ground (arith, lt_of_gt_bytes x y)

gt_of_lt_bytes : (x y : Bytes) → cmp_bytes x y ≡ lt → cmp_bytes y x ≡ gt
unfolding cmp_bytes
gt_of_lt_bytes [] [] e = cc
gt_of_lt_bytes [] (b ∷ y) e = refl
gt_of_lt_bytes (a ∷ x) [] e = cc
gt_of_lt_bytes (a ∷ x) (b ∷ y) e = ground (arith, gt_of_lt_bytes x y)

lt_trans_bytes : (x y z : Bytes) → cmp_bytes x y ≡ lt → cmp_bytes y z ≡ lt → cmp_bytes x z ≡ lt
unfolding cmp_bytes
lt_trans_bytes [] [] z e f = cc
lt_trans_bytes [] (b ∷ y) [] e f = cc
lt_trans_bytes [] (b ∷ y) (c ∷ z) e f = refl
lt_trans_bytes (a ∷ x) [] z e f = cc
lt_trans_bytes (a ∷ x) (b ∷ y) [] e f = cc
lt_trans_bytes (a ∷ x) (b ∷ y) (c ∷ z) e f = ground (arith, lt_trans_bytes x y z)

-- Identifiers are compared as byte strings, which is a lawful order.
pub cmp_bytes-IsLawful : IsLawful Bytes cmp_bytes
cmp_bytes-IsLawful = record {
  cmp_refl = cmp_bytes_refl;
  eq_of_cmp = eq_of_cmp_bytes;
  lt_of_gt = lt_of_gt_bytes;
  gt_of_lt = gt_of_lt_bytes;
  lt_trans = lt_trans_bytes;
}

instance unfoldable pub bytes_ord : Ord Bytes
unfolding cmp_bytes
bytes_ord = record { cmp = cmp_bytes; lawful = cmp_bytes-IsLawful }

-- The number that a list of bits stands for, the lowest bit first.
abbrev pub from_bits : List Bool → ℕ
from_bits [] = 0
from_bits (b ∷ bs) = (if b then 1 else 0) + 2 * from_bits bs

from_bits-byte :
    (v : ℕ) (rest : List Bool)
    → v < 256
    → from_bits (byte_bits 8 v ++ rest) ≡ v + 256 * from_bits rest
unfolding byte_bits
from_bits-byte v rest h = ground arith

bits_of_lem :
    (vs : Bytes)
    → All IsByte vs
    → (from_bits (bits_of vs) ≡ from_le_bytes vs) × (length (bits_of vs) ≡ 8 * length vs)
unfolding bits_of from_le_bytes byte_bits
bits_of_lem [] h = (refl, refl)
bits_of_lem (v ∷ vs) (hv, hvs) =
    let (value, len) = bits_of_lem vs hvs in
    (
      rw (from_bits-byte v (bits_of vs) hv, value),
      rw (length-append (byte_bits 8 v) (bits_of vs), len) (omega arith),
    )

-- The bits of an identifier spell the little-endian number of its bytes, eight bits to a byte.
pub from_bits-identifier_bits :
    (a : AssetType)
    → All IsByte a.identifier
    → (from_bits (identifier_bits a) ≡ from_le_bytes a.identifier)
      × (length (identifier_bits a) ≡ 8 * length a.identifier)
from_bits-identifier_bits a h = unfold identifier_bits in bits_of_lem a.identifier h
