-- ===== src/Zip32/Index.antt =====
-- Child indices and diversifier indices against the integers that they stand for.
use masp.Base.{ℕ, zero, suc, [], ◌∷◌, ◌+◌, ◌^◌, ◌<◌, ◌≡◌, ◌++◌, refl, none, some, arith}
use masp.Base.{replicate, ltb, if◌then◌else◌}
use masp.Base.Bytes.{
  Bytes, read_array-append, to_le_bytes, length-to_le_bytes, from_le_bytes,
  from_le_bytes-to_le_bytes,
}
use masp.Base.Result.{ok}
use masp.Zip32.{ChildIndex, non_hardened, hardened, from_index, value, serialize, deserialize}
use masp.Zip32.{from_u64, u32_try_from}
use masp.Zip32.Increment.{number}

-- Both kinds of index are below 2 ^ 31.
abbrev pub IsChildIndex : ChildIndex → Type 0
IsChildIndex (hardened i) = i < 2 ^ 31
IsChildIndex (non_hardened i) = i < 2 ^ 31

value_lem :
    (c : ChildIndex)
    → IsChildIndex c
    → (i : ℕ) × (i < 2 ^ 32) × (value c ≡ some i) × (from_index i ≡ c)
unfolding value from_index
value_lem (hardened i) h = (i + 2 ^ 31, omega arith, ground arith, ground arith)
value_lem (non_hardened i) h = (i, omega arith, refl, ground arith)

-- A child index below 2 ^ 31, hardened or not, serializes without an overflow and is read back
-- from its four bytes, and what follows is left.
pub deserialize-serialize_child :
    (c : ChildIndex)
    → IsChildIndex c
    → (bytes : Bytes) × (serialize c ≡ some bytes)
      × ((rest : Bytes) → deserialize (bytes ++ rest) ≡ ok (c, rest))
deserialize-serialize_child c h =
    let (i, small, e, back) = value_lem c h in
    (
      to_le_bytes 4 i,
      unfold serialize in ground (arith, e),
      λ rest.
          unfold deserialize in
          rw
            (
              read_array-append (to_le_bytes 4 i) rest 4 (length-to_le_bytes 4 i),
              from_le_bytes-to_le_bytes 4 i (omega arith),
              back,
            )
            refl,
    )

pub value-from_index :
    (i : ℕ) → i < 2 ^ 32 → (value (from_index i) ≡ some i) × IsChildIndex (from_index i)
unfolding value from_index
value-from_index i h = ground arith

from_le_bytes-zeros : (bs : Bytes) (n : ℕ) → from_le_bytes (bs ++ replicate n 0) ≡ from_le_bytes bs
unfolding from_le_bytes
from_le_bytes-zeros [] zero = refl
from_le_bytes-zeros [] (suc n) = omega (arith, from_le_bytes-zeros [] n)
from_le_bytes-zeros (b ∷ bs) n = omega (arith, from_le_bytes-zeros bs n)

-- The diversifier index of a 64-bit number stands for that number, and converts to a 32-bit number
-- exactly where it is below 2 ^ 32, to the same number.
pub u32_try_from-from_u64 :
    (i : ℕ)
    → i < 2 ^ 64
    → (number (from_u64 i) ≡ i)
      × (u32_try_from (from_u64 i) ≡ (if ltb i (2 ^ 32) then some i else none))
u32_try_from-from_u64 i h =
    let eight = from_le_bytes-to_le_bytes 8 i (omega arith) in
    let eleven : number (from_u64 i) ≡ i =
      unfold from_u64 in rw (from_le_bytes-zeros (to_le_bytes 8 i) 3, eight) refl in
    (eleven, unfold u32_try_from in rw (from_le_bytes-zeros (from_u64 i).bytes 5, eleven) refl)
