-- ===== src/Zip32.antt =====
-- masp_primitives/src/zip32.rs and the diversifier search of zip32/sapling.rs: child indices,
-- 11-byte diversifier indices, and the search for a valid diversifier.
pub mod Increment
pub mod Search
pub mod Index
use masp.Base.{
  ℕ, zero, suc, ◌+◌, ◌-◌, ◌^◌, ◌%◌, Bool, true, false, Option, none, some, List, [], ◌∷◌, ◌++◌,
}
use masp.Base.{if◌then◌else◌, leb, ltb, ◌==◌, replicate}
use masp.Base.Bytes.{Bytes, to_le_bytes, from_le_bytes, read_array}
use masp.Base.Result.{Result, ok, err, Io, ◌>>=◌}

pub data ChildIndex : Type 0 where
  non_hardened hardened : ℕ → ChildIndex

unfoldable pub from_index : ℕ → ChildIndex
from_index i = if leb (2 ^ 31) i then hardened (i - 2 ^ 31) else non_hardened i

unfoldable pub master : ChildIndex
unfolding from_index
master = from_index 0

-- In `u32`: `none` is the panic of an overflow.
unfoldable pub value : ChildIndex → Option ℕ
value (hardened i) = if ltb (i + 2 ^ 31) (2 ^ 32) then some (i + 2 ^ 31) else none
value (non_hardened i) = some i

unfoldable pub serialize : ChildIndex → Option Bytes
unfolding value
serialize index = elim (value index) [ none ↦ none | some i ↦ some (to_le_bytes 4 i) ]

unfoldable pub deserialize : Bytes → Io (ChildIndex × Bytes)
deserialize src = do (bytes, rest) ← read_array 4 src; ok (from_index (from_le_bytes bytes), rest)

-- `struct DiversifierIndex(pub [u8; 11])`
pub record DiversifierIndex : Type 0 where
  pub bytes : Bytes

unfoldable pub new : DiversifierIndex
new = record { bytes = replicate 11 0 }

unfoldable pub from_u64 : ℕ → DiversifierIndex
from_u64 i = record { bytes = to_le_bytes 8 i ++ replicate 3 0 }

unfoldable pub from_u32 : ℕ → DiversifierIndex
unfolding from_u64
from_u32 i = from_u64 i

-- The 11 bytes in an `u128`, if an `u32` holds it.
unfoldable pub u32_try_from : DiversifierIndex → Option ℕ
u32_try_from di =
    let i = from_le_bytes (di.bytes ++ replicate 5 0) in if ltb i (2 ^ 32) then some i else none

-- The loop of `increment` over the bytes that are left: the bytes it leaves, and whether it
-- returned early.
unfoldable pub increment_bytes : Bytes → Bytes × Bool
increment_bytes [] = ([], false)
increment_bytes (b ∷ bs) =
    let b' = (b + 1) % 256 in
    let (rest, early) = increment_bytes bs in
    if b' == 0 then (b' ∷ rest, early) else (b' ∷ bs, true)

-- The index that is left, whether the increment succeeded or overflowed.
unfoldable pub increment : DiversifierIndex → DiversifierIndex × Result (Unit {0}) (Unit {0})
increment j =
    let (bytes, early) = increment_bytes j.bytes in
    (record { bytes = bytes }, if early then ok tt else err tt)

-- `FF1::<Aes256>` under the diversifier key, and whether `Diversifier::g_d` is `Some`.
module _ (encrypt : Bytes → Bytes) (has_g_d : Bytes → Bool) where
  unfoldable pub try_diversifier_internal : DiversifierIndex → Option Bytes
  try_diversifier_internal j = let d_j = encrypt j.bytes in if has_g_d d_j then some d_j else none

  -- `none` means that the fuel ran out.
  unfoldable pub find_loop : ℕ → DiversifierIndex → Option (Option (DiversifierIndex × Bytes))
  find_loop zero j = none
  find_loop (suc fuel) j =
      let (j', result) = increment j in
      let next = find_loop fuel j' in
      elim (try_diversifier_internal j) [
        | some d_j ↦ some (some (j, d_j))
        | none ↦ elim result [ err _ ↦ some none | ok _ ↦ next ]
      ]

  -- There are 2 ^ 88 indices.
  unfoldable pub find_diversifier : DiversifierIndex → Option (Option (DiversifierIndex × Bytes))
  find_diversifier j = find_loop (256 ^ 11) j

  module _ {PaymentAddress : Type 0} (to_payment_address : Bytes → Option PaymentAddress) where
    unfoldable pub sapling_address : DiversifierIndex → Option PaymentAddress
    sapling_address j = elim (try_diversifier_internal j) [
      | none ↦ none
      | some d_j ↦ to_payment_address d_j
    ]

    unfoldable pub sapling_find_address :
        DiversifierIndex → Option (Option (DiversifierIndex × PaymentAddress))
    sapling_find_address j = elim (find_diversifier j) [
      | none ↦ none
      | some none ↦ some none
      | some (some (j', d_j)) ↦
          some (elim (to_payment_address d_j) [ none ↦ none | some addr ↦ some (j', addr) ])
    ]
