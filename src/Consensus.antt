-- ===== src/Consensus.antt =====
-- masp_primitives/src/consensus.rs: block heights, network upgrades and branch identifiers.
pub mod Heights
pub mod Branch
use masp.Base.{ℕ, ◌+◌, ◌-◌, ◌^◌, Bool, true, false, Option, none, some, List, [], ◌∷◌, reverse}
use masp.Base.{if◌then◌else◌, leb, ltb, ◌==◌}
use masp.Base.Bytes.{Bytes, to_le_bytes, from_le_bytes, read_array}
use masp.Base.Result.{Result, ok, err, Io, ◌>>=◌, invalid_input}
use masp.Base.Int.{ℤ, pos, negsuc}

-- `struct BlockHeight(u32)`
pub record BlockHeight : Type 0 where
  pub height : ℕ

abbrev pub h0 : BlockHeight
h0 = record { height = 0 }

unfoldable pub from_u32 : ℕ → BlockHeight
from_u32 v = record { height = v }

-- `TryFrom<u64>`; `none` is a `TryFromIntError`.
unfoldable pub try_from_u64 : ℕ → Option BlockHeight
try_from_u64 value = if ltb value (2 ^ 32) then some (record { height = value }) else none

-- `TryFrom<i32>` and `TryFrom<i64>`.
unfoldable pub try_from_int : ℤ → Option BlockHeight
unfolding try_from_u64
try_from_int (pos value) = try_from_u64 value
try_from_int (negsuc n) = none

-- `From<BlockHeight>` for `i64`.
unfoldable pub to_int : BlockHeight → ℤ
to_int h = pos h.height

-- `none` is a panic: an overflow of `u32`, or a negative height.
unfoldable pub add : BlockHeight → ℕ → Option BlockHeight
add h other =
    if ltb (h.height + other) (2 ^ 32) then some (record { height = h.height + other }) else none

unfoldable pub sub : BlockHeight → ℕ → Option BlockHeight
sub h other = if ltb h.height other then none else some (record { height = h.height - other })

unfoldable pub add_height : BlockHeight → BlockHeight → Option BlockHeight
unfolding add
add_height h other = add h other.height

unfoldable pub sub_height : BlockHeight → BlockHeight → Option BlockHeight
unfolding sub
sub_height h other = sub h other.height

pub data NetworkUpgrade : Type 0 where
  masp_upgrade : NetworkUpgrade

pub data BranchId : Type 0 where
  masp_branch : BranchId

-- `trait Parameters`: its one required method.
abbrev pub Parameters : Type 0
Parameters = NetworkUpgrade → Option BlockHeight

pub data Network : Type 0 where
  main_network test_network : Network

unfoldable pub activation_height : Network → Parameters
activation_height main_network masp_upgrade = some h0
activation_height test_network masp_upgrade = some (record { height = 1 })

unfoldable pub is_nu_active : Parameters → NetworkUpgrade → BlockHeight → Bool
is_nu_active p nu height = elim (p nu) [ none ↦ false | some h ↦ leb h.height height.height ]

unfoldable pub branch_id : NetworkUpgrade → BranchId
branch_id masp_upgrade = masp_branch

abbrev pub upgrades_in_order : List NetworkUpgrade
upgrades_in_order = masp_upgrade ∷ []

unfoldable pub branch_try_from : ℕ → Option BranchId
branch_try_from value = if value == 0xe9ff75a6 then some masp_branch else none

unfoldable pub branch_value : BranchId → ℕ
branch_value masp_branch = 0xe9ff75a6

unfoldable pub serialize : BranchId → Bytes
unfolding branch_value
serialize b = to_le_bytes 4 (branch_value b)

unfoldable pub deserialize : Bytes → Io (BranchId × Bytes)
unfolding branch_try_from
deserialize src = do
  (bytes, rest) ← read_array 4 src
  elim (branch_try_from (from_le_bytes bytes)) [ none ↦ err invalid_input | some b ↦ ok (b, rest) ]

-- The loop over the upgrades, the latest first, and the rules before any of them.
unfoldable pub for_height_loop : Parameters → BlockHeight → List NetworkUpgrade → BranchId
for_height_loop p height [] = masp_branch
for_height_loop p height (nu ∷ nus) =
    if is_nu_active p nu height then branch_id nu else for_height_loop p height nus

unfoldable pub for_height : Parameters → BlockHeight → BranchId
for_height p height = for_height_loop p height (reverse upgrades_in_order)

unfoldable pub height_bounds : BranchId → Parameters → Option (BlockHeight × Option BlockHeight)
height_bounds masp_branch p = elim (p masp_upgrade) [
  | none ↦ none
  | some lower ↦ some (lower, none)
]

-- `std::ops::Bound`
pub data Bound : Type 0 where
  included excluded : BlockHeight → Bound
  unbounded : Bound

unfoldable pub height_range : BranchId → Parameters → Option (Bound × Bound)
unfolding height_bounds
height_range b p = elim (height_bounds b p) [
  | none ↦ none
  | some (lower, none) ↦ some (included lower, unbounded)
  | some (lower, some upper) ↦ some (included lower, excluded upper)
]
