-- ===== src/Consensus/Branch.antt =====
-- Branch identifiers: their encoding, and the heights at which they are in effect.
use masp.Base.{ℕ, ◌<◌, ◌≤◌, ◌≡◌, ◌↔◌, ◌++◌, true, Option, none, some, arith}
use masp.Base.Bytes.{
  Bytes, read_array, read_array-append, to_le_bytes, length-to_le_bytes, from_le_bytes-to_le_bytes,
}
use masp.Base.Result.{ok}
use masp.Consensus.{
  BlockHeight, BranchId, NetworkUpgrade, Parameters, Bound, included, excluded, unbounded,
  serialize, deserialize, masp_branch, masp_upgrade, branch_id, is_nu_active, height_bounds,
  height_range,
}

pub deserialize-serialize_branch :
    (b : BranchId) (rest : Bytes) → deserialize (serialize b ++ rest) ≡ ok (b, rest)
deserialize-serialize_branch masp_branch rest =
    let bytes = to_le_bytes 4 0xe9ff75a6 in
    let taken : read_array 4 (bytes ++ rest) ≡ ok (bytes, rest) =
      read_array-append bytes rest 4 (length-to_le_bytes 4 0xe9ff75a6) in
    let value = from_le_bytes-to_le_bytes 4 0xe9ff75a6 (omega arith) in
    unfold serialize deserialize in ground (arith, taken, value)

-- A height that a range contains.
abbrev pub Above : Bound → ℕ → Type 0
Above (included l) n = l.height ≤ n
Above (excluded l) n = l.height < n
Above unbounded n = Unit

abbrev pub Below : Bound → ℕ → Type 0
Below (included u) n = n ≤ u.height
Below (excluded u) n = n < u.height
Below unbounded n = Unit

abbrev pub Contains : Option (Bound × Bound) → ℕ → Type 0
Contains none n = ⊥
Contains (some (l, u)) n = Above l n × Below u n

-- The height range of the branch of an upgrade contains a height exactly where the upgrade is
-- active at that height.
pub height_range-is_nu_active :
    (p : Parameters) (nu : NetworkUpgrade) (h : BlockHeight)
    → Contains (height_range (branch_id nu) p) h.height ↔ (is_nu_active p nu h ≡ true)
unfolding height_range branch_id is_nu_active height_bounds
height_range-is_nu_active p masp_upgrade h = ground arith
