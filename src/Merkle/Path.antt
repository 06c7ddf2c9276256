-- ===== src/Merkle/Path.antt =====
-- `MerklePath`: its root, and its encoding.
pub mod Chunks
pub mod RoundTrip
use masp.Base.{
  ℕ, zero, suc, ◌+◌, ◌*◌, ◌/◌, ◌%◌, ◌^◌, ◌-◌, Bool, true, false, List, [], ◌∷◌, ◌++◌, map, reverse,
}
use masp.Base.{if◌then◌else◌, length, take, drop, ◌==◌}
use masp.Base.Bytes.{Bytes, to_le_bytes, from_le_bytes, read_exact}
use masp.Base.Result.{Result, ok, err, Io, ◌>>=◌, ◌>>◌, guard, unexpected_eof, invalid_data}
use masp.Merkle.Hash.{Hashable, tree_depth}

pub record MerklePath (Node : Type 0) : Type 0 where
  pub auth_path : List (Node × Bool)
  pub position : ℕ

module _ {Node : Type 0} where
  unfoldable pub from_path : List (Node × Bool) → ℕ → MerklePath Node
  from_path auth_path position = record { auth_path = auth_path; position = position }

  -- `position |= (*b as u64) << i`. Each bit is set once, so `|` is a sum.
  -- A path has at most 64 entries; the shift of the source overflows behind them.
  unfoldable pub position_bits : ℕ → List (Node × Bool) → ℕ
  position_bits i [] = 0
  position_bits i ((node, b) ∷ path) =
      (if b then 2 ^ i % 2 ^ 64 else 0) + position_bits (suc i) path

  -- The last loop of `deserialize_reader`: entry by entry, the lowest bit of `tmp`.
  unfoldable pub set_bits : ℕ → List (Node × Bool) → List (Node × Bool)
  set_bits tmp [] = []
  set_bits tmp ((node, b) ∷ path) = (node, tmp % 2 == 1) ∷ set_bits (tmp / 2) path

-- `chunks_exact(33)` and its `remainder`, for the given number of chunks.
unfoldable pub chunks : ℕ → Bytes → List Bytes
chunks zero src = []
chunks (suc k) src = take 33 src ∷ chunks k (drop 33 src)

-- `read_u64::<LittleEndian>` on a slice, whose rest is dropped.
unfoldable pub read_u64 : Bytes → Io ℕ
read_u64 src = do (bytes, rest) ← read_exact 8 src; ok (from_le_bytes bytes)

-- Collects results; the first error is the result.
unfoldable pub collect : {A : Type 0} → List (Io A) → Io (List A)
collect [] = ok []
collect (r ∷ rs) = do x ← r; xs ← collect rs; ok (x ∷ xs)

module _ {Node : Type 0} (H : Hashable Node) where
  -- The fold of `root` over the entries from index `i` on.
  unfoldable pub fold_path : ℕ → List (Node × Bool) → Node → Node
  fold_path i [] root = root
  fold_path i ((p, true) ∷ path) root = fold_path (suc i) path (H.combine i p root)
  fold_path i ((p, false) ∷ path) root = fold_path (suc i) path (H.combine i root p)

  unfoldable pub root : MerklePath Node → Node → Node
  unfolding fold_path
  root path leaf = fold_path 0 path.auth_path leaf

  -- The length byte and the bytes of a node.
  unfoldable pub write_node : Node → Bytes
  write_node node = length (H.write node) % 256 ∷ H.write node

  -- The entries are written from the last to the first.
  unfoldable pub write_entries : List (Node × Bool) → Bytes
  write_entries [] = []
  write_entries ((node, b) ∷ path) = write_entries path ++ write_node node

  unfoldable pub serialize : MerklePath Node → Bytes
  serialize p =
      length p.auth_path % 256
      ∷ (write_entries p.auth_path ++ to_le_bytes 8 (position_bits 0 p.auth_path))

  unfoldable pub read_entry : Bytes → Io (Node × Bool)
  read_entry [] = err invalid_data
  read_entry (n ∷ bytes) =
      if n == 32
      then (elim (H.read bytes) [
        | ok (sibling, rest) ↦ ok (sibling, false)
        | err e ↦ err invalid_data
      ])
      else err invalid_data

  -- The bytes behind the depth byte, at most `33 * depth + 8` of them.
  unfoldable pub read_body : ℕ → Bytes → Io (MerklePath Node)
  read_body depth iter = do
    let count = length iter / 33
    position ← read_u64 (drop (33 * count) iter)
    auth_path ← collect (map read_entry (reverse (chunks count iter)))
    guard (length auth_path == depth) invalid_data
    ok (record { auth_path = set_bits position auth_path; position = position })

  unfoldable pub deserialize : Bytes → Io (MerklePath Node × Bytes)
  deserialize [] = err unexpected_eof
  deserialize (depth ∷ src) = do
    path ← read_body depth (take (33 * depth + 8) src)
    ok (path, drop (33 * depth + 8) src)

  unfoldable pub from_slice_with_depth : Bytes → ℕ → Result (Unit {0}) (MerklePath Node)
  from_slice_with_depth witness depth = elim (deserialize witness) [
    | err e ↦ err tt
    | ok (path, rest) ↦
        if length path.auth_path == depth then (elim rest [ [] ↦ ok path | _ ↦ err tt ]) else err tt
  ]

  unfoldable pub from_slice : Bytes → Result (Unit {0}) (MerklePath Node)
  from_slice witness = from_slice_with_depth witness tree_depth
