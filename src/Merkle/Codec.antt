-- ===== src/Merkle/Codec.antt =====
-- The encodings of `CommitmentTree` and `IncrementalWitness`.
pub mod RoundTrip
use masp.Base.{ℕ, Option, none, some, List, [], ◌∷◌, ◌++◌}
use masp.Base.Bytes.{Bytes}
use masp.Base.Result.{Io, ok, err, ◌>>=◌}
use masp.Base.Encoding.{Encoding}
use masp.Merkle.Hash.{Hashable}
use masp.Merkle.Tree.{CommitmentTree}
use masp.Merkle.Witness.{IncrementalWitness, next_depth}

module _ (enc : Encoding) {Node : Type 0} (H : Hashable Node) where
  unfoldable pub write_node : Option Node → Bytes
  write_node node = enc.write_optional H.write node

  unfoldable pub read_node : Bytes → Io (Option Node × Bytes)
  read_node src = enc.read_optional H.read src

  unfoldable pub write_tree : CommitmentTree Node → Bytes
  write_tree t = write_node t.left ++ (write_node t.right ++ enc.write_vector write_node t.parents)

  unfoldable pub read_tree : Bytes → Io (CommitmentTree Node × Bytes)
  read_tree src = do
    (left, rest) ← read_node src
    (right, rest') ← read_node rest
    (parents, rest'') ← enc.read_vector read_node rest'
    ok (record { left = left; right = right; parents = parents }, rest'')

  unfoldable pub write_witness : IncrementalWitness Node → Bytes
  write_witness w =
      write_tree w.tree
      ++ (enc.write_vector H.write w.filled ++ enc.write_optional write_tree w.cursor)

  -- The cursor depth is not stored: it is the next depth.
  unfoldable pub read_witness : Bytes → Io (IncrementalWitness Node × Bytes)
  read_witness src = do
    (tree, rest) ← read_tree src
    (filled, rest') ← enc.read_vector H.read rest
    (cursor, rest'') ← enc.read_optional read_tree rest'
    let witness : IncrementalWitness Node = record {
      tree = tree;
      filled = filled;
      cursor_depth = 0;
      cursor = cursor;
    }
    ok (record witness { cursor_depth = next_depth witness }, rest'')
