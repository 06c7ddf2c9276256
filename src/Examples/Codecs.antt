-- ===== src/Examples/Codecs.antt =====
-- The encodings of the trees and witnesses of the toy hash.
use masp.Base.{ℕ, ◌≤◌, ◌≡◌, [], ◌∷◌, ◌++◌, arith, length}
use masp.Base.Bytes.{Bytes, to_le_bytes, length-to_le_bytes}
use masp.Base.Result.{ok}
use masp.Base.Encoding.{small, Reads}
use masp.Merkle.Hash.{node_hashable, node-Reads}
use masp.Merkle.Witness.{IncrementalWitness}
use masp.Merkle.Witness.Tracks.{Tracks}
use masp.Merkle.Codec.{read_tree, write_tree, read_witness, write_witness}
use masp.Merkle.Codec.RoundTrip.{TreeReads, read_tree-write_tree, read_witness-Tracks}
use masp.Examples.Trees.{nodes, leaf, three, leaves, toy_hash}
use masp.Examples.Witnesses.{start, start-Tracks}

leaf-Reads : (n : ℕ) → Reads nodes.write nodes.read (leaf n)
leaf-Reads n = node-Reads toy_hash (to_le_bytes 32 1) (leaf n) (length-to_le_bytes 32 n)

pair-length : length (nodes.combine 0 (leaf 10) (leaf 11)) ≡ 32
unfolding node_hashable
pair-length = length-to_le_bytes 32 _

three-TreeReads : TreeReads small nodes three
three-TreeReads = record {
  left_reads = leaf-Reads 12;
  right_reads = tt;
  parents_read = (
    node-Reads toy_hash (to_le_bytes 32 1) (nodes.combine 0 (leaf 10) (leaf 11)) pair-length,
    tt,
  );
  parents_fit = unfold small in omega arith;
}

none_fit : length start.filled ≤ small.max_size
unfolding small
none_fit = omega arith

read_tree-write_tree_example :
    read_tree small nodes (write_tree small nodes three ++ 9 ∷ []) ≡ ok (three, 9 ∷ [])
read_tree-write_tree_example = read_tree-write_tree small nodes three (9 ∷ []) three-TreeReads

read_witness-Tracks_example :
    (w' : IncrementalWitness Bytes) × (read_witness small nodes
        (write_witness small nodes start ++ 9 ∷ [])
      ≡ ok (w', 9 ∷ []))
    × Tracks nodes 2 w' leaves []
read_witness-Tracks_example =
    read_witness-Tracks small nodes start leaves [] 2 (9 ∷ []) start-Tracks three-TreeReads tt
      none_fit tt
