-- ===== src/Examples/Witnesses.antt =====
-- Incremental witnesses over the trees of the toy hash.
use masp.Base.{◌≡◌, refl, some, none, List, [], ◌∷◌, ◌++◌, arith, length}
use masp.Base.Bytes.{Bytes}
use masp.Base.Result.{ok}
use masp.Merkle.Hash.{merkle_root}
use masp.Merkle.Tree
use masp.Merkle.Tree.{CommitmentTree, empty}
use masp.Merkle.Tree.Build.{append_all}
use masp.Merkle.Path
use masp.Merkle.Path.{MerklePath}
use masp.Merkle.Witness.{
  IncrementalWitness, from_tree, append_inner, root_inner, path_inner, root, next_depth, begin,
  depth_left,
}
use masp.Merkle.Witness.Tracks.{Tracks, from_tree-Tracks}
use masp.Merkle.Witness.Append.{append_inner-Tracks}
use masp.Merkle.Witness.Root.{root_inner-Tracks}
use masp.Merkle.Witness.Path.{path_inner-Tracks}
use masp.Merkle.Witness.Build.{witness_all, witness_all-from_tree}
use masp.Examples.Trees.{nodes, leaf, three, leaves, three-Represents}

abbrev pub start : IncrementalWitness Bytes
start = record { tree = three; filled = []; cursor_depth = 0; cursor = none }

pub start-Tracks : Tracks nodes 2 start leaves []
start-Tracks =
    unfold from_tree in
    from_tree-Tracks nodes three leaves 2 (leaf 12) three-Represents refl (omega arith)

-- The first hole is the right leaf, and the next one a subtree of four leaves.
depths : (next_depth start ≡ 0) × (next_depth (record start { filled = leaf 13 ∷ [] }) ≡ 2)
unfolding next_depth depth_left
depths = (refl, refl)

first_runs :
    append_inner nodes start (leaf 13) 3
    ≡ some (ok (record start { filled = leaf 13 ∷ []; cursor_depth = 0 }))
unfolding append_inner next_depth begin depth_left
first_runs = refl

append_inner-Tracks_example :
    (w' : IncrementalWitness Bytes) × (append_inner nodes start (leaf 13) 3 ≡ some (ok w'))
    × Tracks nodes 2 w' leaves (leaf 13 ∷ [])
append_inner-Tracks_example =
    append_inner-Tracks nodes start leaves [] (leaf 13) 2 start-Tracks (omega arith)

root_inner-Tracks_example : root_inner nodes start 3 ≡ some (merkle_root nodes 3 (leaves ++ []))
root_inner-Tracks_example = root_inner-Tracks nodes start leaves [] 2 start-Tracks

path_inner-Tracks_example :
    (front : List Bytes) × (last : Bytes) × (p : MerklePath Bytes) × (leaves ≡ front ++ last ∷ [])
    × (path_inner nodes start 3 ≡ some (some p))
    × (p.position ≡ length front)
    × (Path.root nodes p last ≡ merkle_root nodes 3 (leaves ++ []))
path_inner-Tracks_example = path_inner-Tracks nodes start leaves [] 2 start-Tracks

witness_all-from_tree_example :
    (t t' : CommitmentTree Bytes) × (w : IncrementalWitness Bytes) × (append_all nodes empty leaves
      ≡ ok t)
    × (append_all nodes t (leaf 13 ∷ leaf 14 ∷ []) ≡ ok t')
    × (witness_all nodes (from_tree t) (leaf 13 ∷ leaf 14 ∷ []) ≡ some (ok w))
    × (root nodes w ≡ Tree.root nodes t')
    × (root nodes w ≡ some (merkle_root nodes 32 (leaves ++ leaf 13 ∷ leaf 14 ∷ [])))
witness_all-from_tree_example =
    witness_all-from_tree nodes leaves (leaf 13 ∷ leaf 14 ∷ []) (λ e. cc e) (omega arith)
