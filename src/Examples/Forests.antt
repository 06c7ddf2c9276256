-- ===== src/Examples/Forests.antt =====
-- Frozen trees over the nodes of sapling.rs, with the toy hash.
use masp.Base.{◌≡◌, ap, refl, some, List, [], ◌∷◌, map, arith, true, false}
use masp.Base.{length}
use masp.Base.Bytes.{Bytes, to_le_bytes}
use masp.Base.Result.{ok}
use masp.Merkle.Hash.{tree_depth, merkle_root, node_hashable}
use masp.Merkle.Path
use masp.Merkle.Path.{MerklePath}
use masp.Merkle.Tree
use masp.Merkle.Tree.{CommitmentTree}
use masp.Merkle.Tree.Build.{append_all}
use masp.Merkle.Frozen.{
  FrozenCommitmentTree, new, root, path, merge, size, combine_row, complete_loop, pad_row, sibling,
  path_loop,
}
use masp.Merkle.Frozen.Rows.{frozen, new_lem}
use masp.Merkle.Frozen.Build.{new-append_all, path-new, merge-new}
use masp.Examples.Trees.{nodes, leaf, leaves}

abbrev parent : Bytes
parent = nodes.combine 0 (leaf 10) (leaf 11)

-- Two rows above three leaves.
abbrev small : List Bytes
small =
    leaf 10
    ∷ leaf 11
    ∷ leaf 12
    ∷ leaf 1
    ∷ parent
    ∷ nodes.combine 0 (leaf 12) (leaf 1)
    ∷ nodes.combine 1 parent (nodes.combine 0 (leaf 12) (leaf 1))
    ∷ []

small_built : complete_loop nodes 2 0 leaves 0 3 ≡ some small
unfolding complete_loop pad_row combine_row node_hashable to_le_bytes
small_built = refl

-- The third leaf is a left child with a dummy beside it, below a right child.
small_path : path_loop nodes small 2 0 0 3 2 ≡ some ((leaf 1, false) ∷ (parent, true) ∷ [])
unfolding path_loop sibling
small_path = refl

empty_root_of : root nodes (record { nodes = []; leafs = 0 }) ≡ nodes.empty_root 32
unfolding root
empty_root_of = refl

merge_nothing : merge nodes [] ≡ some (record { nodes = []; leafs = 0 })
unfolding merge
merge_nothing = refl

new-append_all_example :
    (t : FrozenCommitmentTree Bytes) × (grown : CommitmentTree Bytes) × (new nodes leaves ≡ some t)
    × (append_all nodes Tree.empty leaves ≡ ok grown)
    × (Tree.size grown ≡ some (size t))
    × (Tree.root nodes grown ≡ some (root nodes t))
    × (root nodes t ≡ merkle_root nodes tree_depth leaves)
new-append_all_example = new-append_all nodes leaves (omega arith)

path-new_example :
    (p : MerklePath Bytes) × (path nodes (frozen nodes leaves) 2 ≡ some p)
    × (p.position ≡ 2)
    × (length p.auth_path ≡ tree_depth)
    × (Path.root nodes p (leaf 12) ≡ root nodes (frozen nodes leaves))
path-new_example =
    path-new nodes leaves 2 (leaf 12) (frozen nodes leaves) (omega arith) refl
      (new_lem nodes leaves)

abbrev chunk : List Bytes
chunk = leaf 10 ∷ leaf 11 ∷ []

abbrev rest : List Bytes
rest = leaf 12 ∷ []

chunks_made :
    map (new nodes) (chunk ∷ chunk ∷ []) ≡ map some (frozen nodes chunk ∷ frozen nodes chunk ∷ [])
chunks_made = ap (λ r. r ∷ r ∷ []) (new_lem nodes chunk)

merge-new_example :
    (whole : FrozenCommitmentTree Bytes) × (merge nodes
        (frozen nodes chunk ∷ frozen nodes chunk ∷ frozen nodes rest ∷ [])
      ≡ some whole)
    × (new nodes (leaf 10 ∷ leaf 11 ∷ leaf 10 ∷ leaf 11 ∷ leaf 12 ∷ []) ≡ some whole)
merge-new_example =
    merge-new nodes 1 (chunk ∷ chunk ∷ []) rest (frozen nodes chunk ∷ frozen nodes chunk ∷ [])
      (frozen nodes rest) (omega arith) (refl, (refl, tt)) chunks_made (new_lem nodes rest)
