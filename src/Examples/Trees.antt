-- ===== src/Examples/Trees.antt =====
-- Commitment trees over the 32-byte nodes of sapling.rs, with a toy hash.
use masp.Base.{ℕ, ◌+◌, ◌*◌, ◌≡◌, refl, none, some, List, [], ◌∷◌, ◌++◌, arith}
use masp.Base.Bytes.{Bytes, to_le_bytes, from_le_bytes}
use masp.Base.Result.{ok, err}
use masp.Merkle.Hash.{Hashable, node_hashable, merkle_root}
use masp.Merkle.Tree.{CommitmentTree, empty, append_inner, size, root, is_complete, place}
use masp.Merkle.Tree.Represents.{Represents}
use masp.Merkle.Tree.Append.{append_inner-Represents}
use masp.Merkle.Tree.Build.{append_all, append_all-empty}

abbrev pub toy_hash : ℕ → Bytes → Bytes → Bytes
toy_hash depth l r = to_le_bytes 32 (depth + 3 * from_le_bytes l + 5 * from_le_bytes r)

abbrev pub nodes : Hashable Bytes
nodes = node_hashable toy_hash (to_le_bytes 32 1)

abbrev pub leaf : ℕ → Bytes
leaf n = to_le_bytes 32 n

abbrev pub three : CommitmentTree Bytes
three = record {
  left = some (leaf 12);
  right = none;
  parents = some (nodes.combine 0 (leaf 10) (leaf 11)) ∷ [];
}

abbrev pub leaves : List Bytes
leaves = leaf 10 ∷ leaf 11 ∷ leaf 12 ∷ []

abbrev four_leaves : List Bytes
four_leaves = leaves ++ leaf 13 ∷ []

abbrev full : CommitmentTree Bytes
full = record three { right = some (leaf 13) }

pub three-Represents : Represents nodes three leaves
three-Represents = record {
  pairs = (leaf 10, leaf 11) ∷ [];
  leaves = refl;
  shaped = tt;
  above = ([], refl, refl);
}

full-Represents : Represents nodes full four_leaves
full-Represents = record {
  pairs = (leaf 10, leaf 11) ∷ [];
  leaves = refl;
  shaped = tt;
  above = ([], refl, refl);
}

append_runs : append_inner nodes three (leaf 13) 2 ≡ ok full
unfolding append_inner is_complete place
append_runs = refl

full_runs : append_inner nodes full (leaf 14) 2 ≡ err tt
unfolding append_inner is_complete
full_runs = refl

append_inner-Represents_example :
    (t' : CommitmentTree Bytes) × (append_inner nodes three (leaf 13) 2 ≡ ok t')
    × Represents nodes t' four_leaves
append_inner-Represents_example =
    append_inner-Represents nodes three leaves (leaf 13) 1 three-Represents (omega arith)

append_all-empty_example :
    (t : CommitmentTree Bytes) × (append_all nodes empty leaves ≡ ok t)
    × (size t ≡ some 3)
    × (root nodes t ≡ some (merkle_root nodes 32 leaves))
append_all-empty_example = append_all-empty nodes leaves (omega arith)
