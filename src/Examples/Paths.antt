-- ===== src/Examples/Paths.antt =====
-- Paths over the nodes of sapling.rs.
use masp.Base.{ℕ, ◌≡◌, true, false, [], ◌∷◌, ◌++◌, arith}
use masp.Base.Bytes.{Bytes, length-to_le_bytes}
use masp.Base.Bytes.{read_exact, read_exact-append}
use masp.Base.{subst, append-nil}
use masp.Base.Result.{ok}
use masp.Merkle.Hash.{node_hashable}
use masp.Merkle.Path.{MerklePath, serialize, deserialize}
use masp.Merkle.Path.RoundTrip.{deserialize-serialize, AllStored, IsStored}
use masp.Examples.Trees.{nodes, leaf}

abbrev extra : Bytes
extra = 9 ∷ []

abbrev path : MerklePath Bytes
path = record { auth_path = (leaf 5, false) ∷ (leaf 6, true) ∷ []; position = 2 }

leaf-IsStored : (n : ℕ) → IsStored nodes (leaf n)
unfolding node_hashable
leaf-IsStored n =
    let size = length-to_le_bytes 32 n in
    let back : read_exact 32 (leaf n ++ []) ≡ ok (leaf n, []) =
      read_exact-append (leaf n) [] 32 size in
    (size, subst (λ bs. read_exact 32 bs ≡ ok (leaf n, [])) (append-nil (leaf n)) back)

path-AllStored : AllStored nodes path.auth_path
path-AllStored = (leaf-IsStored 5, (leaf-IsStored 6, tt))

deserialize-serialize_example :
    deserialize nodes (serialize nodes path ++ 9 ∷ []) ≡ ok (path, 9 ∷ [])
deserialize-serialize_example =
    deserialize-serialize nodes path (9 ∷ []) path-AllStored (omega arith) (omega arith)
