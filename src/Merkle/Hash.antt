-- ===== src/Merkle/Hash.antt =====
-- The trait `Hashable`, its implementation for the nodes of sapling.rs, and the root of a list of
-- leaves by its definition, row by row: the reference for the tree structures.
use masp.Base.{ℕ, zero, suc, ◌+◌, ◌*◌, ◌≡◌, refl, ap, ◌∙◌, arith, List, [], ◌∷◌, ◌++◌, map, length}
use masp.Base.Bytes.{Bytes, read_exact, read_exact-append}
use masp.Base.Result.{Io}
use masp.Base.Encoding.{Reads}

-- `constants::SAPLING_COMMITMENT_TREE_DEPTH`
abbrev pub tree_depth : ℕ
tree_depth = 32

pub record Hashable (Node : Type 0) : Type 0 where
  pub combine : ℕ → Node → Node → Node
  pub blank : Node
  pub empty_root : ℕ → Node
  pub read : Bytes → Io (Node × Bytes)
  pub write : Node → Bytes
  -- An empty root is the root of a tree of blank leaves.
  pub empty_root-zero : empty_root 0 ≡ blank
  pub empty_root-suc : (d : ℕ) → empty_root (suc d) ≡ combine d (empty_root d) (empty_root d)

-- The nodes of sapling.rs. The Pedersen hash and `Note::uncommitted` are parameters. The source
-- panics at a depth behind the last entry of `EMPTY_ROOTS`, which is 32; here there is no last one.
module _ (merkle_hash : ℕ → Bytes → Bytes → Bytes) (uncommitted : Bytes) where
  -- The entry of `EMPTY_ROOTS` at a depth.
  unfoldable pub empty_roots : ℕ → Bytes
  empty_roots zero = uncommitted
  empty_roots (suc d) = merkle_hash d (empty_roots d) (empty_roots d)

  unfoldable pub node_hashable : Hashable Bytes
  unfolding empty_roots
  node_hashable = record {
    combine = merkle_hash;
    blank = uncommitted;
    empty_root = empty_roots;
    read = λ src. read_exact 32 src;
    write = λ repr. repr;
    empty_root-zero = refl;
    empty_root-suc = λ d. refl;
  }

  pub node-Reads :
      (repr : Bytes) → length repr ≡ 32 → Reads node_hashable.write node_hashable.read repr
  unfolding node_hashable
  node-Reads repr h rest = read_exact-append repr rest 32 h

module _ {Node : Type 0} (H : Hashable Node) where
  -- The parents of a row at height `h`. A node with no right sibling gets an empty one.
  unfoldable pub next_row : ℕ → List Node → List Node
  next_row h [] = []
  next_row h (x ∷ []) = H.combine h x (H.empty_root h) ∷ []
  next_row h (x ∷ y ∷ xs) = H.combine h x y ∷ next_row h xs

  -- The node `d` rows above a row at height `h` that this row is the beginning of.
  unfoldable pub row_root : ℕ → ℕ → List Node → Node
  row_root h zero [] = H.empty_root h
  row_root h zero (x ∷ xs) = x
  row_root h (suc d) xs = row_root (suc h) d (next_row h xs)

  -- The root of the tree of depth `d` over the given leaves.
  unfoldable pub merkle_root : ℕ → List Node → Node
  unfolding row_root
  merkle_root d leaves = row_root 0 d leaves

  pub row_root-empty : (d h : ℕ) → row_root h d [] ≡ H.empty_root (h + d)
  unfolding row_root next_row
  row_root-empty zero h = ap H.empty_root (omega arith)
  row_root-empty (suc d) h = row_root-empty d (suc h) ∙ ap H.empty_root (omega arith)

-- Pairs of siblings, and the row that they form.
module _ {A : Type 0} where
  abbrev pub unpair : List (A × A) → List A
  unpair [] = []
  unpair ((a, b) ∷ qs) = a ∷ b ∷ unpair qs

  pub length-unpair : (qs : List (A × A)) → length (unpair qs) ≡ 2 * length qs
  length-unpair [] = refl
  length-unpair ((a, b) ∷ qs) = omega (arith, length-unpair qs)

  pub unpair-append :
      (qs : List (A × A)) (a b : A) → unpair (qs ++ (a, b) ∷ []) ≡ unpair qs ++ a ∷ b ∷ []
  unpair-append [] a b = refl
  unpair-append ((c, d) ∷ qs) a b = ap (λ r. c ∷ d ∷ r) (unpair-append qs a b)

module _ {Node : Type 0} (H : Hashable Node) where
  abbrev pub pair : ℕ → Node × Node → Node
  pair h q = H.combine h q.0 q.1

  pub next_row-unpair :
      (h : ℕ) (qs : List (Node × Node)) (xs : List Node)
      → next_row H h (unpair qs ++ xs) ≡ map (pair h) qs ++ next_row H h xs
  unfolding next_row
  next_row-unpair h [] xs = refl
  next_row-unpair h ((a, b) ∷ qs) xs = ap (◌∷◌ (H.combine h a b)) (next_row-unpair h qs xs)
