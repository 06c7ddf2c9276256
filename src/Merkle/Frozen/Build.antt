-- ===== src/Merkle/Frozen/Build.antt =====
-- Trees that `new` builds, against trees that grow leaf by leaf, and merges of such trees.
use masp.Base.{ℕ, ◌^◌, ◌≤◌, ◌≡◌, refl, ap, ap₂, sym, ◌∙◌, some, List, [], ◌∷◌, ◌++◌, map}
use masp.Base.{length, get_elem?, All}
use masp.Base.Result.{ok}
use masp.Merkle.Hash.{Hashable, tree_depth, merkle_root}
use masp.Merkle.Path
use masp.Merkle.Path.{MerklePath}
use masp.Merkle.Tree
use masp.Merkle.Tree.{CommitmentTree}
use masp.Merkle.Tree.Build.{append_all, append_all-empty}
use masp.Merkle.Frozen.{FrozenCommitmentTree, new, root, path, merge, size}
use masp.Merkle.Frozen.Rows.{frozen, new_lem, root-frozen}
use masp.Merkle.Frozen.Path.{path-frozen}
use masp.Merkle.Frozen.Merge.{merge-frozen}
use masp.Merkle.Frozen.Merge.Parts.{concat}

module _ {Node : Type 0} (H : Hashable Node) where
  -- Of at most 2 ^ 32 leaves a frozen tree is made without a panic, and appending the leaves to
  -- the empty commitment tree does not fail; the two have the same size and the same root, which
  -- is the root of the leaves by the row-by-row definition.
  pub new-append_all :
      (leaves : List Node)
      → length leaves ≤ 2 ^ tree_depth
      → (t : FrozenCommitmentTree Node) × (grown : CommitmentTree Node) × (new H leaves ≡ some t)
        × (append_all H Tree.empty leaves ≡ ok grown)
        × (Tree.size grown ≡ some (size t))
        × (Tree.root H grown ≡ some (root H t))
        × (root H t ≡ merkle_root H tree_depth leaves)
  new-append_all leaves fits =
      let (grown, run, count, top) = append_all-empty H leaves fits in
      let same = root-frozen H leaves fits in
      (frozen H leaves, grown, new_lem H leaves, run, count, top ∙ ap some (sym same), same)

  -- In a tree made of at most 2 ^ 32 leaves, every leaf has a path, without a panic, of 32 entries
  -- and with the position of the leaf, which leads from the leaf to the root of the tree.
  pub path-new :
      (leaves : List Node) (pos : ℕ) (leaf : Node) (t : FrozenCommitmentTree Node)
      → length leaves ≤ 2 ^ tree_depth
      → get_elem? leaves pos ≡ some leaf
      → new H leaves ≡ some t
      → (p : MerklePath Node) × (path H t pos ≡ some p)
        × (p.position ≡ pos)
        × (length p.auth_path ≡ tree_depth)
        × (Path.root H p leaf ≡ root H t)
  path-new leaves pos leaf t fits at made =
      let same : frozen H leaves ≡ t = cc (new_lem H leaves, made) in
      let (p, found, place, long, top) = path-frozen H leaves pos leaf fits at in
      (
        p,
        ap (λ u. path H u pos) (sym same) ∙ found,
        place,
        long,
        top ∙ sym (root-frozen H leaves fits) ∙ ap (root H) same,
      )

  made_all :
      (chunks : List (List Node)) (ts : List (FrozenCommitmentTree Node))
      → map (new H) chunks ≡ map some ts
      → map (frozen H) chunks ≡ ts
  made_all [] [] e = refl
  made_all [] (t ∷ ts) e = cc
  made_all (c ∷ chunks) [] e = cc
  made_all (c ∷ chunks) (t ∷ ts) e =
      let here : frozen H c ≡ t = cc (new_lem H c) in
      ap₂ (λ x xs. x ∷ xs) here (made_all chunks ts (cc))

  -- Where some trees are made of 2 ^ k leaves each, k at most 32, and a last one of any leaves,
  -- neither merging them nor making one tree of all the leaves panics, and the two give the same
  -- tree, node for node.
  pub merge-new :
      (k : ℕ) (chunks : List (List Node)) (rest : List Node) (ts : List (FrozenCommitmentTree Node))
      (t : FrozenCommitmentTree Node)
      → k ≤ tree_depth
      → All (λ c. length c ≡ 2 ^ k) chunks
      → map (new H) chunks ≡ map some ts
      → new H rest ≡ some t
      → (whole : FrozenCommitmentTree Node) × (merge H (ts ++ t ∷ []) ≡ some whole)
        × (new H (concat chunks ++ rest) ≡ some whole)
  merge-new k chunks rest ts t low sizes made last =
      let firsts = made_all chunks ts made in
      let end : frozen H rest ≡ t = cc (new_lem H rest) in
      (
        frozen H (concat chunks ++ rest),
        ap₂ (λ us u. merge H (us ++ u ∷ [])) (sym firsts) (sym end)
            ∙ merge-frozen H k chunks rest low sizes,
        new_lem H (concat chunks ++ rest),
      )
