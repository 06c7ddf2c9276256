-- ===== src/Merkle/Frozen.antt =====
-- `FrozenCommitmentTree`: all rows of a tree in one vector, the leaves first. `none` is a panic.
pub mod Rows
pub mod Path
pub mod Merge
pub mod Build
use masp.Base.{
  ℕ, zero, suc, ◌+◌, ◌-◌, ◌*◌, ◌/◌, ◌%◌, ◌^◌, Bool, true, false, ◌&&◌, Option, none, some, List, [],
  ◌∷◌, ◌++◌,
}
use masp.Base.{if◌then◌else◌, leb, ltb, ◌==◌, length, get_elem?, get_or, all, take, drop}
use masp.Merkle.Hash.{Hashable, tree_depth}
use masp.Merkle.Path.{MerklePath}

-- The nodes of all rows, and the number of leaves.
pub record FrozenCommitmentTree (Node : Type 0) : Type 0 where
  pub nodes : List Node
  pub leafs : ℕ

-- `usize::is_power_of_two`, of a number below 2 ^ fuel.
unfoldable pub is_power_of_two : ℕ → ℕ → Bool
is_power_of_two zero n = false
is_power_of_two (suc fuel) n =
    let half = is_power_of_two fuel (n / 2) in
    if n == 1 then true else (if n % 2 == 0 then half else false)

-- The variables of the loop of `merge`.
pub record Merging (Node : Type 0) : Type 0 where
  pub tree : List Node
  pub height : ℕ
  pub first_start : ℕ
  pub first_width : ℕ
  pub last_start : ℕ
  pub last_width : ℕ
  pub start : ℕ
  pub width : ℕ

module _ {Node : Type 0} where
  abbrev pub size : FrozenCommitmentTree Node → ℕ
  size t = t.leafs

  -- The last of a list, if it has one.
  unfoldable pub last : List Node → Option Node
  last [] = none
  last (x ∷ []) = some x
  last (x ∷ y ∷ xs) = last (y ∷ xs)

  -- `&tree[start .. start + width]`
  unfoldable pub slice : List Node → ℕ → ℕ → Option (List Node)
  slice nodes start width =
      if leb (start + width) (length nodes) then some (take width (drop start nodes)) else none

  -- The rows of the full subtrees at one level, one after another.
  unfoldable pub level : List (FrozenCommitmentTree Node) → ℕ → ℕ → List Node → Option (List Node)
  level [] start width tree = some tree
  level (t ∷ ts) start width tree = elim (slice t.nodes start width) [
    | none ↦ none
    | some row ↦ level ts start width (tree ++ row)
  ]

  -- The variables before the loop.
  unfoldable pub merging : ℕ → ℕ → ℕ → Merging Node
  merging size last_size leafs = record {
    tree = [];
    height = 0;
    first_start = 0;
    first_width = size;
    last_start = 0;
    last_width = last_size;
    start = 0;
    width = leafs;
  }

  -- The right child is made sure to be present for the parent.
  unfoldable pub adjust : Merging Node → Merging Node
  adjust m =
      if m.last_width % 2 == 1 && ltb 1 m.first_width
      then record m { last_width = m.last_width + 1; width = m.width + 1 }
      else m

  unfoldable pub ascend : Merging Node → List Node → Merging Node
  ascend m tree = record {
    tree = tree;
    height = m.height + 1;
    first_start = m.first_start + m.first_width;
    first_width = m.first_width / 2;
    last_start = m.last_start + m.last_width;
    last_width = m.last_width / 2;
    start = m.start + m.width;
    width = m.width / 2;
  }

  -- The rows of one level, those of the full subtrees and that of the last one.
  unfoldable pub take_level :
      List (FrozenCommitmentTree Node)
      → FrozenCommitmentTree Node
      → Merging Node
      → Option (List Node)
  take_level full end m = elim (level full m.first_start m.first_width m.tree) [
    | none ↦ none
    | some tree ↦ elim (slice end.nodes m.last_start m.last_width) [
      | none ↦ none
      | some row ↦ some (tree ++ row)
    ]
  ]

  -- The loop of `merge`. A width of 64 bits is halved at most 64 times before it is 1 or 0.
  unfoldable pub merge_loop :
      ℕ
      → List (FrozenCommitmentTree Node)
      → FrozenCommitmentTree Node
      → Merging Node
      → Option (Merging Node)
  merge_loop zero full end m = none
  merge_loop (suc fuel) full end m =
      let m' = adjust m in
      elim (take_level full end m') [
        | none ↦ none
        | some tree ↦
            let more = merge_loop fuel full end (ascend m' tree) in
            if m'.first_width == 1 then some (record m' { tree = tree }) else more
      ]

  -- The list without its last element, and that element.
  unfoldable pub split_last :
      FrozenCommitmentTree Node
      → List (FrozenCommitmentTree Node)
      → List (FrozenCommitmentTree Node) × FrozenCommitmentTree Node
  split_last t [] = ([], t)
  split_last t (u ∷ us) = let (full, end) = split_last u us in (t ∷ full, end)

  -- The two assertions.
  unfoldable pub mergeable : ℕ → List (FrozenCommitmentTree Node) → Bool
  unfolding is_power_of_two
  mergeable size full = is_power_of_two 64 size && all (λ t. t.leafs == size) full

module _ {Node : Type 0} (H : Hashable Node) where
  -- The inner loop of `complete`, from `j` on, for the given number of rounds.
  unfoldable pub combine_row : ℕ → ℕ → ℕ → ℕ → List Node → Option (List Node)
  combine_row height start j zero tree = some tree
  combine_row height start j (suc n) tree = elim (get_elem? tree (start + 2 * j)) [
    | none ↦ none
    | some l ↦ elim (get_elem? tree (start + 2 * j + 1)) [
      | none ↦ none
      | some r ↦ combine_row height start (suc j) n (tree ++ H.combine height l r ∷ [])
    ]
  ]

  -- A row of odd width gets a dummy.
  unfoldable pub pad_row : ℕ → List Node → ℕ → List Node × ℕ
  pad_row height tree width =
      if width % 2 == 1 then (tree ++ H.empty_root height ∷ [], width + 1) else (tree, width)

  -- The outer loop of `complete`, for the given number of rounds.
  unfoldable pub complete_loop : ℕ → ℕ → List Node → ℕ → ℕ → Option (List Node)
  complete_loop zero height tree start width = some tree
  complete_loop (suc n) height tree start width =
      let (tree', width') = pad_row height tree width in
      elim (combine_row height start 0 (width' / 2) tree') [
        | none ↦ none
        | some tree'' ↦ complete_loop n (suc height) tree'' (start + width') (width' / 2)
      ]

  unfoldable pub complete : List Node → ℕ → ℕ → ℕ → ℕ → Option (FrozenCommitmentTree Node)
  complete tree start width heightp leafs =
      elim (complete_loop (tree_depth - heightp) heightp tree start width) [
        | none ↦ none
        | some tree' ↦ some (record { nodes = tree'; leafs = leafs })
      ]

  unfoldable pub new : List Node → Option (FrozenCommitmentTree Node)
  unfolding complete
  new leafs = complete leafs 0 (length leafs) 0 (length leafs)

  unfoldable pub root : FrozenCommitmentTree Node → Node
  unfolding last
  root t = elim (last t.nodes) [ some node ↦ node | none ↦ H.empty_root tree_depth ]

  -- The sibling of the node at a position of the row that begins at `start`.
  unfoldable pub sibling : List Node → ℕ → ℕ → ℕ → ℕ → Option Node
  sibling nodes height start width pos =
      if pos % 2 == 0
      then (if ltb (pos + 1) width
          then get_elem? nodes (start + pos + 1)
          else some (H.empty_root height))
      else (if ltb (pos - 1) width
          then get_elem? nodes (start + pos - 1)
          else some (H.empty_root height))

  -- The loop of `path`, for the given number of rounds.
  unfoldable pub path_loop : List Node → ℕ → ℕ → ℕ → ℕ → ℕ → Option (List (Node × Bool))
  path_loop nodes zero height start width pos = some []
  path_loop nodes (suc n) height start width pos =
      let width' : ℕ = if width % 2 == 1 then width + 1 else width in
      elim (sibling nodes height start width' pos) [
        | none ↦ none
        | some node ↦
            elim (path_loop nodes n (suc height) (start + width') (width' / 2) (pos / 2)) [
              | none ↦ none
              | some path ↦ some ((node, pos % 2 == 1) ∷ path)
            ]
      ]

  unfoldable pub path : FrozenCommitmentTree Node → ℕ → Option (MerklePath Node)
  unfolding path_loop
  path t pos = elim (path_loop t.nodes tree_depth 0 0 t.leafs pos) [
    | none ↦ none
    | some auth_path ↦ some (record { auth_path = auth_path; position = pos % 2 ^ 64 })
  ]

  unfoldable pub merge_full :
      ℕ
      → List (FrozenCommitmentTree Node)
      → FrozenCommitmentTree Node
      → Option (FrozenCommitmentTree Node)
  unfolding mergeable merge_loop merging complete
  merge_full size full end =
      let leafs = length full * size + end.leafs in
      if mergeable size full
      then elim (merge_loop 64 full end (merging size end.leafs leafs)) [
        | none ↦ none
        | some m ↦ complete m.tree m.start m.width m.height leafs
      ]
      else none

  unfoldable pub merge : List (FrozenCommitmentTree Node) → Option (FrozenCommitmentTree Node)
  unfolding merge_full split_last
  merge [] = some (record { nodes = []; leafs = 0 })
  merge (t ∷ []) = some t
  merge (t ∷ u ∷ us) = let (full, end) = split_last t (u ∷ us) in merge_full t.leafs full end
