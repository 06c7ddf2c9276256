-- ===== src/Merkle/Witness.antt =====
-- `IncrementalWitness`: a tree, the roots of the complete subtrees that fill its holes, and the
-- subtree that is being filled. `none` stands for a panic.
pub mod Rows
pub mod Holes
pub mod Tracks
pub mod Append
pub mod Root
pub mod Path
pub mod Build
use masp.Base.{ℕ, zero, suc, ◌+◌, ◌-◌, Bool, true, false, Option, none, some, List, [], ◌∷◌, ◌++◌}
use masp.Base.{if◌then◌else◌, length, leb, ◌==◌}
use masp.Base.Result.{Result, ok, err}
use masp.Merkle.Hash.{Hashable, tree_depth}
use masp.Merkle.Tree
use masp.Merkle.Tree.{CommitmentTree, is_complete, next, size}
use masp.Merkle.Path.{MerklePath, from_path}

pub record IncrementalWitness (Node : Type 0) : Type 0 where
  pub tree : CommitmentTree Node
  pub filled : List Node
  pub cursor_depth : ℕ
  pub cursor : Option (CommitmentTree Node)

module _ {Node : Type 0} where
  unfoldable pub from_tree : CommitmentTree Node → IncrementalWitness Node
  from_tree tree = record { tree = tree; filled = []; cursor_depth = 0; cursor = none }

  unfoldable pub position : IncrementalWitness Node → Option ℕ
  position w = elim (size w.tree) [ none ↦ none | some n ↦ if n == 0 then none else some (n - 1) ]

  -- The loop of `next_depth` over the parents that are left.
  unfoldable pub depth_loop : ℕ → ℕ → List (Option Node) → ℕ
  depth_loop d skip [] = d + skip
  depth_loop d skip (some p ∷ ps) = depth_loop (suc d) skip ps
  depth_loop d zero (none ∷ ps) = d
  depth_loop d (suc skip) (none ∷ ps) = depth_loop (suc d) skip ps

  unfoldable pub depth_right : ℕ → Option Node → List (Option Node) → ℕ
  unfolding depth_loop
  depth_right skip (some r) ps = depth_loop 1 skip ps
  depth_right zero none ps = 0
  depth_right (suc skip) none ps = depth_loop 1 skip ps

  unfoldable pub depth_left : ℕ → Option Node → Option Node → List (Option Node) → ℕ
  unfolding depth_right
  depth_left skip (some l) right ps = depth_right skip right ps
  depth_left zero none right ps = 0
  depth_left (suc skip) none right ps = depth_right skip right ps

  unfoldable pub next_depth : IncrementalWitness Node → ℕ
  next_depth w = depth_left (length w.filled) w.tree.left w.tree.right w.tree.parents

module _ {Node : Type 0} (H : Hashable Node) where
  -- The queue of the path filler.
  unfoldable pub filler : IncrementalWitness Node → Option (List Node)
  filler w = elim w.cursor [
    | none ↦ some w.filled
    | some c ↦ elim (Tree.root_inner H c w.cursor_depth []) [
      | none ↦ none
      | some cursor_root ↦ some (w.filled ++ cursor_root ∷ [])
    ]
  ]

  -- A cursor that took a leaf: its root is kept where it is complete.
  unfoldable pub advance :
      IncrementalWitness Node → CommitmentTree Node → Option (IncrementalWitness Node)
  advance w cursor =
      if is_complete cursor w.cursor_depth
      then (elim (Tree.root_inner H cursor w.cursor_depth []) [
        | none ↦ none
        | some node ↦ some (record w { filled = w.filled ++ node ∷ []; cursor = none })
      ])
      else some (record w { cursor = some cursor })

  -- A leaf that begins the next subtree, at the given depth. Where the tree is full, the source has
  -- set the cursor depth before it returns the error; no method reads it while there is no cursor.
  unfoldable pub begin :
      IncrementalWitness Node → Node → ℕ → ℕ → Option (Result (Unit {0}) (IncrementalWitness Node))
  begin w node depth next =
      if leb depth next
      then some (err tt)
      else if next == 0
      then some (ok (record w { filled = w.filled ++ node ∷ []; cursor_depth = next }))
      else elim (Tree.append_inner H Tree.empty node depth) [
        | err _ ↦ none
        | ok cursor ↦ some (ok (record w { cursor = some cursor; cursor_depth = next }))
      ]

  unfoldable pub append_inner :
      IncrementalWitness Node → Node → ℕ → Option (Result (Unit {0}) (IncrementalWitness Node))
  append_inner w node depth = elim w.cursor [
    | none ↦ begin w node depth (next_depth w)
    | some cursor ↦ elim (Tree.append_inner H cursor node depth) [
      | err _ ↦ none
      | ok cursor' ↦ elim (advance w cursor') [ none ↦ none | some w' ↦ some (ok w') ]
    ]
  ]

  unfoldable pub append :
      IncrementalWitness Node → Node → Option (Result (Unit {0}) (IncrementalWitness Node))
  append w node = append_inner w node tree_depth

  unfoldable pub root_inner : IncrementalWitness Node → ℕ → Option Node
  root_inner w depth = elim (filler w) [
    | none ↦ none
    | some queue ↦ Tree.root_inner H w.tree depth queue
  ]

  unfoldable pub root : IncrementalWitness Node → Option Node
  root w = root_inner w tree_depth

  -- The loop of `path_inner` over the parents from index `i` on, with `None` behind the last.
  unfoldable pub path_loop : ℕ → ℕ → List (Option Node) → List Node → List (Node × Bool)
  path_loop zero i ps queue = []
  path_loop (suc rounds) i [] queue =
      let (filler, queue') = next H queue (suc i) in
      (filler, false) ∷ path_loop rounds (suc i) [] queue'
  path_loop (suc rounds) i (some node ∷ ps) queue = (node, true) ∷ path_loop rounds (suc i) ps queue
  path_loop (suc rounds) i (none ∷ ps) queue =
      let (filler, queue') = next H queue (suc i) in
      (filler, false) ∷ path_loop rounds (suc i) ps queue'

  unfoldable pub leaf_entry : Node → Option Node → List Node → (Node × Bool) × List Node
  leaf_entry l (some r) queue = ((l, true), queue)
  leaf_entry l none queue = let (filler, queue') = next H queue 0 in ((filler, false), queue')

  -- `some none` is `None`. The depth is positive, as `depth - 1` asks.
  unfoldable pub path_inner : IncrementalWitness Node → ℕ → Option (Option (MerklePath Node))
  path_inner w depth = elim (filler w) [
    | none ↦ none
    | some queue ↦ elim w.tree.left [
      | none ↦ some none
      | some l ↦
          let (entry, queue') = leaf_entry l w.tree.right queue in
          let auth_path = entry ∷ path_loop (depth - 1) 0 w.tree.parents queue' in
          elim (position w) [
            | none ↦ none
            | some position ↦
                if length auth_path == depth
                then some (some (from_path auth_path position))
                else none
          ]
    ]
  ]

  unfoldable pub path : IncrementalWitness Node → Option (Option (MerklePath Node))
  path w = path_inner w tree_depth
