-- ===== src/Merkle/Witness/Path.antt =====
-- The path of a witness leads from its leaf to its root.
use masp.Base.{
  ℕ, zero, suc, ◌+◌, ◌-◌, ◌≡◌, refl, ap, sym, ◌∙◌, Bool, arith, Option, none, some, List, [], ◌∷◌,
  ◌++◌,
}
use masp.Base.{length, length-append, append_assoc}
use masp.Merkle.Hash.{Hashable, merkle_root, unpair}
use masp.Merkle.Tree
use masp.Merkle.Tree.{CommitmentTree, root_loop, next, or_next, size}
use masp.Merkle.Tree.Represents.{Represents, size-Represents, loose}
use masp.Merkle.Path
use masp.Merkle.Path.{MerklePath, fold_path, from_path}
use masp.Merkle.Witness.{
  IncrementalWitness, root_inner, path_loop, leaf_entry, path_inner, position,
}
use masp.Merkle.Witness.Tracks.{Tracks}
use masp.Merkle.Witness.Root.{Tracks-filler, root_inner-Tracks}

module _ {Node : Type 0} (H : Hashable Node) where
  fold_path-path_loop :
      (r i : ℕ) (ps : List (Option Node)) (queue : List Node) (x : Node)
      → fold_path H (suc i) (path_loop H r i ps queue) x ≡ root_loop H r i ps queue x
  unfolding fold_path path_loop root_loop
  fold_path-path_loop zero i ps queue x = refl
  fold_path-path_loop (suc r) i [] queue x =
      fold_path-path_loop r (suc i) [] (next H queue (suc i)).1 _
  fold_path-path_loop (suc r) i (some p ∷ ps) queue x = fold_path-path_loop r (suc i) ps queue _
  fold_path-path_loop (suc r) i (none ∷ ps) queue x =
      fold_path-path_loop r (suc i) ps (next H queue (suc i)).1 _

  length-path_loop :
      (r i : ℕ) (ps : List (Option Node)) (queue : List Node)
      → length (path_loop H r i ps queue) ≡ r
  unfolding path_loop
  length-path_loop zero i ps queue = refl
  length-path_loop (suc r) i [] queue =
      ap suc (length-path_loop r (suc i) [] (next H queue (suc i)).1)
  length-path_loop (suc r) i (some p ∷ ps) queue = ap suc (length-path_loop r (suc i) ps queue)
  length-path_loop (suc r) i (none ∷ ps) queue =
      ap suc (length-path_loop r (suc i) ps (next H queue (suc i)).1)

  -- The last leaf of a tree with a left leaf.
  abbrev last_leaf : Node → Option Node → Node
  last_leaf l none = l
  last_leaf l (some r) = r

  abbrev whole_path : ℕ → Node → Option Node → List (Option Node) → List Node → List (Node × Bool)
  whole_path d l right ps queue =
      (leaf_entry H l right queue).0 ∷ path_loop H d 0 ps (leaf_entry H l right queue).1

  path_root :
      (d : ℕ) (l : Node) (right : Option Node) (ps : List (Option Node)) (queue : List Node)
      → some (fold_path H 0 (whole_path d l right ps queue) (last_leaf l right))
        ≡ Tree.root_inner H (record { left = some l; right = right; parents = ps }) (suc d) queue
  path_root d l none ps queue =
      let q = next H queue 0 in
      let opened_path : fold_path H 0 (whole_path d l none ps queue) l
          ≡ fold_path H 1 (path_loop H d 0 ps q.1) (H.combine 0 l q.0) =
        unfold leaf_entry fold_path in refl in
      let opened_tree : Tree.root_inner H (record { left = some l; right = none; parents = ps })
            (suc d) queue
          ≡ some (root_loop H d 0 ps q.1 (H.combine 0 l q.0)) =
        unfold Tree.root_inner or_next in refl in
      ap some (opened_path ∙ fold_path-path_loop d 0 ps q.1 (H.combine 0 l q.0)) ∙ sym opened_tree
  path_root d l (some r) ps queue =
      let opened_path : fold_path H 0 (whole_path d l (some r) ps queue) r
          ≡ fold_path H 1 (path_loop H d 0 ps queue) (H.combine 0 l r) =
        unfold leaf_entry fold_path in refl in
      let opened_tree : Tree.root_inner H (record { left = some l; right = some r; parents = ps })
            (suc d) queue
          ≡ some (root_loop H d 0 ps queue (H.combine 0 l r)) =
        unfold Tree.root_inner or_next in refl in
      ap some (opened_path ∙ fold_path-path_loop d 0 ps queue (H.combine 0 l r)) ∙ sym opened_tree

  last_of :
      (t : CommitmentTree Node) (xs : List Node) (l : Node)
      → Represents H t xs
      → t.left ≡ some l
      → (front : List Node) × (xs ≡ front ++ last_leaf l t.right ∷ [])
  last_of t xs l rep e =
      by_right t.right (rep.leaves ∙ ap (λ left. unpair rep.pairs ++ loose H left t.right) e)
    where
      by_right :
          (right : Option Node)
          → xs ≡ unpair rep.pairs ++ loose H (some l) right
          → (front : List Node) × (xs ≡ front ++ last_leaf l right ∷ [])
      by_right none f = (unpair rep.pairs, f)
      by_right (some r) f =
          (unpair rep.pairs ++ l ∷ [], f ∙ sym (append_assoc (unpair rep.pairs) (l ∷ []) (r ∷ [])))

  -- A witness that tracks leaves has a path, without a panic, whose position is that of the last
  -- leaf of the witnessed tree, and whose root from that leaf is the root of all the leaves
  -- tracked.
  pub path_inner-Tracks :
      (w : IncrementalWitness Node) (xs ys : List Node) (d : ℕ)
      → Tracks H d w xs ys
      → (front : List Node) × (leaf : Node) × (p : MerklePath Node) × (xs ≡ front ++ leaf ∷ [])
        × (path_inner H w (suc d) ≡ some (some p))
        × (p.position ≡ length front)
        × (Path.root H p leaf ≡ merkle_root H (suc d) (xs ++ ys))
  path_inner-Tracks w xs ys d t =
      let (queue, e, _) = Tracks-filler H d w xs ys t in
      let (front, last) = last_of w.tree xs t.first t.below t.at_left in
      let leaf = last_leaf t.first w.tree.right in
      let auth_path = whole_path d t.first w.tree.right w.tree.parents queue in
      let count : size w.tree ≡ some (length front + 1) =
        size-Represents H w.tree xs t.below
        ∙ ap some (ap length last ∙ length-append front (leaf ∷ [])) in
      let at : position w ≡ some (length front) = unfold position in ground (arith, count) in
      let long : length auth_path ≡ suc d =
        ap suc (length-path_loop d 0 w.tree.parents (leaf_entry H t.first w.tree.right queue).1) in
      let minus : suc d - 1 ≡ d = omega arith in
      let made : path_inner H w (suc d)
          ≡ some (some (record { auth_path = auth_path; position = length front })) =
        unfold path_inner from_path in ground (arith, e, t.at_left, at, long, minus) in
      let tree_root : Tree.root_inner H w.tree (suc d) queue
          ≡ some (merkle_root H (suc d) (xs ++ ys)) =
        unfold root_inner in ground (arith, e, root_inner-Tracks H w xs ys d t) in
      let same_tree : some (fold_path H 0 auth_path leaf) ≡ Tree.root_inner H w.tree (suc d) queue =
        path_root d t.first w.tree.right w.tree.parents queue
        ∙ ap (λ left. Tree.root_inner H (record w.tree { left = left }) (suc d) queue)
            (sym t.at_left) in
      (
        front,
        leaf,
        record { auth_path = auth_path; position = length front },
        last,
        made,
        refl,
        unfold Path.root in ground (arith, same_tree, tree_root),
      )
