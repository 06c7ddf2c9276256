-- ===== src/Merkle/Tree/Root.antt =====
-- The root of a commitment tree is the root of its leaves.
use masp.Base.{ℕ, zero, suc, ◌+◌, ◌^◌, ◌<◌, ◌≤◌, ◌≡◌, refl, sym, ap, ◌∙◌, Option, none, some, arith}
use masp.Base.{List, [], ◌∷◌, ◌++◌, map, length, length-map, append_assoc, append-nil, subst}
use native.Mathlib.Nat.{pow-suc, one-le-pow}
use masp.Merkle.Hash.{
  Hashable, unpair, pair, next_row, row_root, merkle_root, next_row-unpair, row_root-empty,
}
use masp.Merkle.Tree.{CommitmentTree, root_loop, root_inner, next, or_next}
use masp.Merkle.Tree.Represents.{Rep, Represents, even_length, odd_length}
use masp.Merkle.Tree.Append.{length-leaves}

module _ {Node : Type 0} (H : Hashable Node) where
  abbrev pub head_or : ℕ → List Node → Node
  head_or h [] = H.empty_root h
  head_or h (w ∷ ws) = w

  abbrev pub tail : List Node → List Node
  tail [] = []
  tail (w ∷ ws) = ws

  -- The queue of a path filler supplies the right siblings of a path from height `i + 1` on, where
  -- the nodes `ws` stand right of the path at that height.
  abbrev pub Fills : ℕ → ℕ → List (Option Node) → List Node → List Node → Type 0
  Fills zero i ps queue ws = Unit
  Fills (suc d) i [] queue ws =
      ((next H queue (suc i)).0 ≡ head_or (suc i) ws)
      × Fills d (suc i) [] (next H queue (suc i)).1 (next_row H (suc i) (tail ws))
  Fills (suc d) i (none ∷ ps) queue ws =
      ((next H queue (suc i)).0 ≡ head_or (suc i) ws)
      × Fills d (suc i) ps (next H queue (suc i)).1 (next_row H (suc i) (tail ws))
  Fills (suc d) i (some p ∷ ps) queue ws = Fills d (suc i) ps queue (next_row H (suc i) ws)

  next_row-left :
      (h : ℕ) (qs : List (Node × Node)) (x : Node) (ws : List Node)
      → next_row H h (unpair qs ++ x ∷ ws)
        ≡ map (pair H h) qs ++ H.combine h x (head_or h ws) ∷ next_row H h (tail ws)
  next_row-left h qs x [] = next_row-unpair H h qs (x ∷ []) ∙ (unfold next_row in refl)
  next_row-left h qs x (w ∷ ws) = next_row-unpair H h qs (x ∷ w ∷ ws) ∙ (unfold next_row in refl)

  next_row-right :
      (h : ℕ) (qs : List (Node × Node)) (p x : Node) (ws : List Node)
      → next_row H h ((unpair qs ++ p ∷ []) ++ x ∷ ws)
        ≡ map (pair H h) qs ++ H.combine h p x ∷ next_row H h ws
  next_row-right h qs p x ws =
      ap (next_row H h) (append_assoc (unpair qs) (p ∷ []) (x ∷ ws))
      ∙ next_row-unpair H h qs (p ∷ x ∷ ws)
      ∙ (unfold next_row in refl)

  next_row-pair :
      (h : ℕ) (qs : List (Node × Node)) (l r : Node) (ws : List Node)
      → next_row H h ((unpair qs ++ l ∷ r ∷ []) ++ ws)
        ≡ map (pair H h) qs ++ H.combine h l r ∷ next_row H h ws
  next_row-pair h qs l r ws =
      ap (next_row H h) (append_assoc (unpair qs) (l ∷ r ∷ []) ws)
      ∙ next_row-unpair H h qs (l ∷ r ∷ ws)
      ∙ (unfold next_row in refl)

  -- The loop from height `i + 1` on, over the parents that stand for `ys`, takes the node that
  -- stands between `ys` and `ws` to the root of that row.
  pub root_loop_lem :
      (d i : ℕ) (ps : List (Option Node)) (queue ys : List Node) (x : Node) (ws : List Node)
      → Rep H (suc i) ps ys
      → Fills d i ps queue ws
      → length ys < 2 ^ d
      → root_loop H d i ps queue x ≡ row_root H (suc i) d (ys ++ x ∷ ws)
  unfolding root_loop row_root
  root_loop_lem zero i ps queue [] x ws r f l = refl
  root_loop_lem zero i ps queue (y ∷ ys) x ws r f l = absurd (omega arith)
  root_loop_lem (suc d) i [] queue ys x ws r (f, fs) l =
      rw (r, next_row-left (suc i) [] x ws, f)
        (root_loop_lem d (suc i) [] (next H queue (suc i)).1 [] _ _ refl fs
          (omega (arith, pow-suc 2 d, ap length r)))
  root_loop_lem (suc d) i (none ∷ ps) queue ys x ws (qs, e, r) (f, fs) l =
      rw (e, next_row-left (suc i) qs x ws, f)
        (root_loop_lem d (suc i) ps (next H queue (suc i)).1 (map (pair H (suc i)) qs) _ _ r fs
          (omega (arith, pow-suc 2 d, even_length ys qs e, length-map qs (pair H (suc i)))))
  root_loop_lem (suc d) i (some p ∷ ps) queue ys x ws (qs, e, r) fs l =
      rw (e, next_row-right (suc i) qs p x ws)
        (root_loop_lem d (suc i) ps queue (map (pair H (suc i)) qs) _ _ r fs
          (omega (arith, pow-suc 2 d, odd_length ys qs p e, length-map qs (pair H (suc i)))))

  pub Fills-empty : (d i : ℕ) (ps : List (Option Node)) → Fills d i ps [] []
  unfolding next next_row
  Fills-empty zero i ps = tt
  Fills-empty (suc d) i [] = (refl, Fills-empty d (suc i) [])
  Fills-empty (suc d) i (none ∷ ps) = (refl, Fills-empty d (suc i) ps)
  Fills-empty (suc d) i (some p ∷ ps) = Fills-empty d (suc i) ps

  row_root-blank : (d h : ℕ) → row_root H h d (H.empty_root h ∷ []) ≡ H.empty_root (h + d)
  unfolding row_root next_row
  row_root-blank zero h = ap H.empty_root (omega arith)
  row_root-blank (suc d) h =
      rw (← H.empty_root-suc h) (row_root-blank d (suc h) ∙ ap H.empty_root (omega arith))

  abbrev pub FillsLeaf :
      ℕ → Option Node → Option Node → List (Option Node) → List Node → List Node → Type 0
  FillsLeaf d none right ps queue ws = (queue ≡ []) × (ws ≡ [])
  FillsLeaf d (some l) none ps queue ws =
      ((next H queue 0).0 ≡ head_or 0 ws) × Fills d 0 ps (next H queue 0).1 (next_row H 0 (tail ws))
  FillsLeaf d (some l) (some r) ps queue ws = Fills d 0 ps queue (next_row H 0 ws)

  -- The queue supplies the siblings right of the last leaf of the tree, and right of its ancestors,
  -- where the leaves `ws` follow those of the tree.
  abbrev pub FillsTree : ℕ → CommitmentTree Node → List Node → List Node → Type 0
  FillsTree d t queue ws = FillsLeaf d t.left t.right t.parents queue ws

  -- The root over no leaf.
  blank_root :
      (d : ℕ) (ps : List (Option Node))
      → Rep H 1 ps []
      → root_loop H d 0 ps
          (next H (next H [] 0).1 0).1
          (H.combine 0 (next H [] 0).0 (next H (next H [] 0).1 0).0)
        ≡ row_root H 1 d (next_row H 0 [])
  unfolding next next_row
  blank_root d ps rep = rw (← H.empty_root-suc 0) (
      root_loop_lem d 0 ps [] [] (H.empty_root 1) [] rep (Fills-empty d 0 ps)
        (omega (arith, one-le-pow d 2))
      ∙ row_root-blank d 1
      ∙ sym (row_root-empty H d 1))

  filled_root :
      (l r : Option Node) (ps : List (Option Node)) (xs queue ws : List Node) (d : ℕ)
      → Represents H (record { left = l; right = r; parents = ps }) xs
      → FillsLeaf d l r ps queue ws
      → length xs ≤ 2 ^ suc d
      → root_inner H (record { left = l; right = r; parents = ps }) (suc d) queue
        ≡ some (merkle_root H (suc d) (xs ++ ws))
  unfolding root_inner or_next merkle_root row_root
  filled_root none none ps xs queue ws d rep (e, f) fits =
      rw (e, f, rep.leaves, rep.shaped)
        (ap some (blank_root d ps (subst (Rep H 1 ps) (ap (map (pair H 0)) rep.shaped) rep.above)))
  filled_root none (some r) ps xs queue ws d rep f fits = absurd rep.shaped
  filled_root (some l) none ps xs queue ws d rep (e, f) fits =
      let above =
        root_loop_lem d 0 ps (next H queue 0).1 (map (pair H 0) rep.pairs)
          (H.combine 0 l (head_or 0 ws)) (next_row H 0 (tail ws)) rep.above f
          (omega (arith, length-leaves H _ xs rep, length-map rep.pairs (pair H 0), pow-suc 2 d)) in
      rw
        (rep.leaves, append_assoc (unpair rep.pairs) (l ∷ []) ws, next_row-left 0 rep.pairs l ws, e)
        (ap some above)
  filled_root (some l) (some r) ps xs queue ws d rep f fits =
      let above =
        root_loop_lem d 0 ps queue (map (pair H 0) rep.pairs) (H.combine 0 l r) (next_row H 0 ws)
          rep.above f
          (omega (arith, length-leaves H _ xs rep, length-map rep.pairs (pair H 0), pow-suc 2 d)) in
      rw (rep.leaves, next_row-pair 0 rep.pairs l r ws) (ap some above)

  -- Where a tree represents leaves that its depth holds, and the queue of the path filler supplies
  -- the right siblings that further leaves determine, root_inner is the root of the leaves
  -- followed by those further leaves.
  pub root_inner-FillsTree :
      (t : CommitmentTree Node) (xs queue ws : List Node) (d : ℕ)
      → Represents H t xs
      → FillsTree d t queue ws
      → length xs ≤ 2 ^ suc d
      → root_inner H t (suc d) queue ≡ some (merkle_root H (suc d) (xs ++ ws))
  root_inner-FillsTree t xs queue ws d rep f fits =
      filled_root t.left t.right t.parents xs queue ws d rep f fits

  FillsTree-empty : (d : ℕ) (l r : Option Node) (ps : List (Option Node)) → FillsLeaf d l r ps [] []
  unfolding next next_row
  FillsTree-empty d none r ps = (refl, refl)
  FillsTree-empty d (some l) none ps = (refl, Fills-empty d 0 ps)
  FillsTree-empty d (some l) (some r) ps = Fills-empty d 0 ps

  -- The root is that of the leaves, each row padded by empty roots.
  pub root_inner-Represents :
      (t : CommitmentTree Node) (xs : List Node) (d : ℕ)
      → Represents H t xs
      → length xs ≤ 2 ^ suc d
      → root_inner H t (suc d) [] ≡ some (merkle_root H (suc d) xs)
  root_inner-Represents t xs d rep fits =
      root_inner-FillsTree t xs [] [] d rep (FillsTree-empty d t.left t.right t.parents) fits
      ∙ ap (λ l. some (merkle_root H (suc d) l)) (append-nil xs)
