-- ===== src/Merkle/Witness/Root.antt =====
-- The root of a witness is the root of all the leaves that it tracks.
use masp.Base.{
  ℕ, zero, suc, ◌≡◌, refl, ap, sym, ◌∙◌, subst, arith, Option, none, some, List, [], ◌∷◌, ◌++◌,
}
use masp.Base.{length, append-nil, get_elem?, drop}
use masp.Merkle.Hash.{Hashable, merkle_root, next_row}
use masp.Merkle.Tree
use masp.Merkle.Tree.{CommitmentTree, next}
use masp.Merkle.Tree.Root.{
  Fills, FillsLeaf, FillsTree, head_or, tail, root_inner-FillsTree, root_inner-Represents,
}
use masp.Merkle.Witness.{IncrementalWitness, filler, root_inner}
use masp.Merkle.Witness.Rows.{row, row-nil, row-block, merkle_root-row, tail-row}
use masp.Merkle.Witness.Holes.{holes, right_holes, parent_holes}
use masp.Merkle.Witness.Tracks.{Blocks, Holds, Tracks}

module _ {Node : Type 0} (H : Hashable Node) where
  -- The queue yields, hole by hole, the node that the leaves `zs` put there.
  abbrev Supplies : List ℕ → List Node → List Node → Type 0
  Supplies [] queue zs = Unit
  Supplies (h ∷ hs) queue zs =
      ((next H queue h).0 ≡ head_or H h (row H h zs))
      × (after : List Node) × (tail H (row H h zs) ≡ row H h after)
      × Supplies hs (next H queue h).1 after

  Supplies-Fills :
      (rounds i : ℕ) (ps : List (Option Node)) (queue zs : List Node)
      → Supplies (parent_holes rounds i ps) queue zs
      → Fills H rounds i ps queue (row H (suc i) zs)
  Supplies-Fills zero i ps queue zs s = tt
  Supplies-Fills (suc r) i [] queue zs (e, after, f, s) = (
    e,
    subst (λ l. Fills H r (suc i) [] (next H queue (suc i)).1 (next_row H (suc i) l)) (sym f)
        (Supplies-Fills r (suc i) [] (next H queue (suc i)).1 after s),
  )
  Supplies-Fills (suc r) i (none ∷ ps) queue zs (e, after, f, s) = (
    e,
    subst (λ l. Fills H r (suc i) ps (next H queue (suc i)).1 (next_row H (suc i) l)) (sym f)
        (Supplies-Fills r (suc i) ps (next H queue (suc i)).1 after s),
  )
  Supplies-Fills (suc r) i (some p ∷ ps) queue zs s = Supplies-Fills r (suc i) ps queue zs s

  Supplies-FillsLeaf :
      (d : ℕ) (l : Node) (right : Option Node) (ps : List (Option Node)) (queue zs : List Node)
      → Supplies (right_holes d right ps) queue zs
      → FillsLeaf H d (some l) right ps queue zs
  Supplies-FillsLeaf d l none ps queue zs (e, after, f, s) = (
    e,
    subst (λ r. Fills H d 0 ps (next H queue 0).1 (next_row H 0 r)) (sym f)
        (Supplies-Fills d 0 ps (next H queue 0).1 after s),
  )
  Supplies-FillsLeaf d l (some r) ps queue zs s = Supplies-Fills d 0 ps queue zs s

  supply :
      (h : ℕ) (hs : List ℕ) (queue queue' zs after : List Node) (n : Node)
      → next H queue h ≡ (n, queue')
      → n ≡ head_or H h (row H h zs)
      → tail H (row H h zs) ≡ row H h after
      → Supplies hs queue' after
      → Supplies (h ∷ hs) queue zs
  supply h hs queue queue' zs after n e here behind s = (
    ap (λ p. p.0) e ∙ here,
    after,
    behind,
    subst (λ q. Supplies hs q after) (sym (ap (λ p. p.1) e)) s,
  )

  next-nil : (h : ℕ) → next H [] h ≡ (H.empty_root h, [])
  next-nil h = unfold next in refl

  next-cons : (n : Node) (queue : List Node) (h : ℕ) → next H (n ∷ queue) h ≡ (n, queue)
  next-cons n queue h = unfold next in refl

  -- An empty queue stands for no leaf.
  Supplies-nil : (hs : List ℕ) → Supplies hs [] []
  Supplies-nil [] = tt
  Supplies-nil (h ∷ hs) =
      let empty_row = row-nil H h in
      supply h hs [] [] [] [] (H.empty_root h) (next-nil h) (sym (ap (head_or H h) empty_row))
        (ap (tail H) empty_row ∙ sym empty_row) (Supplies-nil hs)

  Supplies-Blocks :
      (hs : List ℕ) (ns queue zs rest : List Node)
      → Blocks H hs ns zs rest
      → Supplies (drop (length ns) hs) queue rest
      → Supplies hs (ns ++ queue) zs
  Supplies-Blocks hs [] queue zs rest e s = subst (Supplies hs queue) (sym e) s
  Supplies-Blocks [] (n ∷ ns) queue zs rest b s = absurd b
  Supplies-Blocks (h ∷ hs) (n ∷ ns) queue zs rest (block, after, e, len, m, b) s =
      let split = ap (row H h) e ∙ row-block H h block after len in
      supply h hs (n ∷ ns ++ queue) (ns ++ queue) zs after n (next-cons n (ns ++ queue) h)
        (m ∙ sym (ap (head_or H h) split)) (ap (tail H) split)
        (Supplies-Blocks hs ns queue after rest b s)

  drop-get_elem? :
      (hs : List ℕ) (k h : ℕ) → get_elem? hs k ≡ some h → (after : List ℕ) × (drop k hs ≡ h ∷ after)
  drop-get_elem? [] k h e = absurd (cc e)
  drop-get_elem? (j ∷ hs) zero h e = (hs, ground (arith, e))
  drop-get_elem? (j ∷ hs) (suc k) h e = drop-get_elem? hs k h e

  -- The queue of a witness supplies the leaves that it tracks.
  pub Tracks-filler :
      (d : ℕ) (w : IncrementalWitness Node) (xs ys : List Node)
      → Tracks H d w xs ys
      → (queue : List Node) × (filler H w ≡ some queue) × Supplies (holes d w.tree) queue ys
  Tracks-filler d w xs ys t = by_cursor w.cursor refl t.held
    where
      by_cursor :
          (c : Option (CommitmentTree Node))
          → w.cursor ≡ c
          → Holds H (get_elem? (holes d w.tree) (length w.filled)) w.cursor_depth c t.rest
          → (queue : List Node) × (filler H w ≡ some queue) × Supplies (holes d w.tree) queue ys
      by_cursor none at e = (
        w.filled,
        unfold filler in ground (arith, at),
        subst (λ q. Supplies (holes d w.tree) q ys) (append-nil w.filled)
            (Supplies-Blocks (holes d w.tree) w.filled [] ys t.rest t.blocks (
              subst (Supplies (drop (length w.filled) (holes d w.tree)) []) (sym e)
                (Supplies-nil _))),
      )
      by_cursor (some c) at (h, e, f, rep, pos, lt) =
          let r = merkle_root H (suc h) t.rest in
          let root : Tree.root_inner H c w.cursor_depth [] ≡ some r =
            ap (λ k. Tree.root_inner H c k []) f
            ∙ root_inner-Represents H c t.rest h rep (omega arith) in
          let (after, g) = drop-get_elem? (holes d w.tree) (length w.filled) (suc h) e in
          let last : Supplies (suc h ∷ after) (r ∷ []) t.rest =
            supply (suc h) after (r ∷ []) [] t.rest [] r (next-cons r [] (suc h))
              (merkle_root-row H (suc h) t.rest)
              (tail-row H (suc h) t.rest (omega arith) ∙ sym (row-nil H (suc h)))
              (Supplies-nil after) in
          (
            w.filled ++ r ∷ [],
            unfold filler in ground (arith, at, root),
            Supplies-Blocks (holes d w.tree) w.filled (r ∷ []) ys t.rest t.blocks
                (subst (λ hs. Supplies hs (r ∷ []) t.rest) (sym g) last),
          )

  -- The root of a witness is the root of all the leaves that it tracks, those of its tree followed
  -- by those appended since.
  pub root_inner-Tracks :
      (w : IncrementalWitness Node) (xs ys : List Node) (d : ℕ)
      → Tracks H d w xs ys
      → root_inner H w (suc d) ≡ some (merkle_root H (suc d) (xs ++ ys))
  root_inner-Tracks w xs ys d t =
      let (queue, e, s) = Tracks-filler d w xs ys t in
      let fills : FillsTree H d w.tree queue ys =
        subst (λ l. FillsLeaf H d l w.tree.right w.tree.parents queue ys) (sym t.at_left)
          (Supplies-FillsLeaf d t.first w.tree.right w.tree.parents queue ys s) in
      let tree_root = root_inner-FillsTree H w.tree xs queue ys d t.below fills t.fits in
      unfold root_inner in ground (arith, e, tree_root)
