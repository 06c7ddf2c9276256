-- ===== src/Merkle/Witness/Tracks.antt =====
-- What a witness holds: the leaves of its tree, and the blocks of further leaves in its holes.
use masp.Base.{
  ℕ, suc, ◌^◌, ◌<◌, ◌≤◌, ◌≡◌, refl, ap, sym, ◌∙◌, arith, Option, none, some, List, [], ◌∷◌, ◌++◌,
}
use masp.Base.{length, length-append, append_assoc, append-nil, get_elem?}
use masp.Merkle.Hash.{Hashable, merkle_root}
use masp.Merkle.Tree.{CommitmentTree}
use masp.Merkle.Tree.Represents.{Represents}
use masp.Merkle.Witness.{IncrementalWitness, from_tree}
use masp.Merkle.Witness.Holes.{holes, capacity}

module _ {Node : Type 0} (H : Hashable Node) where
  -- The nodes are the roots of blocks of the leaves `zs` that fill the holes in order, with the
  -- leaves `rest` behind the blocks.
  abbrev pub Blocks : List ℕ → List Node → List Node → List Node → Type 0
  Blocks hs [] zs rest = zs ≡ rest
  Blocks [] (n ∷ ns) zs rest = ⊥
  Blocks (h ∷ hs) (n ∷ ns) zs rest =
      (block : List Node) × (after : List Node) × (zs ≡ block ++ after)
      × (length block ≡ 2 ^ h)
      × (n ≡ merkle_root H h block)
      × Blocks hs ns after rest

  -- The cursor stands for the leaves behind the blocks, fewer than the next hole takes.
  abbrev pub Holds : Option ℕ → ℕ → Option (CommitmentTree Node) → List Node → Type 0
  Holds hole depth none rest = rest ≡ []
  Holds hole depth (some c) rest =
      (h : ℕ) × (hole ≡ some (suc h))
      × (depth ≡ suc h)
      × Represents H c rest
      × (0 < length rest)
      × (length rest < 2 ^ suc h)

  pub record Tracks (d : ℕ) (w : IncrementalWitness Node) (xs ys : List Node) : Type 0 where
    pub first : Node
    pub at_left : w.tree.left ≡ some first
    pub below : Represents H w.tree xs
    pub fits : length xs ≤ 2 ^ suc d
    pub rest : List Node
    pub blocks : Blocks (holes d w.tree) w.filled ys rest
    pub held : Holds (get_elem? (holes d w.tree) (length w.filled)) w.cursor_depth w.cursor rest

  -- A leaf behind the others.
  pub Blocks-extend :
      (hs : List ℕ) (ns zs rest ws : List Node)
      → Blocks hs ns zs rest
      → Blocks hs ns (zs ++ ws) (rest ++ ws)
  Blocks-extend hs [] zs rest ws e = ap (λ r. r ++ ws) e
  Blocks-extend [] (n ∷ ns) zs rest ws b = absurd b
  Blocks-extend (h ∷ hs) (n ∷ ns) zs rest ws (block, after, e, len, m, b) = (
    block,
    after ++ ws,
    ap (λ r. r ++ ws) e ∙ append_assoc block after ws,
    len,
    m,
    Blocks-extend hs ns after rest ws b,
  )

  -- Leaves that fill the next hole.
  pub Blocks-fill :
      (hs : List ℕ) (ns zs rest : List Node) (h : ℕ)
      → Blocks hs ns zs rest
      → get_elem? hs (length ns) ≡ some h
      → length rest ≡ 2 ^ h
      → Blocks hs (ns ++ merkle_root H h rest ∷ []) zs []
  Blocks-fill [] [] zs rest h b e len = absurd (cc e)
  Blocks-fill (k ∷ hs) [] zs rest h b e len =
      let same : k ≡ h = ground (arith, e) in
      (
        rest,
        [],
        b ∙ sym (append-nil rest),
        len ∙ ap (λ (n : ℕ). 2 ^ n) (sym same),
        ap (λ n. merkle_root H n rest) (sym same),
        refl,
      )
  Blocks-fill [] (n ∷ ns) zs rest h b e len = absurd b
  Blocks-fill (k ∷ hs) (n ∷ ns) zs rest h (block, after, f, l, m, b) e len =
      (block, after, f, l, m, Blocks-fill hs ns after rest h b e len)

  -- With all the holes filled, the leaves are as many as they take.
  pub Blocks-full :
      (hs : List ℕ) (ns zs : List Node)
      → Blocks hs ns zs []
      → get_elem? hs (length ns) ≡ none
      → length zs ≡ capacity hs
  Blocks-full [] [] zs b e = ap length b
  Blocks-full (k ∷ hs) [] zs b e = absurd (cc e)
  Blocks-full [] (n ∷ ns) zs b e = absurd b
  Blocks-full (k ∷ hs) (n ∷ ns) zs (block, after, f, l, m, b) e =
      omega (arith, ap length f, length-append block after, l, Blocks-full hs ns after b e)

  -- With a hole that the leaves behind the blocks do not fill, there is room.
  pub Blocks-room :
      (hs : List ℕ) (ns zs rest : List Node) (h : ℕ)
      → Blocks hs ns zs rest
      → get_elem? hs (length ns) ≡ some h
      → length rest < 2 ^ h
      → length zs < capacity hs
  Blocks-room [] [] zs rest h b e less = absurd (cc e)
  Blocks-room (k ∷ hs) [] zs rest h b e less =
      let same : k ≡ h = ground (arith, e) in omega (arith, ap length b, ap (λ (n : ℕ). 2 ^ n) same)
  Blocks-room [] (n ∷ ns) zs rest h b e less = absurd b
  Blocks-room (k ∷ hs) (n ∷ ns) zs rest h (block, after, f, l, m, b) e less =
      omega
        (arith, ap length f, length-append block after, l, Blocks-room hs ns after rest h b e less)

  pub from_tree-Tracks :
      (t : CommitmentTree Node) (xs : List Node) (d : ℕ) (l : Node)
      → Represents H t xs
      → t.left ≡ some l
      → length xs ≤ 2 ^ suc d
      → Tracks d (from_tree t) xs []
  unfolding from_tree
  from_tree-Tracks t xs d l rep e fits = record {
    first = l;
    at_left = e;
    below = rep;
    fits = fits;
    rest = [];
    blocks = refl;
    held = refl;
  }
