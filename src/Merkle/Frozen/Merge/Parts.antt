-- ===== src/Merkle/Frozen/Merge/Parts.antt =====
-- The rows of subtrees side by side.
use masp.Base.{
  ℕ, zero, suc, ◌+◌, ◌/◌, ◌%◌, ◌≡◌, inl, inr, refl, ap, sym, ◌∙◌, arith, some, List, [], ◌∷◌, ◌++◌,
  map, append_assoc, append-nil,
}
use masp.Base.{length, length-append, take-append, drop-append}
use masp.Merkle.Hash.{Hashable, next_row}
use masp.Merkle.Frozen.{FrozenCommitmentTree, slice, level}
use masp.Merkle.Frozen.Rows.{pairs, padded, rows, padded_lem, length-next_row}

-- Lists one after another.
abbrev pub concat : {A : Type 0} → List (List A) → List A
concat [] = []
concat (xs ∷ xss) = xs ++ concat xss

pub slice_lem :
    {Node : Type 0} (pre row rest : List Node) (start width : ℕ)
    → length pre ≡ start
    → length row ≡ width
    → slice (pre ++ (row ++ rest)) start width ≡ some row
unfolding slice
slice_lem pre row rest start width s w =
    let cut = drop-append pre (row ++ rest) start s in
    let kept = take-append row rest width w in
    let long = length-append pre (row ++ rest) in
    let long' = length-append row rest in ground (arith, cut, kept, long, long', s, w)

module _ {Node : Type 0} (H : Hashable Node) where
  -- A row stands at the beginning of its rows.
  pub rows-prefix :
      (n h : ℕ) (row : List Node) → (rest : List Node) × (rows H h n row ≡ row ++ rest)
  unfolding rows
  rows-prefix zero h row = ([], sym (append-nil row))
  rows-prefix (suc n) h row =
      let above = rows H (suc h) n (next_row H h row) in
      elim (padded_lem H h row) [
        | inl (_, p) ↦ (above, ap (λ r. r ++ above) p)
        | inr (_, p) ↦ (
          H.empty_root h ∷ above,
          ap (λ r. r ++ above) p ∙ append_assoc row (H.empty_root h ∷ []) above,
        )
      ]

  -- The trees hold the given rows at a height, from `start` on, with `n` rows above them.
  abbrev pub Holds : ℕ → ℕ → ℕ → ℕ → List (FrozenCommitmentTree Node) → List (List Node) → Type 0
  Holds h n start width [] [] = Unit {0}
  Holds h n start width [] (row ∷ rs) = ⊥
  Holds h n start width (t ∷ ts) [] = ⊥
  Holds h n start width (t ∷ ts) (row ∷ rs) =
      (pre : List Node) × (t.nodes ≡ pre ++ rows H h n row)
      × (length pre ≡ start)
      × (length row ≡ width)
      × Holds h n start width ts rs

  level-step :
      (t : FrozenCommitmentTree Node) (ts : List (FrozenCommitmentTree Node)) (start width : ℕ)
      (tree row : List Node)
      → slice t.nodes start width ≡ some row
      → level (t ∷ ts) start width tree ≡ level ts start width (tree ++ row)
  unfolding level
  level-step t ts start width tree row e = ground (arith, e)

  pub level_lem :
      (h n start width : ℕ) (ts : List (FrozenCommitmentTree Node)) (rs : List (List Node))
      (tree : List Node)
      → Holds h n start width ts rs
      → level ts start width tree ≡ some (tree ++ concat rs)
  level_lem h n start width [] [] tree held =
      unfold level in ap (λ r. some r) (sym (append-nil tree))
  level_lem h n start width [] (row ∷ rs) tree held = absurd held
  level_lem h n start width (t ∷ ts) [] tree held = absurd held
  level_lem h n start width (t ∷ ts) (row ∷ rs) tree (pre, nodes, s, w, held) =
      let (rest, prefix) = rows-prefix n h row in
      let cut : slice t.nodes start width ≡ some row =
        ap (λ l. slice l start width) (nodes ∙ ap (◌++◌ pre) prefix)
        ∙ slice_lem pre row rest start width s w in
      level-step t ts start width tree row cut
      ∙ level_lem h n start width ts rs (tree ++ row) held
      ∙ ap (λ r. some r) (append_assoc tree row (concat rs))

  -- A row of even width is not padded.
  pub padded-even : (h : ℕ) (row : List Node) → length row % 2 ≡ 0 → padded H h row ≡ row
  padded-even h row even = elim (padded_lem H h row) [
    | inl (_, p) ↦ p
    | inr (odd, _) ↦ absurd (omega arith)
  ]

  pub pairs-append :
      (h : ℕ) (xs ys : List Node)
      → length xs % 2 ≡ 0
      → pairs H h (xs ++ ys) ≡ pairs H h xs ++ pairs H h ys
  unfolding pairs
  pairs-append h [] ys even = refl
  pairs-append h (x ∷ []) ys even = absurd (omega arith)
  pairs-append h (x ∷ x' ∷ xs) ys even = ap (◌∷◌ (x, x')) (pairs-append h xs ys (omega arith))

  pub next_row-append :
      (h : ℕ) (xs ys : List Node)
      → length xs % 2 ≡ 0
      → next_row H h (xs ++ ys) ≡ next_row H h xs ++ next_row H h ys
  unfolding next_row
  next_row-append h [] ys even = refl
  next_row-append h (x ∷ []) ys even = absurd (omega arith)
  next_row-append h (x ∷ x' ∷ xs) ys even =
      ap (◌∷◌ (H.combine h x x')) (next_row-append h xs ys (omega arith))

  pub padded-append :
      (h : ℕ) (xs ys : List Node) → length xs % 2 ≡ 0 → padded H h (xs ++ ys) ≡ xs ++ padded H h ys
  unfolding pairs
  padded-append h [] ys even = refl
  padded-append h (x ∷ []) ys even = absurd (omega arith)
  padded-append h (x ∷ x' ∷ xs) ys even = ap (λ r. x ∷ x' ∷ r) (padded-append h xs ys (omega arith))

  -- Rows of one even width, one after another.
  pub concat-even :
      (h n start width : ℕ) (ts : List (FrozenCommitmentTree Node)) (rs : List (List Node))
      → width % 2 ≡ 0
      → Holds h n start width ts rs
      → length (concat rs) % 2 ≡ 0
  concat-even h n start width [] [] even held = refl
  concat-even h n start width [] (row ∷ rs) even held = absurd held
  concat-even h n start width (t ∷ ts) [] even held = absurd held
  concat-even h n start width (t ∷ ts) (row ∷ rs) even (pre, nodes, s, w, held) =
      omega (arith, length-append row (concat rs), concat-even h n start width ts rs even held)

  pub concat-next_row :
      (h n start width : ℕ) (ts : List (FrozenCommitmentTree Node)) (rs : List (List Node))
      → width % 2 ≡ 0
      → Holds h n start width ts rs
      → concat (map (next_row H h) rs) ≡ next_row H h (concat rs)
  concat-next_row h n start width [] [] even held = unfold next_row in refl
  concat-next_row h n start width [] (row ∷ rs) even held = absurd held
  concat-next_row h n start width (t ∷ ts) [] even held = absurd held
  concat-next_row h n start width (t ∷ ts) (row ∷ rs) even (pre, nodes, s, w, held) =
      ap (◌++◌ (next_row H h row)) (concat-next_row h n start width ts rs even held)
      ∙ sym (next_row-append h row (concat rs) (omega arith))

  -- One height up.
  pub Holds-next :
      (h n start width : ℕ) (ts : List (FrozenCommitmentTree Node)) (rs : List (List Node))
      → width % 2 ≡ 0
      → Holds h (suc n) start width ts rs
      → Holds (suc h) n (start + width) (width / 2) ts (map (next_row H h) rs)
  unfolding rows
  Holds-next h n start width [] [] even held = tt
  Holds-next h n start width [] (row ∷ rs) even held = absurd held
  Holds-next h n start width (t ∷ ts) [] even held = absurd held
  Holds-next h n start width (t ∷ ts) (row ∷ rs) even (pre, nodes, s, w, held) =
      let above = rows H (suc h) n (next_row H h row) in
      let moved : t.nodes ≡ (pre ++ row) ++ above =
        nodes
        ∙ ap (λ r. pre ++ (r ++ above)) (padded-even h row (omega arith))
        ∙ sym (append_assoc pre row above) in
      (
        pre ++ row,
        moved,
        omega (arith, length-append pre row),
        omega (arith, length-next_row H h row),
        Holds-next h n start width ts rs even held,
      )
