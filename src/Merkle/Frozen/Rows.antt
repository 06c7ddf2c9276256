-- ===== src/Merkle/Frozen/Rows.antt =====
-- The vector of a frozen tree is the rows of the reference definition, one after another.
use masp.Base.{
  ℕ, zero, suc, ◌+◌, ◌-◌, ◌*◌, ◌/◌, ◌%◌, ◌^◌, ◌≤◌, ◌≡◌, ◌⊎◌, inl, inr, refl, ap, ap₂, sym, ◌∙◌,
  arith, none, some, List, [], ◌∷◌, ◌++◌, map, append_assoc, append-nil,
}
use masp.Base.{length, length-append, length-map, get_elem?, get_elem?-append}
use native.Mathlib.Nat.{pow-suc}
use masp.Merkle.Hash.{
  Hashable, tree_depth, next_row, row_root, merkle_root, row_root-empty, unpair, length-unpair,
  pair,
}
use masp.Merkle.Frozen.{
  FrozenCommitmentTree, combine_row, pad_row, complete_loop, complete, new, last, root,
}

module _ {Node : Type 0} (H : Hashable Node) where
  -- A row, with a dummy if its width is odd, in pairs.
  unfoldable pub pairs : ℕ → List Node → List (Node × Node)
  pairs h [] = []
  pairs h (x ∷ []) = (x, H.empty_root h) ∷ []
  pairs h (x ∷ y ∷ xs) = (x, y) ∷ pairs h xs

  abbrev pub padded : ℕ → List Node → List Node
  padded h row = unpair (pairs h row)

  -- A row and the `n` rows above it.
  unfoldable pub rows : ℕ → ℕ → List Node → List Node
  rows h zero row = row
  rows h (suc n) row = padded h row ++ rows (suc h) n (next_row H h row)

  pub next_row-pairs : (h : ℕ) (row : List Node) → next_row H h row ≡ map (pair H h) (pairs h row)
  unfolding next_row pairs
  next_row-pairs h [] = refl
  next_row-pairs h (x ∷ []) = refl
  next_row-pairs h (x ∷ y ∷ xs) = ap (◌∷◌ (H.combine h x y)) (next_row-pairs h xs)

  -- A row of even width is not changed, and one of odd width gets a dummy.
  pub padded_lem :
      (h : ℕ) (row : List Node)
      → ((length row % 2 ≡ 0) × (padded h row ≡ row))
        ⊎ ((length row % 2 ≡ 1) × (padded h row ≡ row ++ H.empty_root h ∷ []))
  unfolding pairs
  padded_lem h [] = inl (refl, refl)
  padded_lem h (x ∷ []) = inr (refl, refl)
  padded_lem h (x ∷ y ∷ xs) = elim (padded_lem h xs) [
    | inl (e, p) ↦ inl (omega arith, ap (λ r. x ∷ y ∷ r) p)
    | inr (e, p) ↦ inr (omega arith, ap (λ r. x ∷ y ∷ r) p)
  ]

  pub length-pairs : (h : ℕ) (row : List Node) → length (pairs h row) ≡ (length row + 1) / 2
  unfolding pairs
  length-pairs h [] = refl
  length-pairs h (x ∷ []) = refl
  length-pairs h (x ∷ y ∷ xs) = omega (arith, length-pairs h xs)

  pub length-padded : (h : ℕ) (row : List Node) → length (padded h row) ≡ 2 * length (pairs h row)
  length-padded h row = length-unpair (pairs h row)

  pub length-next_row : (h : ℕ) (row : List Node) → length (next_row H h row) ≡ (length row + 1) / 2
  length-next_row h row =
      ap length (next_row-pairs h row) ∙ length-map (pairs h row) (pair H h) ∙ length-pairs h row

  -- What `complete` does before its inner loop.
  pub pad_row_lem :
      (h : ℕ) (pre row : List Node)
      → pad_row H h (pre ++ row) (length row) ≡ (pre ++ padded h row, length (padded h row))
  unfolding pad_row
  pad_row_lem h pre row = elim (padded_lem h row) [
    | inl (e, p) ↦ rw (e, p) refl
    | inr (e, p) ↦
        let len : length (row ++ H.empty_root h ∷ []) ≡ length row + 1 =
          length-append row (H.empty_root h ∷ []) in
        rw (e, p, len, append_assoc pre row (H.empty_root h ∷ [])) refl
  ]

  combine_row-step :
      (h start j n : ℕ) (t : List Node) (a b : Node)
      → get_elem? t (start + 2 * j) ≡ some a
      → get_elem? t (start + 2 * j + 1) ≡ some b
      → combine_row H h start j (suc n) t
        ≡ combine_row H h start (suc j) n (t ++ H.combine h a b ∷ [])
  unfolding combine_row
  combine_row-step h start j n t a b ea eb = ground (arith, ea, eb)

  -- The inner loop adds the parents of the pairs that are left.
  combine_row_pairs :
      (h start j : ℕ) (lead out : List Node) (qs : List (Node × Node))
      → length lead ≡ start + 2 * j
      → combine_row H h start j (length qs) (lead ++ (unpair qs ++ out))
        ≡ some (lead ++ (unpair qs ++ (out ++ map (pair H h) qs)))
  combine_row_pairs h start j lead out [] e =
      unfold combine_row in ap (λ r. some (lead ++ r)) (sym (append-nil out))
  combine_row_pairs h start j lead out ((a, b) ∷ qs) e =
      let rest = a ∷ b ∷ (unpair qs ++ out) in
      let ea = get_elem?-append lead rest (start + 2 * j) 0 (omega arith) in
      let eb = get_elem?-append lead rest (start + 2 * j + 1) 1 (omega arith) in
      let lead' = lead ++ a ∷ b ∷ [] in
      let c = H.combine h a b ∷ [] in
      let ih =
        combine_row_pairs h start (suc j) lead' (out ++ c) qs
          (omega (arith, length-append lead (a ∷ b ∷ []))) in
      let before : (lead ++ rest) ++ c ≡ lead' ++ (unpair qs ++ (out ++ c)) = simp append_assoc in
      let after : lead' ++ (unpair qs ++ ((out ++ c) ++ map (pair H h) qs))
          ≡ lead ++ (a ∷ b ∷ (unpair qs ++ (out ++ (c ++ map (pair H h) qs)))) =
        simp append_assoc in
      combine_row-step h start j (length qs) (lead ++ rest) a b ea eb
      ∙ ap (combine_row H h start (suc j) (length qs)) before
      ∙ ih
      ∙ ap (λ r. some r) after

  -- One row: the loop puts the next row behind the padded one.
  pub combine_row_lem :
      (h : ℕ) (pre row : List Node)
      → combine_row H h (length pre) 0 (length (padded h row) / 2) (pre ++ padded h row)
        ≡ some ((pre ++ padded h row) ++ next_row H h row)
  combine_row_lem h pre row =
      let qs = pairs h row in
      let half : length (unpair qs) / 2 ≡ length qs = omega (arith, length-unpair qs) in
      let before : pre ++ unpair qs ≡ pre ++ (unpair qs ++ []) =
        ap (◌++◌ pre) (sym (append-nil (unpair qs))) in
      let after : pre ++ (unpair qs ++ ([] ++ map (pair H h) qs))
          ≡ (pre ++ unpair qs) ++ next_row H h row =
        rw (next_row-pairs h row) (sym (append_assoc pre (unpair qs) (map (pair H h) qs))) in
      ap (λ n. combine_row H h (length pre) 0 n (pre ++ unpair qs)) half
      ∙ ap (combine_row H h (length pre) 0 (length qs)) before
      ∙ combine_row_pairs h (length pre) 0 pre [] qs (omega arith)
      ∙ ap (λ r. some r) after

  complete_loop-next :
      (n h start width : ℕ) (tree tree' tree'' : List Node) (width' : ℕ)
      → pad_row H h tree width ≡ (tree', width')
      → combine_row H h start 0 (width' / 2) tree' ≡ some tree''
      → complete_loop H (suc n) h tree start width
        ≡ complete_loop H n (suc h) tree'' (start + width') (width' / 2)
  unfolding complete_loop
  complete_loop-next n h start width tree tree' tree'' width' padded combined =
      ground (arith, padded, combined)

  -- One round of the outer loop.
  complete_loop-step :
      (n h : ℕ) (pre row : List Node)
      → complete_loop H (suc n) h (pre ++ row) (length pre) (length row)
        ≡ complete_loop H n
            (suc h)
            ((pre ++ padded h row) ++ next_row H h row)
            (length (pre ++ padded h row))
            (length (next_row H h row))
  complete_loop-step n h pre row =
      let width : length (padded h row) / 2 ≡ length (next_row H h row) =
        omega (arith, length-padded h row, length-next_row h row, length-pairs h row) in
      let start : length pre + length (padded h row) ≡ length (pre ++ padded h row) =
        sym (length-append pre (padded h row)) in
      let tree = (pre ++ padded h row) ++ next_row H h row in
      complete_loop-next n h (length pre) (length row) (pre ++ row) (pre ++ padded h row) tree
        (length (padded h row)) (pad_row_lem h pre row) (combine_row_lem h pre row)
      ∙ ap₂ (complete_loop H n (suc h) tree) start width

  -- The rows that `complete_loop` leaves.
  pub complete_loop_lem :
      (n h : ℕ) (pre row : List Node)
      → complete_loop H n h (pre ++ row) (length pre) (length row) ≡ some (pre ++ rows h n row)
  complete_loop_lem zero h pre row = unfold complete_loop rows in refl
  complete_loop_lem (suc n) h pre row =
      complete_loop-step n h pre row
      ∙ complete_loop_lem n (suc h) (pre ++ padded h row) (next_row H h row)
      ∙ (unfold rows in
          ap (λ r. some r) (append_assoc pre (padded h row) (rows (suc h) n (next_row H h row))))

  -- The tree over the given leaves.
  abbrev pub frozen : List Node → FrozenCommitmentTree Node
  frozen leaves = record { nodes = rows 0 tree_depth leaves; leafs = length leaves }

  pub complete_lem :
      (n h : ℕ) (pre row : List Node) (leafs : ℕ)
      → n + h ≡ tree_depth
      → complete H (pre ++ row) (length pre) (length row) h leafs
        ≡ some (record { nodes = pre ++ rows h n row; leafs = leafs })
  unfolding complete
  complete_lem n h pre row leafs e =
      let left : tree_depth - h ≡ n = omega arith in
      let run =
        ap (λ r. complete_loop H r h (pre ++ row) (length pre) (length row)) left
        ∙ complete_loop_lem n h pre row in
      ground (arith, run)

  pub new_lem : (leaves : List Node) → new H leaves ≡ some (frozen leaves)
  unfolding new
  new_lem leaves = complete_lem tree_depth 0 [] leaves (length leaves) refl

  last-append : (xs : List Node) (y : Node) (ys : List Node) → last (xs ++ y ∷ ys) ≡ last (y ∷ ys)
  unfolding last
  last-append [] y ys = refl
  last-append (x ∷ []) y ys = refl
  last-append (x ∷ x' ∷ xs) y ys = last-append (x' ∷ xs) y ys

  -- A row that has a node has a row above it that has one.
  next_row-cons :
      (h : ℕ) (x : Node) (xs : List Node)
      → (y : Node) × (ys : List Node) × (next_row H h (x ∷ xs) ≡ y ∷ ys)
  unfolding next_row
  next_row-cons h x [] = (H.combine h x (H.empty_root h), [], refl)
  next_row-cons h x (x' ∷ xs) = (H.combine h x x', next_row H h xs, refl)

  rows-cons :
      (h n : ℕ) (x : Node) (xs : List Node)
      → (y : Node) × (ys : List Node) × (rows h n (x ∷ xs) ≡ y ∷ ys)
  unfolding rows pairs
  rows-cons h zero x xs = (x, xs, refl)
  rows-cons h (suc n) x [] = (x, H.empty_root h ∷ rows (suc h) n (next_row H h (x ∷ [])), refl)
  rows-cons h (suc n) x (x' ∷ xs) =
      (x, x' ∷ (unpair (pairs h xs) ++ rows (suc h) n (next_row H h (x ∷ x' ∷ xs))), refl)

  last-rows :
      (h n : ℕ) (x : Node) (xs : List Node)
      → length (x ∷ xs) ≤ 2 ^ n
      → last (rows h n (x ∷ xs)) ≡ some (row_root H h n (x ∷ xs))
  unfolding rows row_root last
  last-rows h zero x [] fits = refl
  last-rows h zero x (x' ∷ xs) fits = absurd (omega arith)
  last-rows h (suc n) x xs fits =
      let (y, ys, e) = next_row-cons h x xs in
      let (z, zs, f) = rows-cons (suc h) n y ys in
      let less : length (y ∷ ys) ≤ 2 ^ n =
        omega (arith, ap length e, length-next_row h (x ∷ xs), pow-suc 2 n) in
      let ih = last-rows (suc h) n y ys less in
      let above = padded h (x ∷ xs) in
      let here : last (above ++ rows (suc h) n (y ∷ ys)) ≡ last (rows (suc h) n (y ∷ ys)) =
        ap (λ r. last (above ++ r)) f ∙ last-append above z zs ∙ sym (ap last f) in
      ap (λ r. last (above ++ rows (suc h) n r)) e
      ∙ here
      ∙ ih
      ∙ ap (λ r. some (row_root H (suc h) n r)) (sym e)

  rows-nil : (h n : ℕ) → rows h n [] ≡ []
  unfolding rows pairs next_row
  rows-nil h zero = refl
  rows-nil h (suc n) = rows-nil (suc h) n

  -- The root of the tree over at most 2 ^ 32 leaves, none included, is the reference root.
  pub root-frozen :
      (leaves : List Node)
      → length leaves ≤ 2 ^ tree_depth
      → root H (frozen leaves) ≡ merkle_root H tree_depth leaves
  root-frozen [] fits =
      let e : last (rows 0 tree_depth []) ≡ none =
        ap last (rows-nil 0 tree_depth) ∙ (unfold last in refl) in
      let f = row_root-empty H tree_depth 0 in unfold root merkle_root in ground (arith, e, f)
  root-frozen (x ∷ xs) fits =
      let e = last-rows 0 tree_depth x xs fits in unfold root merkle_root in ground (arith, e)
