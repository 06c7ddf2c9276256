-- ===== src/Merkle/Frozen/Merge/Climb.antt =====
-- The loop of `merge` takes the rows of all leaves, up to the roots of the full subtrees.
use masp.Base.{
  ℕ, zero, suc, ◌+◌, ◌%◌, ◌^◌, ◌<◌, ◌≤◌, ◌≡◌, inl, inr, refl, ap, sym, ◌∙◌, subst, arith, some,
  List, [], ◌∷◌, ◌++◌, map, append_assoc,
}
use masp.Base.{length, length-append}
use native.Mathlib.Nat.{pow-suc, one-le-pow}
use masp.Merkle.Hash.{Hashable, next_row}
use masp.Merkle.Frozen.{
  FrozenCommitmentTree, Merging, adjust, ascend, take_level, level, slice, merge_loop,
}
use masp.Merkle.Frozen.Rows.{padded, rows, padded_lem, length-next_row, length-padded, length-pairs}
use masp.Merkle.Frozen.Merge.Parts.{
  concat, slice_lem, rows-prefix, Holds, level_lem, padded-append, next_row-append, concat-even,
  concat-next_row, Holds-next,
}

module _ {Node : Type 0} (H : Hashable Node) (full : List (FrozenCommitmentTree Node))
    (end : FrozenCommitmentTree Node) where
  -- The loop's variables at a height: `m` heights below the top of the full subtrees, whose rows
  -- are `rs`, and `u` below that of the tree. The row of the last tree is `row`, and `lead` is taken already.
  pub record Climbs (m u h : ℕ) (rs : List (List Node)) (row lead : List Node) (s : Merging Node)
      : Type 0 where
    pub tree : s.tree ≡ lead
    pub height : s.height ≡ h
    pub first_width : s.first_width ≡ 2 ^ m
    pub last_width : s.last_width ≡ length row
    pub start : s.start ≡ length lead
    pub width : s.width ≡ length (concat rs ++ row)
    pub held : Holds H h u s.first_start s.first_width full rs
    pub below : List Node
    pub nodes : end.nodes ≡ below ++ rows H h u row
    pub last_start : length below ≡ s.last_start

  full_row :
      (u h : ℕ) (rs : List (List Node)) (row lead : List Node) (s : Merging Node) (m : ℕ)
      → Climbs m u h rs row lead s
      → level full s.first_start s.first_width s.tree ≡ some (lead ++ concat rs)
  full_row u h rs row lead s m c =
      ap (level full s.first_start s.first_width) c.tree
      ∙ level_lem H h u s.first_start s.first_width full rs lead c.held

  end_row :
      (u h : ℕ) (rs : List (List Node)) (row lead : List Node) (s : Merging Node) (m : ℕ)
      → Climbs m u h rs row lead s
      → slice end.nodes s.last_start s.last_width ≡ some row
  end_row u h rs row lead s m c =
      let (rest, prefix) = rows-prefix H u h row in
      ap (λ l. slice l s.last_start s.last_width) (c.nodes ∙ ap (◌++◌ c.below) prefix)
      ∙ slice_lem c.below row rest s.last_start s.last_width c.last_start (sym c.last_width)

  take_level-done :
      (s : Merging Node) (tree row : List Node)
      → level full s.first_start s.first_width s.tree ≡ some tree
      → slice end.nodes s.last_start s.last_width ≡ some row
      → take_level full end s ≡ some (tree ++ row)
  unfolding take_level
  take_level-done s tree row e f = ground (arith, e, f)

  merge_loop-last :
      (fuel : ℕ) (s : Merging Node) (tree : List Node)
      → take_level full end (adjust s) ≡ some tree
      → (adjust s).first_width ≡ 1
      → merge_loop (suc fuel) full end s ≡ some (record (adjust s) { tree = tree })
  unfolding merge_loop
  merge_loop-last fuel s tree e f = ground (arith, e, f)

  merge_loop-next :
      (fuel : ℕ) (s : Merging Node) (tree : List Node)
      → take_level full end (adjust s) ≡ some tree
      → 1 < (adjust s).first_width
      → merge_loop (suc fuel) full end s ≡ merge_loop fuel full end (ascend (adjust s) tree)
  unfolding merge_loop
  merge_loop-next fuel s tree e f = ground (arith, e, f)

  adjust_top : (s : Merging Node) → s.first_width ≡ 1 → adjust s ≡ s
  unfolding adjust
  adjust_top s e = ground (arith, e)

  -- What the loop leaves: the last row taken, and all rows before it, `n` below the top.
  abbrev pub Climbed : ℕ → ℕ → List Node → Merging Node → Type 0
  Climbed n h all s =
      (lead : List Node) × (top : List Node) × (s.tree ≡ lead ++ top)
      × (s.start ≡ length lead)
      × (s.width ≡ length top)
      × (s.height ≡ h)
      × (lead ++ rows H h n top ≡ all)

  top_level :
      (fuel u h : ℕ) (rs : List (List Node)) (row lead : List Node) (s : Merging Node)
      → Climbs 0 u h rs row lead s
      → (s' : Merging Node) × (merge_loop (suc fuel) full end s ≡ some s')
        × Climbed u h (lead ++ rows H h u (concat rs ++ row)) s'
  top_level fuel u h rs row lead s c =
      let one : s.first_width ≡ 1 = c.first_width in
      let same = adjust_top s one in
      let taken : take_level full end (adjust s) ≡ some ((lead ++ concat rs) ++ row) =
        ap (take_level full end) same
        ∙ take_level-done s (lead ++ concat rs) row (full_row u h rs row lead s 0 c)
            (end_row u h rs row lead s 0 c) in
      let tree = (lead ++ concat rs) ++ row in
      (
        record s { tree = tree },
        merge_loop-last fuel s tree taken (ap (λ x. x.first_width) same ∙ one)
            ∙ ap (λ (x : Merging Node). some (record x { tree = tree })) same,
        (
          lead,
          concat rs ++ row,
          append_assoc lead (concat rs) row,
          c.start,
          c.width,
          c.height,
          refl,
        ),
      )

  -- The loop's variables after the adjustment below the top.
  abbrev adjusted : ℕ → List (List Node) → List Node → Merging Node → Merging Node
  adjusted h rs row s = record s {
    last_width = length (padded H h row);
    width = length (concat rs ++ padded H h row);
  }

  adjust_below :
      (m u h : ℕ) (rs : List (List Node)) (row lead : List Node) (s : Merging Node)
      → Climbs (suc m) u h rs row lead s
      → adjust s ≡ adjusted h rs row s
  adjust_below m u h rs row lead s c =
      let odd_one = length-append row (H.empty_root h ∷ []) in
      let before = length-append (concat rs) row in
      let after = length-append (concat rs) (padded H h row) in
      let wide : 1 < s.first_width = omega (arith, c.first_width, pow-suc 2 m, one-le-pow m 2) in
      elim (padded_lem H h row) [
        | inl (even, p) ↦
            let len = ap length p in
            unfold adjust in ground (arith, even, len, before, after, c.last_width, c.width, wide)
        | inr (odd, p) ↦
            let len = ap length p in
            unfold adjust in
            ground (arith, odd, len, odd_one, before, after, c.last_width, c.width, wide)
      ]

  module _ (m u h : ℕ) (rs : List (List Node)) (row lead : List Node) (s : Merging Node)
      (c : Climbs (suc m) (suc u) h rs row lead s) where
    even_width : s.first_width % 2 ≡ 0
    even_width = omega (arith, c.first_width, pow-suc 2 m)

    even_row : length (concat rs) % 2 ≡ 0
    even_row = concat-even H h (suc u) s.first_start s.first_width full rs even_width c.held

    taken_below :
        take_level full end (adjusted h rs row s) ≡ some (lead ++ padded H h (concat rs ++ row))
    taken_below =
        let above = rows H (suc h) u (next_row H h row) in
        let split : end.nodes ≡ c.below ++ (padded H h row ++ above) = unfold rows in c.nodes in
        let last : slice end.nodes s.last_start (length (padded H h row)) ≡ some (padded H h row) =
          ap (λ l. slice l s.last_start (length (padded H h row))) split
          ∙ slice_lem c.below (padded H h row) above s.last_start (length (padded H h row))
              c.last_start refl in
        take_level-done (adjusted h rs row s) (lead ++ concat rs) (padded H h row)
          (full_row (suc u) h rs row lead s (suc m) c) last
        ∙ ap (λ r. some r) (append_assoc lead (concat rs) (padded H h row))
        ∙ ap (λ r. some (lead ++ r)) (sym (padded-append H h (concat rs) row even_row))

    next_rows : concat (map (next_row H h) rs) ++ next_row H h row ≡ next_row H h (concat rs ++ row)
    next_rows =
        ap (λ r. r ++ next_row H h row)
          (concat-next_row H h (suc u) s.first_start s.first_width full rs even_width c.held)
        ∙ sym (next_row-append H h (concat rs) row even_row)

    Climbs-ascend :
        Climbs m u
          (suc h)
          (map (next_row H h) rs)
          (next_row H h row)
          (lead ++ padded H h (concat rs ++ row))
          (ascend (adjusted h rs row s) (lead ++ padded H h (concat rs ++ row)))
    Climbs-ascend =
        let side = padded H h row in
        let whole = padded H h (concat rs ++ row) in
        let above = rows H (suc h) u (next_row H h row) in
        let split : end.nodes ≡ c.below ++ (side ++ above) = unfold rows in c.nodes in
        let len : length (concat rs ++ side) ≡ length whole =
          ap length (sym (padded-append H h (concat rs) row even_row)) in
        unfold ascend in
        record {
          tree = refl;
          height = omega (arith, c.height);
          first_width = omega (arith, c.first_width, pow-suc 2 m);
          last_width =
              omega (arith, length-padded H h row, length-pairs H h row, length-next_row H h row);
          start = omega (arith, c.start, len, length-append lead whole);
          width = omega (
            arith,
            len,
            length-padded H h (concat rs ++ row),
            length-pairs H h (concat rs ++ row),
            length-next_row H h (concat rs ++ row),
            ap length next_rows,
          );
          held = Holds-next H h u s.first_start s.first_width full rs even_width c.held;
          below = c.below ++ side;
          nodes = split ∙ sym (append_assoc c.below side above);
          last_start = omega (arith, c.last_start, length-append c.below side);
        }

    rows_below :
        (lead ++ padded H h (concat rs ++ row))
          ++ rows H (suc h) u (concat (map (next_row H h) rs) ++ next_row H h row)
        ≡ lead ++ rows H h (suc u) (concat rs ++ row)
    unfolding rows
    rows_below =
        ap (λ r. (lead ++ padded H h (concat rs ++ row)) ++ rows H (suc h) u r) next_rows
        ∙ append_assoc lead (padded H h (concat rs ++ row))
            (rows H (suc h) u (next_row H h (concat rs ++ row)))

  -- From any height the loop ends at the roots of the full subtrees.
  pub merge_loop_lem :
      (fuel m u h : ℕ) (rs : List (List Node)) (row lead : List Node) (s : Merging Node)
      → m < fuel
      → m ≤ u
      → Climbs m u h rs row lead s
      → (s' : Merging Node) × (n : ℕ) × (top : ℕ) × (n + top ≡ u + h)
        × (merge_loop fuel full end s ≡ some s')
        × Climbed n top (lead ++ rows H h u (concat rs ++ row)) s'
  merge_loop_lem zero m u h rs row lead s enough low c = absurd (omega arith)
  merge_loop_lem (suc fuel) zero u h rs row lead s enough low c =
      let (s', run, left) = top_level fuel u h rs row lead s c in (s', u, h, refl, run, left)
  merge_loop_lem (suc fuel) (suc m) zero h rs row lead s enough low c = absurd (omega arith)
  merge_loop_lem (suc fuel) (suc m) (suc u) h rs row lead s enough low c =
      let whole = concat rs ++ row in
      let adj = adjust_below m (suc u) h rs row lead s c in
      let tree = lead ++ padded H h whole in
      let (s', n, top, e, run, left) =
        merge_loop_lem fuel m u (suc h) (map (next_row H h) rs) (next_row H h row) tree
          (ascend (adjusted h rs row s) tree) (omega arith) (omega arith)
          (Climbs-ascend m u h rs row lead s c) in
      let taken = ap (take_level full end) adj ∙ taken_below m u h rs row lead s c in
      let wide : 1 < (adjust s).first_width = omega (
        arith,
        ap (λ (x : Merging Node). x.first_width) adj,
        c.first_width,
        pow-suc 2 m,
        one-le-pow m 2,
      ) in
      (
        s',
        n,
        top,
        omega arith,
        merge_loop-next fuel s tree taken wide
            ∙ ap (λ x. merge_loop fuel full end (ascend x tree)) adj
            ∙ run,
        subst (λ all. Climbed n top all s') (rows_below m u h rs row lead s c) left,
      )
