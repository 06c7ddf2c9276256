-- ===== src/Merkle/Frozen/Path.antt =====
-- The paths of a frozen tree.
use masp.Base.{
  ℕ, zero, suc, ◌+◌, ◌-◌, ◌*◌, ◌/◌, ◌%◌, ◌^◌, ◌<◌, ◌≤◌, ◌≡◌, ◌⊎◌, inl, inr, refl, ap, ap₂, sym, ◌∙◌,
  arith, Bool, Option, none, some, List, [], ◌∷◌, ◌++◌, map, append_assoc,
}
use masp.Base.{length, length-append, get_elem?, get_elem?-append, if◌then◌else◌, ◌==◌}
use native.Mathlib.Nat.{pow-suc}
use native.Mathlib.Decide.{dec_lt}
use masp.Merkle.Hash.{Hashable, tree_depth, next_row, row_root, merkle_root, unpair, pair}
use masp.Merkle.Path
use masp.Merkle.Path.{MerklePath, fold_path}
use masp.Merkle.Frozen.{sibling, path_loop, path}
use masp.Merkle.Frozen.Rows.{
  pairs, padded, rows, next_row-pairs, padded_lem, length-pairs, length-padded, length-next_row,
  frozen,
}

module _ {A : Type 0} where
  -- What stands at a position of a row of pairs, and beside it.
  abbrev left_of : List (A × A) → ℕ → Option A
  left_of qs i = elim (get_elem? qs i) [ none ↦ none | some q ↦ some q.0 ]

  abbrev right_of : List (A × A) → ℕ → Option A
  right_of qs i = elim (get_elem? qs i) [ none ↦ none | some q ↦ some q.1 ]

  get_elem?-unpair_even :
      (qs : List (A × A)) (i n : ℕ) → n ≡ 2 * i → get_elem? (unpair qs) n ≡ left_of qs i
  get_elem?-unpair_even [] i n e = refl
  get_elem?-unpair_even ((a, b) ∷ qs) zero zero e = refl
  get_elem?-unpair_even ((a, b) ∷ qs) zero (suc n) e = absurd (omega arith)
  get_elem?-unpair_even ((a, b) ∷ qs) (suc i) zero e = absurd (omega arith)
  get_elem?-unpair_even ((a, b) ∷ qs) (suc i) (suc zero) e = absurd (omega arith)
  get_elem?-unpair_even ((a, b) ∷ qs) (suc i) (suc (suc n)) e =
      get_elem?-unpair_even qs i n (omega arith)

  get_elem?-unpair_odd :
      (qs : List (A × A)) (i n : ℕ) → n ≡ 2 * i + 1 → get_elem? (unpair qs) n ≡ right_of qs i
  get_elem?-unpair_odd [] i n e = refl
  get_elem?-unpair_odd ((a, b) ∷ qs) i zero e = absurd (omega arith)
  get_elem?-unpair_odd ((a, b) ∷ qs) zero (suc zero) e = refl
  get_elem?-unpair_odd ((a, b) ∷ qs) (suc i) (suc zero) e = absurd (omega arith)
  get_elem?-unpair_odd ((a, b) ∷ qs) zero (suc (suc n)) e = absurd (omega arith)
  get_elem?-unpair_odd ((a, b) ∷ qs) (suc i) (suc (suc n)) e =
      get_elem?-unpair_odd qs i n (omega arith)

  get_elem?-map :
      {B : Type 0} (f : A → B) (xs : List A) (i : ℕ) (a : A)
      → get_elem? xs i ≡ some a
      → get_elem? (map f xs) i ≡ some (f a)
  get_elem?-map f [] i a e = cc
  get_elem?-map f (x ∷ xs) zero a e = cc
  get_elem?-map f (x ∷ xs) (suc i) a e = get_elem?-map f xs i a e

  get_elem?-lt : (xs : List A) (i : ℕ) (a : A) → get_elem? xs i ≡ some a → i < length xs
  get_elem?-lt [] i a e = cc
  get_elem?-lt (x ∷ xs) zero a e = omega arith
  get_elem?-lt (x ∷ xs) (suc i) a e = omega (arith, get_elem?-lt xs i a e)

  -- An index within a prefix reads from it.
  get_elem?-append_left :
      (xs ys : List A) (i : ℕ) → i < length xs → get_elem? (xs ++ ys) i ≡ get_elem? xs i
  get_elem?-append_left [] ys i h = absurd (omega arith)
  get_elem?-append_left (x ∷ xs) ys zero h = refl
  get_elem?-append_left (x ∷ xs) ys (suc i) h = get_elem?-append_left xs ys i (omega arith)

  get_elem?-exists : (xs : List A) (i : ℕ) → i < length xs → (a : A) × (get_elem? xs i ≡ some a)
  get_elem?-exists [] i h = absurd (omega arith)
  get_elem?-exists (x ∷ xs) zero h = (x, refl)
  get_elem?-exists (x ∷ xs) (suc i) h = get_elem?-exists xs i (omega arith)

parity : (i : ℕ) → ((i % 2 ≡ 0) × (i ≡ 2 * (i / 2))) ⊎ ((i % 2 ≡ 1) × (i ≡ 2 * (i / 2) + 1))
parity i = elim (dec_lt (i % 2) 1) [
  | yes h ↦ inl (omega arith, omega arith)
  | no h ↦ inr (omega arith, omega arith)
]

module _ {Node : Type 0} (H : Hashable Node) where
  get_elem?-padded :
      (h : ℕ) (row : List Node) (i : ℕ) (x : Node)
      → get_elem? row i ≡ some x
      → get_elem? (padded H h row) i ≡ some x
  get_elem?-padded h row i x e = elim (padded_lem H h row) [
    | inl (_, p) ↦ ap (λ r. get_elem? r i) p ∙ e
    | inr (_, p) ↦
        ap (λ r. get_elem? r i) p
        ∙ get_elem?-append_left row (H.empty_root h ∷ []) i (get_elem?-lt row i x e)
        ∙ e
  ]

  -- The pair of a node that a row holds, and the parent in the next row.
  abbrev Beside : ℕ → List Node → ℕ → Node → Node → Type 0
  Beside h row i x y =
      (get_elem? (padded H h row) (if i % 2 == 0 then i + 1 else i - 1) ≡ some y)
      × (get_elem? (next_row H h row) (i / 2)
          ≡ some (if i % 2 == 0 then H.combine h x y else H.combine h y x))

  beside :
      (h : ℕ) (row : List Node) (i : ℕ) (x : Node)
      → get_elem? row i ≡ some x
      → (y : Node) × Beside h row i x y
  beside h row i x e =
      let qs = pairs H h row in
      let here = get_elem?-padded h row i x e in
      let within : i / 2 < length qs =
        omega (arith, get_elem?-lt (padded H h row) i x here, length-padded H h row) in
      let (q, found) = get_elem?-exists qs (i / 2) within in
      let parent : get_elem? (next_row H h row) (i / 2) ≡ some (pair H h q) =
        ap (λ r. get_elem? r (i / 2)) (next_row-pairs H h row)
        ∙ get_elem?-map (pair H h) qs (i / 2) q found in
      elim (parity i) [
        | inl (even, p) ↦
            let at = get_elem?-unpair_even qs (i / 2) i p in
            let next = get_elem?-unpair_odd qs (i / 2) (i + 1) (omega arith) in
            (
              q.1,
              (ground (arith, even, next, found), ground (arith, at, here, found, parent, even)),
            )
        | inr (odd, p) ↦
            let at = get_elem?-unpair_odd qs (i / 2) i p in
            let next = get_elem?-unpair_even qs (i / 2) (i - 1) (omega arith) in
            (q.0, (ground (arith, odd, next, found), ground (arith, at, here, found, parent, odd)))
      ]

  -- The sibling that the loop takes.
  sibling_lem :
      (h : ℕ) (pre row above : List Node) (i : ℕ) (x y : Node)
      → get_elem? row i ≡ some x
      → Beside h row i x y
      → sibling H (pre ++ (padded H h row ++ above)) h (length pre) (length (padded H h row)) i
        ≡ some y
  sibling_lem h pre row above i x y e (next, _) =
      let j : ℕ = if i % 2 == 0 then i + 1 else i - 1 in
      let within : j < length (padded H h row) = get_elem?-lt (padded H h row) j y next in
      let read : get_elem? (pre ++ (padded H h row ++ above)) (length pre + j) ≡ some y =
        get_elem?-append pre (padded H h row ++ above) (length pre + j) j (omega arith)
        ∙ get_elem?-append_left (padded H h row) above j within
        ∙ next in
      elim (parity i) [
        | inl (even, _) ↦ unfold sibling in ground (arith, read, within, even)
        | inr (odd, _) ↦ unfold sibling in ground (arith, read, within, odd)
      ]

  path_loop-next :
      (nodes : List Node) (n h start width i : ℕ) (y : Node) (es : List (Node × Bool))
      → let width' : ℕ = if width % 2 == 1 then width + 1 else width in
        sibling H nodes h start width' i ≡ some y
        → path_loop H nodes n (suc h) (start + width') (width' / 2) (i / 2) ≡ some es
        → path_loop H nodes (suc n) h start width i ≡ some ((y, i % 2 == 1) ∷ es)
  unfolding path_loop
  path_loop-next nodes n h start width i y es e f = ground (arith, e, f)

  fold_path-next :
      (h i : ℕ) (x y : Node) (es : List (Node × Bool))
      → fold_path H h ((y, i % 2 == 1) ∷ es) x
        ≡ fold_path H (suc h) es (if i % 2 == 0 then H.combine h x y else H.combine h y x)
  unfolding fold_path
  fold_path-next h i x y es = elim (parity i) [
    | inl (even, _) ↦ ground (arith, even)
    | inr (odd, _) ↦ ground (arith, odd)
  ]

  width_padded :
      (h : ℕ) (row : List Node)
      → (if length row % 2 == 1 then length row + 1 else length row) ≡ length (padded H h row)
  width_padded h row = ground (arith, length-padded H h row, length-pairs H h row)

  -- The loop from a row on: the entries lead from the node to the root above the row.
  path_loop_lem :
      (n h : ℕ) (pre row : List Node) (i : ℕ) (x : Node)
      → get_elem? row i ≡ some x
      → length row ≤ 2 ^ n
      → (es : List (Node × Bool)) × (path_loop H
            (pre ++ rows H h n row)
            n
            h
            (length pre)
            (length row)
            i
          ≡ some es)
        × (fold_path H h es x ≡ row_root H h n row)
        × (length es ≡ n)
  unfolding rows row_root
  path_loop_lem zero h pre [] i x e fits = cc
  path_loop_lem zero h pre (x' ∷ []) zero x e fits =
      ([], unfold path_loop in refl, unfold fold_path in (cc), refl)
  path_loop_lem zero h pre (x' ∷ []) (suc i) x e fits = cc
  path_loop_lem zero h pre (x' ∷ x'' ∷ xs) i x e fits = absurd (omega arith)
  path_loop_lem (suc n) h pre row i x e fits =
      let (y, b) = beside h row i x e in
      let above = rows H (suc h) n (next_row H h row) in
      let side = padded H h row in
      let up : Node = if i % 2 == 0 then H.combine h x y else H.combine h y x in
      let less : length (next_row H h row) ≤ 2 ^ n =
        omega (arith, length-next_row H h row, pow-suc 2 n) in
      let (es, run, top, len) =
        path_loop_lem n (suc h) (pre ++ side) (next_row H h row) (i / 2) up b.1 less in
      let width = width_padded h row in
      let half : length (next_row H h row) ≡ length side / 2 =
        omega (arith, length-padded H h row, length-next_row H h row, length-pairs H h row) in
      let sib = sibling_lem h pre row above i x y e b in
      let moved : path_loop H (pre ++ (side ++ above)) n (suc h) (length pre + length side)
            (length side / 2) (i / 2)
          ≡ some es =
        ap
          (λ (l : List Node).
            path_loop H l n (suc h) (length pre + length side) (length side / 2) (i / 2))
          (sym (append_assoc pre side above))
        ∙ ap₂ (λ s w. path_loop H ((pre ++ side) ++ above) n (suc h) s w (i / 2))
            (sym (length-append pre side)) (sym half)
        ∙ run in
      (
        (y, i % 2 == 1) ∷ es,
        path_loop-next (pre ++ (side ++ above)) n h (length pre) (length row) i y es
            (ap (λ w. sibling H (pre ++ (side ++ above)) h (length pre) w i) width ∙ sib)
            (ap
                (λ w.
                  path_loop H (pre ++ (side ++ above)) n (suc h) (length pre + w) (w / 2) (i / 2))
                width
              ∙ moved),
        fold_path-next h i x y es ∙ top,
        ap suc len,
      )

  -- The path of a leaf.
  pub path-frozen :
      (leaves : List Node) (pos : ℕ) (leaf : Node)
      → length leaves ≤ 2 ^ tree_depth
      → get_elem? leaves pos ≡ some leaf
      → (p : MerklePath Node) × (path H (frozen H leaves) pos ≡ some p)
        × (p.position ≡ pos)
        × (length p.auth_path ≡ tree_depth)
        × (Path.root H p leaf ≡ merkle_root H tree_depth leaves)
  path-frozen leaves pos leaf fits e =
      let (es, run, top, len) = path_loop_lem tree_depth 0 [] leaves pos leaf e fits in
      let within = get_elem?-lt leaves pos leaf e in
      let small : pos % 2 ^ 64 ≡ pos = omega arith in
      (
        record { auth_path = es; position = pos % 2 ^ 64 },
        unfold path in ground (arith, run),
        small,
        len,
        unfold Path.root merkle_root in top,
      )
