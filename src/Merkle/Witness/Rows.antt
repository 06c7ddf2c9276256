-- ===== src/Merkle/Witness/Rows.antt =====
-- The rows above a list of leaves, and what a subtree contributes to them.
use masp.Base.{
  ℕ, zero, suc, ◌+◌, ◌*◌, ◌^◌, ◌≤◌, ◌≡◌, refl, ap, sym, ◌∙◌, arith, List, [], ◌∷◌, ◌++◌, length,
}
use native.Mathlib.Nat.{pow-suc}
use masp.Merkle.Hash.{Hashable, next_row, row_root, merkle_root}
use masp.Merkle.Tree.Root.{head_or, tail}

module _ {Node : Type 0} (H : Hashable Node) where
  abbrev pub row : ℕ → List Node → List Node
  row zero xs = xs
  row (suc h) xs = next_row H h (row h xs)

  row_root-zero : (h : ℕ) (ys : List Node) → row_root H h zero ys ≡ head_or H h ys
  row_root-zero h [] = unfold row_root in refl
  row_root-zero h (y ∷ ys) = unfold row_root in refl

  row_root-suc :
      (h d : ℕ) (ys : List Node) → row_root H h (suc d) ys ≡ row_root H (suc h) d (next_row H h ys)
  row_root-suc h d ys = unfold row_root in refl

  root_of_row :
      (d h : ℕ) (xs : List Node) → row_root H h d (row h xs) ≡ head_or H (h + d) (row (h + d) xs)
  root_of_row zero h xs =
      let e : h + 0 ≡ h = omega arith in
      row_root-zero h (row h xs) ∙ sym (ap (λ k. head_or H k (row k xs)) e)
  root_of_row (suc d) h xs =
      let e : suc h + d ≡ h + suc d = omega arith in
      row_root-suc h d (row h xs) ∙ root_of_row d (suc h) xs ∙ ap (λ k. head_or H k (row k xs)) e

  pub merkle_root-row : (h : ℕ) (xs : List Node) → merkle_root H h xs ≡ head_or H h (row h xs)
  merkle_root-row h xs =
      let e : 0 + h ≡ h = omega arith in
      let opened : merkle_root H h xs ≡ row_root H 0 h xs = unfold merkle_root in refl in
      opened ∙ root_of_row h 0 xs ∙ ap (λ k. head_or H k (row k xs)) e

  pub row-nil : (h : ℕ) → row h [] ≡ []
  row-nil zero = refl
  row-nil (suc h) = ap (next_row H h) (row-nil h) ∙ (unfold next_row in refl)

  next_row-pair :
      (h : ℕ) (x y : Node) (xs : List Node)
      → next_row H h (x ∷ y ∷ xs) ≡ H.combine h x y ∷ next_row H h xs
  next_row-pair h x y xs = unfold next_row in refl

  next_row-even :
      (h n : ℕ) (xs ys : List Node)
      → length xs ≡ 2 * n
      → (next_row H h (xs ++ ys) ≡ next_row H h xs ++ next_row H h ys)
        × (length (next_row H h xs) ≡ n)
  next_row-even h n [] ys e = (unfold next_row in refl, unfold next_row in omega arith)
  next_row-even h n (x ∷ []) ys e = absurd (omega arith)
  next_row-even h zero (x ∷ y ∷ xs) ys e = absurd (omega arith)
  next_row-even h (suc n) (x ∷ y ∷ xs) ys e =
      let (split, len) = next_row-even h n xs ys (omega arith) in
      (
        next_row-pair h x y (xs ++ ys)
            ∙ ap (◌∷◌ (H.combine h x y)) split
            ∙ ap (λ r. r ++ next_row H h ys) (sym (next_row-pair h x y xs)),
        ap length (next_row-pair h x y xs) ∙ ap suc len,
      )

  row-append :
      (h n : ℕ) (xs ys : List Node)
      → length xs ≡ 2 ^ h * n
      → (row h (xs ++ ys) ≡ row h xs ++ row h ys) × (length (row h xs) ≡ n)
  row-append zero n xs ys e = (refl, omega arith)
  row-append (suc h) n xs ys e =
      let (split, len) =
        row-append h (2 * n) xs ys (omega (arith, e, ap (λ (p : ℕ). p * n) (pow-suc 2 h))) in
      let (split', len') = next_row-even h n (row h xs) (row h ys) len in
      (ap (next_row H h) split ∙ split', len')

  one_node : (xs : List Node) → length xs ≡ 1 → (x : Node) × (xs ≡ x ∷ [])
  one_node [] e = absurd (omega arith)
  one_node (x ∷ []) e = (x, refl)
  one_node (x ∷ y ∷ xs) e = absurd (omega arith)

  -- A complete subtree is one node of the row at its height, and the leaves behind it are the rest.
  pub row-block :
      (h : ℕ) (xs ys : List Node)
      → length xs ≡ 2 ^ h
      → row h (xs ++ ys) ≡ merkle_root H h xs ∷ row h ys
  row-block h xs ys e =
      let (split, len) = row-append h 1 xs ys (omega arith) in
      let (x, one) = one_node (row h xs) len in
      split
      ∙ ap (λ r. r ++ row h ys) one
      ∙ ap (λ z. z ∷ row h ys) (sym (merkle_root-row h xs ∙ ap (head_or H h) one))

  next_row-one : (h : ℕ) (x : Node) → length (next_row H h (x ∷ [])) ≡ 1
  next_row-one h x = unfold next_row in refl

  next_row-le : (h n : ℕ) (xs : List Node) → length xs ≤ 2 * n → length (next_row H h xs) ≤ n
  next_row-le h n [] e = unfold next_row in omega arith
  next_row-le h zero (x ∷ xs) e = absurd (omega arith)
  next_row-le h (suc n) (x ∷ []) e = omega (arith, next_row-one h x)
  next_row-le h (suc n) (x ∷ y ∷ xs) e =
      omega (arith, ap length (next_row-pair h x y xs), next_row-le h n xs (omega arith))

  row-le : (h n : ℕ) (xs : List Node) → length xs ≤ 2 ^ h * n → length (row h xs) ≤ n
  row-le zero n xs e = omega arith
  row-le (suc h) n xs e =
      next_row-le h n (row h xs)
        (row-le h (2 * n) xs (omega (arith, e, ap (λ (p : ℕ). p * n) (pow-suc 2 h))))

  -- The leaves of one subtree, complete or not, have nothing behind them.
  pub tail-row : (h : ℕ) (xs : List Node) → length xs ≤ 2 ^ h → tail H (row h xs) ≡ []
  tail-row h xs e = no_tail (row h xs) (row-le h 1 xs (omega arith))
    where
      no_tail : (ys : List Node) → length ys ≤ 1 → tail H ys ≡ []
      no_tail [] l = refl
      no_tail (y ∷ []) l = refl
      no_tail (y ∷ z ∷ ys) l = absurd (omega arith)
