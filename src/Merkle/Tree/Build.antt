-- ===== src/Merkle/Tree/Build.antt =====
-- A tree that is built leaf by leaf from the empty one.
use masp.Base.{◌+◌, ◌^◌, ◌≤◌, ◌≡◌, ◌∙◌, subst, arith, some}
use masp.Base.{List, [], ◌∷◌, ◌++◌, length, length-append, append_assoc, append-nil, refl, sym}
use masp.Base.Result.{Result, ok, err}
use masp.Merkle.Hash.{Hashable, merkle_root, tree_depth}
use masp.Merkle.Tree.{CommitmentTree, empty, append, size, root}
use masp.Merkle.Tree.Represents.{Represents, empty-Represents, size-Represents}
use masp.Merkle.Tree.Append.{append_inner-Represents}
use masp.Merkle.Tree.Root.{root_inner-Represents}

module _ {Node : Type 0} (H : Hashable Node) where
  -- The leaves in order, until one is refused.
  unfoldable pub append_all :
      CommitmentTree Node → List Node → Result (Unit {0}) (CommitmentTree Node)
  append_all t [] = ok t
  append_all t (x ∷ xs) = elim (append H t x) [ err e ↦ err e | ok t' ↦ append_all t' xs ]

  append_all-step :
      (t t' : CommitmentTree Node) (x : Node) (xs : List Node)
      → append H t x ≡ ok t'
      → append_all t (x ∷ xs) ≡ append_all t' xs
  append_all-step t t' x xs e = unfold append_all in ground (arith, e)

  pub append_all-Represents :
      (t : CommitmentTree Node) (ys xs : List Node)
      → Represents H t ys
      → length ys + length xs ≤ 2 ^ tree_depth
      → (t' : CommitmentTree Node) × (append_all t xs ≡ ok t') × Represents H t' (ys ++ xs)
  append_all-Represents t ys [] rep fits =
      (t, unfold append_all in refl, subst (Represents H t) (sym (append-nil ys)) rep)
  append_all-Represents t ys (x ∷ xs) rep fits =
      let (t₁, e, rep₁) = append_inner-Represents H t ys x 31 rep (omega arith) in
      let fits₁ : length (ys ++ x ∷ []) + length xs ≤ 2 ^ tree_depth =
        omega (arith, length-append ys (x ∷ [])) in
      let (t₂, f, rep₂) = append_all-Represents t₁ (ys ++ x ∷ []) xs rep₁ fits₁ in
      (
        t₂,
        append_all-step t t₁ x xs (unfold append in e) ∙ f,
        subst (Represents H t₂) (append_assoc ys (x ∷ []) xs) rep₂,
      )

  -- Appending at most 2 ^ 32 leaves one by one to the empty commitment tree never fails, and the
  -- tree that results has the number of leaves as its size and, as its root, the root of the
  -- leaves by the row-by-row definition.
  pub append_all-empty :
      (xs : List Node)
      → length xs ≤ 2 ^ tree_depth
      → (t : CommitmentTree Node) × (append_all empty xs ≡ ok t)
        × (size t ≡ some (length xs))
        × (root H t ≡ some (merkle_root H tree_depth xs))
  append_all-empty xs fits =
      let (t, e, rep) = append_all-Represents empty [] xs (empty-Represents H) (omega arith) in
      (t, e, size-Represents H t xs rep, unfold root in root_inner-Represents H t xs 31 rep fits)
