-- ===== src/Merkle/Witness/Build.antt =====
-- A witness and a tree that take the same leaves in the same order.
use masp.Base.{◌+◌, ◌^◌, ◌≤◌, ◌≡◌, ◌≢◌, refl, ap, sym, ◌∙◌, subst, arith, Option, none, some}
use masp.Base.{List, [], ◌∷◌, ◌++◌, length, length-append, append_assoc, append-nil}
use masp.Base.Result.{Result, ok, err}
use masp.Merkle.Hash.{Hashable, merkle_root, tree_depth, unpair}
use masp.Merkle.Tree
use masp.Merkle.Tree.{CommitmentTree, empty}
use masp.Merkle.Tree.Represents.{Represents, empty-Represents, loose, IsShaped}
use masp.Merkle.Tree.Root.{root_inner-Represents}
use masp.Merkle.Tree.Build.{append_all, append_all-Represents}
use masp.Merkle.Witness.{IncrementalWitness, from_tree, append, root}
use masp.Merkle.Witness.Tracks.{Tracks, from_tree-Tracks}
use masp.Merkle.Witness.Append.{append_inner-Tracks}
use masp.Merkle.Witness.Root.{root_inner-Tracks}

module _ {Node : Type 0} (H : Hashable Node) where
  -- The leaves in order, until one is refused; `none` is a panic.
  unfoldable pub witness_all :
      IncrementalWitness Node → List Node → Option (Result (Unit {0}) (IncrementalWitness Node))
  witness_all w [] = some (ok w)
  witness_all w (x ∷ xs) = elim (append H w x) [
    | none ↦ none
    | some (err e) ↦ some (err e)
    | some (ok w') ↦ witness_all w' xs
  ]

  witness_all-step :
      (w w' : IncrementalWitness Node) (x : Node) (xs : List Node)
      → append H w x ≡ some (ok w')
      → witness_all w (x ∷ xs) ≡ witness_all w' xs
  witness_all-step w w' x xs e = unfold witness_all in ground (arith, e)

  witness_all-Tracks :
      (w : IncrementalWitness Node) (xs ys zs : List Node)
      → Tracks H 31 w xs ys
      → length xs + (length ys + length zs) ≤ 2 ^ tree_depth
      → (w' : IncrementalWitness Node) × (witness_all w zs ≡ some (ok w'))
        × Tracks H 31 w' xs (ys ++ zs)
  witness_all-Tracks w xs ys [] t fits =
      (w, unfold witness_all in refl, subst (Tracks H 31 w xs) (sym (append-nil ys)) t)
  witness_all-Tracks w xs ys (z ∷ zs) t fits =
      let (w₁, e, t₁) = append_inner-Tracks H w xs ys z 31 t (omega arith) in
      let fits₁ : length xs + (length (ys ++ z ∷ []) + length zs) ≤ 2 ^ tree_depth =
        omega (arith, length-append ys (z ∷ [])) in
      let (w₂, f, t₂) = witness_all-Tracks w₁ xs (ys ++ z ∷ []) zs t₁ fits₁ in
      (
        w₂,
        witness_all-step w w₁ z zs (unfold append in e) ∙ f,
        subst (Tracks H 31 w₂ xs) (append_assoc ys (z ∷ []) zs) t₂,
      )

  left_of :
      (t : CommitmentTree Node) (xs : List Node)
      → Represents H t xs
      → xs ≢ []
      → (l : Node) × (t.left ≡ some l)
  left_of t xs rep n = by_left t.left t.right rep.shaped rep.leaves
    where
      by_left :
          (left right : Option Node)
          → IsShaped H left right rep.pairs
          → xs ≡ unpair rep.pairs ++ loose H left right
          → (l : Node) × (left ≡ some l)
      by_left none none s e = absurd (n (e ∙ ap (λ q. unpair q ++ []) s))
      by_left none (some r) s e = absurd s
      by_left (some l) right s e = (l, refl)

  -- After some leaves are appended to the empty tree, at least one, and a witness is made of the
  -- tree, appending further leaves to both, 2 ^ 32 leaves at most in all, never fails nor panics,
  -- and both have the same root, that of all the leaves.
  pub witness_all-from_tree :
      (xs ys : List Node)
      → xs ≢ []
      → length xs + length ys ≤ 2 ^ tree_depth
      → (t t' : CommitmentTree Node) × (w : IncrementalWitness Node) × (append_all H empty xs
          ≡ ok t)
        × (append_all H t ys ≡ ok t')
        × (witness_all (from_tree t) ys ≡ some (ok w))
        × (root H w ≡ Tree.root H t')
        × (root H w ≡ some (merkle_root H tree_depth (xs ++ ys)))
  witness_all-from_tree xs ys n fits =
      let (t, e, rep) = append_all-Represents H empty [] xs (empty-Represents H) (omega arith) in
      let (t', e', rep') = append_all-Represents H t xs ys rep fits in
      let (l, f) = left_of t xs rep n in
      let start = from_tree-Tracks H t xs 31 l rep f (omega arith) in
      let (w, g, tracks) = witness_all-Tracks (from_tree t) xs [] ys start (omega arith) in
      let witness_root : root H w ≡ some (merkle_root H tree_depth (xs ++ ys)) =
        unfold root in root_inner-Tracks H w xs ys 31 tracks in
      let whole : length (xs ++ ys) ≤ 2 ^ tree_depth = omega (arith, length-append xs ys) in
      let tree_root : Tree.root H t' ≡ some (merkle_root H tree_depth (xs ++ ys)) =
        unfold Tree.root in root_inner-Represents H t' (xs ++ ys) 31 rep' whole in
      (t, t', w, e, e', g, witness_root ∙ sym tree_root, witness_root)
