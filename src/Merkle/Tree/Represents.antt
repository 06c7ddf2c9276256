-- ===== src/Merkle/Tree/Represents.antt =====
-- Which leaves a commitment tree stands for, and its size.
use masp.Base.{ℕ, suc, ◌+◌, ◌*◌, ◌^◌, ◌≡◌, refl, ap, ◌∙◌, Option, none, some, arith}
use masp.Base.{List, [], ◌∷◌, ◌++◌, map, length, length-append, length-map}
use native.Mathlib.Nat.{pow-suc}
use masp.Merkle.Hash.{Hashable, unpair, length-unpair, pair}
use masp.Merkle.Tree.{CommitmentTree, empty, add_parents, size, leaf_count}

module _ {A : Type 0} where
  pub even_length : (ys : List A) (qs : List (A × A)) → ys ≡ unpair qs → length ys ≡ 2 * length qs
  even_length ys qs e = ap length e ∙ length-unpair qs

  pub odd_length :
      (ys : List A) (qs : List (A × A)) (p : A)
      → ys ≡ unpair qs ++ p ∷ []
      → length ys ≡ 2 * length qs + 1
  odd_length ys qs p e =
      omega (arith, ap length e, length-append (unpair qs) (p ∷ []), length-unpair qs)

module _ {Node : Type 0} (H : Hashable Node) where
  -- The parents from height `h` on stand for the complete nodes `ys` of that height: an entry
  -- holds the last node where their number is odd, and their pairs are what the rest stands for.
  abbrev pub Rep : ℕ → List (Option Node) → List Node → Type 0
  Rep h [] ys = ys ≡ []
  Rep h (none ∷ ps) ys =
      (qs : List (Node × Node)) × (ys ≡ unpair qs) × Rep (suc h) ps (map (pair H h) qs)
  Rep h (some p ∷ ps) ys =
      (qs : List (Node × Node)) × (ys ≡ unpair qs ++ p ∷ []) × Rep (suc h) ps (map (pair H h) qs)

  -- The leaves that are not yet below a parent.
  abbrev pub loose : Option Node → Option Node → List Node
  loose (some l) (some r) = l ∷ r ∷ []
  loose (some l) none = l ∷ []
  loose none right = []

  -- A tree with no left leaf is empty.
  abbrev pub IsShaped : Option Node → Option Node → List (Node × Node) → Type 0
  IsShaped (some l) right qs = Unit
  IsShaped none none qs = qs ≡ []
  IsShaped none (some r) qs = ⊥

  -- The tree stands for the leaves `xs`.
  pub record Represents (t : CommitmentTree Node) (xs : List Node) : Type 0 where
    pub pairs : List (Node × Node)
    pub leaves : xs ≡ unpair pairs ++ loose t.left t.right
    pub shaped : IsShaped t.left t.right pairs
    pub above : Rep 1 t.parents (map (pair H 0) pairs)

  pub empty-Represents : Represents empty []
  unfolding empty
  empty-Represents = record { pairs = []; leaves = refl; shaped = refl; above = refl }

  add_parents_lem :
      (i h acc : ℕ) (ps : List (Option Node)) (ys : List Node)
      → Rep h ps ys
      → add_parents acc i ps ≡ acc + 2 ^ suc i * length ys
  unfolding add_parents
  add_parents_lem i h acc [] ys e =
      omega (arith, ap length e, ap (λ (n : ℕ). 2 ^ suc i * n) (ap length e))
  add_parents_lem i h acc (none ∷ ps) ys (qs, e, r) =
      add_parents_lem (suc i) (suc h) (acc + 0) ps (map (pair H h) qs) r
      ∙ omega (
        arith,
        ap (λ (n : ℕ). 2 ^ suc i * n) (even_length ys qs e),
        pow-suc 2 (suc i),
        ap (λ (n : ℕ). n * length qs) (pow-suc 2 (suc i)),
        ap (λ (n : ℕ). 2 ^ suc (suc i) * n) (length-map qs (pair H h)),
      )
  add_parents_lem i h acc (some p ∷ ps) ys (qs, e, r) =
      add_parents_lem (suc i) (suc h) (acc + 2 ^ suc i) ps (map (pair H h) qs) r
      ∙ omega (
        arith,
        ap (λ (n : ℕ). 2 ^ suc i * n) (odd_length ys qs p e),
        pow-suc 2 (suc i),
        ap (λ (n : ℕ). n * length qs) (pow-suc 2 (suc i)),
        ap (λ (n : ℕ). 2 ^ suc (suc i) * n) (length-map qs (pair H h)),
      )

  pub length-loose :
      (l r : Option Node) (qs : List (Node × Node))
      → IsShaped l r qs
      → leaf_count l r ≡ some (length (loose l r))
  unfolding leaf_count
  length-loose none none qs s = refl
  length-loose none (some r) qs s = absurd s
  length-loose (some l) none qs s = refl
  length-loose (some l) (some r) qs s = refl

  -- `size` is the number of leaves.
  pub size-Represents :
      (t : CommitmentTree Node) (xs : List Node) → Represents t xs → size t ≡ some (length xs)
  size-Represents t xs r =
      let n = length (loose t.left t.right) in
      let parents = add_parents_lem 0 1 n t.parents (map (pair H 0) r.pairs) r.above in
      let total : add_parents n 0 t.parents ≡ length xs = omega (
        arith,
        parents,
        ap length r.leaves,
        length-append (unpair r.pairs) (loose t.left t.right),
        length-unpair r.pairs,
        length-map r.pairs (pair H 0),
      ) in
      unfold size in ground (arith, length-loose t.left t.right r.pairs r.shaped, total)
