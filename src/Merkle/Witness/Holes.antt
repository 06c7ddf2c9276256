-- ===== src/Merkle/Witness/Holes.antt =====
-- The holes of a tree: the heights of the subtrees that further leaves fill, from the left.
use masp.Base.{
  ℕ, zero, suc, ◌+◌, ◌*◌, ◌^◌, ◌<◌, ◌≤◌, ◌≡◌, refl, subst, ap, sym, arith, Option, none, some, List,
  [], ◌∷◌, map,
}
use masp.Base.{length, length-map, get_elem?}
use native.Mathlib.Nat.{pow-suc, one-le-pow}
use masp.Merkle.Hash.{Hashable, pair}
use masp.Merkle.Tree.{CommitmentTree}
use masp.Merkle.Tree.Represents.{Rep, Represents, even_length, odd_length, loose}
use masp.Merkle.Tree.Append.{length-leaves}
use masp.Merkle.Witness.{IncrementalWitness, depth_loop, depth_right, depth_left, next_depth}

-- The height of a hole below the full depth, or none below it.
abbrev pub At : ℕ → ℕ → Option ℕ → Type 0
At found full none = full ≤ found
At found full (some h) = (found ≡ h) × (h < full)

module _ {Node : Type 0} where
  -- Of the parents from index `i` on, as many as there are rounds.
  abbrev pub parent_holes : ℕ → ℕ → List (Option Node) → List ℕ
  parent_holes zero i ps = []
  parent_holes (suc rounds) i [] = suc i ∷ parent_holes rounds (suc i) []
  parent_holes (suc rounds) i (none ∷ ps) = suc i ∷ parent_holes rounds (suc i) ps
  parent_holes (suc rounds) i (some p ∷ ps) = parent_holes rounds (suc i) ps

  abbrev pub right_holes : ℕ → Option Node → List (Option Node) → List ℕ
  right_holes d none ps = 0 ∷ parent_holes d 0 ps
  right_holes d (some r) ps = parent_holes d 0 ps

  -- Of a tree of depth `d + 1` with a left leaf.
  abbrev pub holes : ℕ → CommitmentTree Node → List ℕ
  holes d t = right_holes d t.right t.parents

  depth_loop-ge : (d skip : ℕ) (ps : List (Option Node)) → d ≤ depth_loop d skip ps
  depth_loop-ge d skip [] = unfold depth_loop in omega arith
  depth_loop-ge d skip (some p ∷ ps) =
      let rest = depth_loop-ge (suc d) skip ps in
      let e : depth_loop d skip (some p ∷ ps) ≡ depth_loop (suc d) skip ps =
        unfold depth_loop in refl in
      omega (arith, rest, e)
  depth_loop-ge d zero (none ∷ ps) =
      let e : depth_loop d zero (none ∷ ps) ≡ d = unfold depth_loop in refl in omega (arith, e)
  depth_loop-ge d (suc skip) (none ∷ ps) =
      let rest = depth_loop-ge (suc d) skip ps in
      let e : depth_loop d (suc skip) (none ∷ ps) ≡ depth_loop (suc d) skip ps =
        unfold depth_loop in refl in
      omega (arith, rest, e)

  depth_loop-lem :
      (rounds i skip : ℕ) (ps : List (Option Node)) (full : ℕ)
      → full ≡ suc i + rounds
      → At (depth_loop (suc i) skip ps) full (get_elem? (parent_holes rounds i ps) skip)
  depth_loop-lem zero i skip ps full e = omega (arith, depth_loop-ge (suc i) skip ps)
  depth_loop-lem (suc rounds) i zero [] full e = unfold depth_loop in (omega arith, omega arith)
  depth_loop-lem (suc rounds) i (suc skip) [] full e =
      let nil : List (Option Node) = [] in
      let step : depth_loop (suc i) (suc skip) nil ≡ depth_loop (suc (suc i)) skip nil =
        unfold depth_loop in omega arith in
      subst (λ k. At k full (get_elem? (parent_holes rounds (suc i) nil) skip)) (sym step)
        (depth_loop-lem rounds (suc i) skip nil full (omega arith))
  depth_loop-lem (suc rounds) i zero (none ∷ ps) full e = unfold depth_loop in (refl, omega arith)
  depth_loop-lem (suc rounds) i (suc skip) (none ∷ ps) full e =
      let step : depth_loop (suc i) (suc skip) (none ∷ ps) ≡ depth_loop (suc (suc i)) skip ps =
        unfold depth_loop in refl in
      subst (λ k. At k full (get_elem? (parent_holes rounds (suc i) ps) skip)) (sym step)
        (depth_loop-lem rounds (suc i) skip ps full (omega arith))
  depth_loop-lem (suc rounds) i skip (some p ∷ ps) full e =
      let step : depth_loop (suc i) skip (some p ∷ ps) ≡ depth_loop (suc (suc i)) skip ps =
        unfold depth_loop in refl in
      subst (λ k. At k full (get_elem? (parent_holes rounds (suc i) ps) skip)) (sym step)
        (depth_loop-lem rounds (suc i) skip ps full (omega arith))

  depth_right-lem :
      (d skip : ℕ) (r : Option Node) (ps : List (Option Node))
      → At (depth_right skip r ps) (suc d) (get_elem? (right_holes d r ps) skip)
  depth_right-lem d skip (some r) ps =
      unfold depth_right in depth_loop-lem d 0 skip ps (suc d) (omega arith)
  depth_right-lem d zero none ps = unfold depth_right in (refl, omega arith)
  depth_right-lem d (suc skip) none ps =
      unfold depth_right in depth_loop-lem d 0 skip ps (suc d) (omega arith)

  -- `next_depth` is the height of the first hole that is not filled, or at least the depth.
  pub next_depth-holes :
      (w : IncrementalWitness Node) (d : ℕ) (l : Node)
      → w.tree.left ≡ some l
      → At (next_depth w) (suc d) (get_elem? (holes d w.tree) (length w.filled))
  next_depth-holes w d l e =
      let opened : next_depth w ≡ depth_right (length w.filled) w.tree.right w.tree.parents =
        unfold next_depth depth_left in ground (arith, e) in
      subst (λ k. At k (suc d) (get_elem? (holes d w.tree) (length w.filled))) (sym opened)
        (depth_right-lem d (length w.filled) w.tree.right w.tree.parents)

-- The leaves that the holes take.
abbrev pub capacity : List ℕ → ℕ
capacity [] = 0
capacity (h ∷ hs) = 2 ^ h + capacity hs

module _ {Node : Type 0} (H : Hashable Node) where
  parent_capacity :
      (rounds i : ℕ) (ps : List (Option Node)) (ys : List Node)
      → Rep H (suc i) ps ys
      → length ys < 2 ^ rounds
      → 2 ^ suc i * (length ys + 1) + capacity (parent_holes rounds i ps) ≡ 2 ^ (suc i + rounds)
  parent_capacity zero i ps ys rep l =
      let none_there : length ys ≡ 0 = omega arith in
      let e : suc i + 0 ≡ suc i = omega arith in
      omega (arith, ap (λ (n : ℕ). 2 ^ suc i * (n + 1)) none_there, ap (λ (n : ℕ). 2 ^ n) e)
  parent_capacity (suc r) i [] ys rep l =
      let e : suc (suc i) + r ≡ suc i + suc r = omega arith in
      omega (
        arith,
        parent_capacity r (suc i) [] [] refl (omega (arith, one-le-pow r 2)),
        ap (λ (n : ℕ). 2 ^ suc i * (n + 1)) (ap length rep),
        pow-suc 2 (suc i),
        ap (λ (n : ℕ). 2 ^ n) e,
      )
  parent_capacity (suc r) i (none ∷ ps) ys (qs, e, rep) l =
      let len = length-map qs (pair H (suc i)) in
      let even = even_length ys qs e in
      let f : suc (suc i) + r ≡ suc i + suc r = omega arith in
      omega (
        arith,
        parent_capacity r (suc i) ps (map (pair H (suc i)) qs) rep
            (omega (arith, len, even, pow-suc 2 r)),
        ap (λ (n : ℕ). 2 ^ suc i * (n + 1)) even,
        ap (λ (n : ℕ). 2 ^ suc (suc i) * (n + 1)) len,
        pow-suc 2 (suc i),
        ap (λ (n : ℕ). n * (length qs + 1)) (pow-suc 2 (suc i)),
        ap (λ (n : ℕ). 2 ^ n) f,
      )
  parent_capacity (suc r) i (some p ∷ ps) ys (qs, e, rep) l =
      let len = length-map qs (pair H (suc i)) in
      let odd = odd_length ys qs p e in
      let f : suc (suc i) + r ≡ suc i + suc r = omega arith in
      omega (
        arith,
        parent_capacity r (suc i) ps (map (pair H (suc i)) qs) rep
            (omega (arith, len, odd, pow-suc 2 r)),
        ap (λ (n : ℕ). 2 ^ suc i * (n + 1)) odd,
        ap (λ (n : ℕ). 2 ^ suc (suc i) * (n + 1)) len,
        pow-suc 2 (suc i),
        ap (λ (n : ℕ). n * (length qs + 1)) (pow-suc 2 (suc i)),
        ap (λ (n : ℕ). 2 ^ n) f,
      )

  -- The leaves of a tree and those that its holes take are as many as the depth holds.
  pub holes-capacity :
      (t : CommitmentTree Node) (xs : List Node) (d : ℕ) (l : Node)
      → Represents H t xs
      → t.left ≡ some l
      → length xs ≤ 2 ^ suc d
      → length xs + capacity (holes d t) ≡ 2 ^ suc d
  holes-capacity t xs d l rep e fits =
      by_right t.left t.right t.parents e (length-leaves H t xs rep) rep.above
    where
      above_capacity :
          (ps : List (Option Node))
          → Rep H 1 ps (map (pair H 0) rep.pairs)
          → length rep.pairs < 2 ^ d
          → 2 * (length rep.pairs + 1) + capacity (parent_holes d 0 ps) ≡ 2 ^ suc d
      above_capacity ps above small =
          let len = length-map rep.pairs (pair H 0) in
          let f : 1 + d ≡ suc d = omega arith in
          let whole =
            parent_capacity d 0 ps (map (pair H 0) rep.pairs) above (omega (arith, len)) in
          omega (arith, whole, len, ap (λ (n : ℕ). 2 ^ n) f, ap (λ (n : ℕ). 2 ^ 1 * (n + 1)) len)

      by_right :
          (left right : Option Node) (ps : List (Option Node))
          → left ≡ some l
          → length xs ≡ 2 * length rep.pairs + length (loose H left right)
          → Rep H 1 ps (map (pair H 0) rep.pairs)
          → length xs + capacity (right_holes d right ps) ≡ 2 ^ suc d
      by_right none right ps f len above = absurd (cc f)
      by_right (some l') none ps f len above =
          omega (arith, len, above_capacity ps above (omega (arith, len, pow-suc 2 d)))
      by_right (some l') (some r) ps f len above =
          omega (arith, len, above_capacity ps above (omega (arith, len, pow-suc 2 d)))
