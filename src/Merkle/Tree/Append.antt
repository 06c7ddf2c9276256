-- ===== src/Merkle/Tree/Append.antt =====
-- `append` adds a leaf at the end, and refuses exactly at a full tree.
use masp.Base.{
  ℕ, zero, suc, ◌+◌, ◌*◌, ◌^◌, ◌<◌, ◌≤◌, ◌≡◌, ◌↔◌, refl, sym, ap, ◌∙◌, true, Option, none, some,
  arith,
}
use masp.Base.{
  List, [], ◌∷◌, ◌++◌, map, length, length-append, length-map, map-append, append_assoc, Bool-cases,
  inl, inr,
}
use native.Mathlib.Nat.{pow-suc, one-le-pow}
use masp.Base.Result.{ok, err}
use masp.Merkle.Hash.{Hashable, unpair, length-unpair, unpair-append, pair}
use masp.Merkle.Tree.{CommitmentTree, carry, all_some, is_complete, append_inner, place}
use masp.Merkle.Tree.Represents.{Rep, Represents, loose, even_length, odd_length}

module _ {Node : Type 0} (H : Hashable Node) where
  all_some_lem :
      (d h : ℕ) (ps : List (Option Node)) (ys : List Node)
      → Rep H h ps ys
      → length ys < 2 ^ d
      → (all_some d ps ≡ true) ↔ (length ys + 1 ≡ 2 ^ d)
  unfolding all_some
  all_some_lem zero h ps ys r l = (λ e. omega arith, λ e. refl)
  all_some_lem (suc d) h [] ys r l =
      (λ e. cc, λ e. absurd (omega (arith, ap length r, pow-suc 2 d)))
  all_some_lem (suc d) h (none ∷ ps) ys (qs, e, r) l =
      (λ f. cc, λ f. absurd (omega (arith, even_length ys qs e, pow-suc 2 d)))
  all_some_lem (suc d) h (some p ∷ ps) ys (qs, e, r) l =
      let odd = odd_length ys qs p e in
      let len = length-map qs (pair H h) in
      let (to, back) =
        all_some_lem d (suc h) ps (map (pair H h) qs) r (omega (arith, odd, len, pow-suc 2 d)) in
      (
        λ f. omega (arith, odd, len, pow-suc 2 d, to f),
        λ f. back (omega (arith, odd, len, pow-suc 2 d)),
      )

  carry_lem :
      (rounds i : ℕ) (ps : List (Option Node)) (ys : List Node) (c : Node)
      → Rep H (suc i) ps ys
      → length ys + 1 < 2 ^ rounds
      → Rep H (suc i) (carry H rounds i ps c) (ys ++ c ∷ [])
  unfolding carry
  carry_lem zero i ps ys c r l = absurd (omega arith)
  carry_lem (suc n) i [] ys c r l = ([], rw r refl, refl)
  carry_lem (suc n) i (none ∷ ps) ys c (qs, e, r) l = (qs, rw e refl, r)
  carry_lem (suc n) i (some p ∷ ps) ys c (qs, e, r) l =
      let h = suc i in
      let combined = H.combine h p c in
      let ih =
        carry_lem n h ps (map (pair H h) qs) combined r
          (omega (arith, odd_length ys qs p e, length-map qs (pair H h), pow-suc 2 n)) in
      (
        qs ++ (p, c) ∷ [],
        ap (λ l. l ++ c ∷ []) e
            ∙ append_assoc (unpair qs) (p ∷ []) (c ∷ [])
            ∙ sym (unpair-append qs p c),
        rw (map-append) ih,
      )

  abbrev tree : Option Node → Option Node → List (Option Node) → CommitmentTree Node
  tree l r ps = record { left = l; right = r; parents = ps }

  pub length-leaves :
      (t : CommitmentTree Node) (xs : List Node) (r : Represents H t xs)
      → length xs ≡ 2 * length r.pairs + length (loose H t.left t.right)
  length-leaves t xs r = omega (
    arith,
    ap length r.leaves,
    length-append (unpair r.pairs) (loose H t.left t.right),
    length-unpair r.pairs,
  )

  complete :
      (l r : Option Node) (ps : List (Option Node)) (xs : List Node) (d : ℕ)
      → Represents H (tree l r ps) xs
      → length xs ≤ 2 ^ suc d
      → (is_complete (tree l r ps) (suc d) ≡ true) ↔ (length xs ≡ 2 ^ suc d)
  unfolding is_complete
  complete none none ps xs d rep fits = (
    λ e. cc,
    λ e. absurd (
        omega (
          arith,
          ap length rep.leaves,
          ap (λ q. length (unpair q)) rep.shaped,
          length-append (unpair rep.pairs) [],
          pow-suc 2 d,
          one-le-pow d 2,
        )),
  )
  complete none (some r) ps xs d rep fits = absurd rep.shaped
  complete (some l) none ps xs d rep fits =
      (λ e. cc, λ e. absurd (omega (arith, length-leaves _ xs rep, pow-suc 2 d)))
  complete (some l) (some r) ps xs d rep fits =
      let len = length-leaves _ xs rep in
      let pairs = length-map rep.pairs (pair H 0) in
      let (to, back) =
        all_some_lem d 1 ps (map (pair H 0) rep.pairs) rep.above
          (omega (arith, len, pairs, pow-suc 2 d)) in
      (
        λ e. omega (arith, len, pairs, pow-suc 2 d, to e),
        λ e. back (omega (arith, len, pairs, pow-suc 2 d)),
      )

  placed :
      (l r : Option Node) (ps : List (Option Node)) (xs : List Node) (x : Node) (d : ℕ)
      → Represents H (tree l r ps) xs
      → length xs < 2 ^ suc d
      → Represents H (place H (tree l r ps) x (suc d) l r) (xs ++ x ∷ [])
  unfolding place
  placed none none ps xs x d rep fits = record {
    pairs = rep.pairs;
    leaves = ap (λ l. l ++ x ∷ []) rep.leaves ∙ append_assoc (unpair rep.pairs) [] (x ∷ []);
    shaped = tt;
    above = rep.above;
  }
  placed none (some r) ps xs x d rep fits = absurd rep.shaped
  placed (some l) none ps xs x d rep fits = record {
    pairs = rep.pairs;
    leaves = ap (λ l. l ++ x ∷ []) rep.leaves ∙ append_assoc (unpair rep.pairs) (l ∷ []) (x ∷ []);
    shaped = tt;
    above = rep.above;
  }
  placed (some l) (some r) ps xs x d rep fits = record {
    pairs = rep.pairs ++ (l, r) ∷ [];
    leaves = ap (λ l. l ++ x ∷ []) (rep.leaves ∙ sym (unpair-append rep.pairs l r));
    shaped = tt;
    above = rw map-append (
        carry_lem (suc d) 0 ps (map (pair H 0) rep.pairs) (H.combine 0 l r) rep.above
          (omega (arith, length-leaves _ xs rep, length-map rep.pairs (pair H 0), pow-suc 2 d)));
  }

  -- For a tree that represents at most as many leaves as its depth holds, is_complete is true
  -- exactly where it holds that many.
  pub is_complete-Represents :
      (t : CommitmentTree Node) (xs : List Node) (d : ℕ)
      → Represents H t xs
      → length xs ≤ 2 ^ suc d
      → (is_complete t (suc d) ≡ true) ↔ (length xs ≡ 2 ^ suc d)
  is_complete-Represents t xs d rep fits = complete t.left t.right t.parents xs d rep fits

  -- On a tree that represents fewer leaves than its depth holds, append_inner succeeds, and the
  -- new tree represents the old leaves followed by the new one.
  pub append_inner-Represents :
      (t : CommitmentTree Node) (xs : List Node) (x : Node) (d : ℕ)
      → Represents H t xs
      → length xs < 2 ^ suc d
      → (t' : CommitmentTree Node) × (append_inner H t x (suc d) ≡ ok t')
        × Represents H t' (xs ++ x ∷ [])
  append_inner-Represents t xs x d rep room =
      let (to, back) = is_complete-Represents t xs d rep (omega arith) in
      (
        place H t x (suc d) t.left t.right,
        elim (Bool-cases (is_complete t (suc d))) [
          | inl c ↦ absurd (omega (arith, to c))
          | inr n ↦ unfold append_inner in rw n
        ],
        placed t.left t.right t.parents xs x d rep room,
      )

  -- On a tree that represents at most as many leaves as its depth holds, append_inner fails
  -- exactly where it holds that many.
  pub append_inner-full :
      (t : CommitmentTree Node) (xs : List Node) (x : Node) (d : ℕ)
      → Represents H t xs
      → length xs ≤ 2 ^ suc d
      → (append_inner H t x (suc d) ≡ err tt) ↔ (length xs ≡ 2 ^ suc d)
  append_inner-full t xs x d rep fits =
      let (to, back) = is_complete-Represents t xs d rep fits in
      (
        λ e. elim (Bool-cases (is_complete t (suc d))) [
          | inl c ↦ to c
          | inr n ↦ absurd (unfold append_inner in ground (arith, n, e))
        ],
        λ e. unfold append_inner in rw (back e),
      )
