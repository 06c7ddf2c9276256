-- ===== src/Merkle/Witness/Append.antt =====
-- A witness keeps track of the leaves that are appended to it.
use masp.Base.{
  ℕ, zero, suc, ◌+◌, ◌^◌, ◌<◌, ◌≤◌, ◌≡◌, ◌↔◌, refl, ap, sym, ◌∙◌, subst, true, false, arith, Option,
  none, some, List, [], ◌∷◌, ◌++◌,
}
use masp.Base.{length, length-append, get_elem?, Option-cases, Bool-cases, inl, inr}
use masp.Base.Result.{ok, err}
use native.Mathlib.Nat.{pow-suc, one-le-pow}
use masp.Merkle.Hash.{Hashable, merkle_root, row_root}
use masp.Merkle.Tree
use masp.Merkle.Tree.{CommitmentTree, is_complete}
use masp.Merkle.Tree.Represents.{Represents, empty-Represents}
use masp.Merkle.Tree.Append.{append_inner-Represents, is_complete-Represents}
use masp.Merkle.Tree.Root.{root_inner-Represents}
use masp.Base.Powers.{two_pow_mono}
use masp.Merkle.Witness.{IncrementalWitness, advance, begin, append_inner, next_depth}
use masp.Merkle.Witness.Holes.{At, holes, next_depth-holes, holes-capacity}
use masp.Merkle.Witness.Tracks.{
  Blocks, Holds, Tracks, Blocks-extend, Blocks-fill, Blocks-full, Blocks-room,
}

module _ {Node : Type 0} (H : Hashable Node) where
  module _ (w : IncrementalWitness Node) (xs ys : List Node) (d : ℕ) (t : Tracks H d w xs ys)
      (x : Node) where
    abbrev hole : Option ℕ
    hole = get_elem? (holes d w.tree) (length w.filled)

    abbrev Grown : IncrementalWitness Node → Type 0
    Grown w' = Tracks H d w' xs (ys ++ x ∷ [])

    hole_at : (h : ℕ) → hole ≡ some h → (next_depth w ≡ h) × (h < suc d)
    hole_at h e = subst (At (next_depth w) (suc d)) e (next_depth-holes w d t.first t.at_left)

    extended : Blocks H (holes d w.tree) w.filled (ys ++ x ∷ []) (t.rest ++ x ∷ [])
    extended = Blocks-extend H (holes d w.tree) w.filled ys t.rest (x ∷ []) t.blocks

    longer : length (t.rest ++ x ∷ []) ≡ length t.rest + 1
    longer = length-append t.rest (x ∷ [])

    -- The next hole is filled by the leaves behind the blocks.
    filled_hole :
        (h depth : ℕ)
        → hole ≡ some h
        → length (t.rest ++ x ∷ []) ≡ 2 ^ h
        → Grown (record w {
          filled = w.filled ++ merkle_root H h (t.rest ++ x ∷ []) ∷ [];
          cursor_depth = depth;
          cursor = none;
        })
    filled_hole h depth e len = record {
      first = t.first;
      at_left = t.at_left;
      below = t.below;
      fits = t.fits;
      rest = [];
      blocks =
          Blocks-fill H (holes d w.tree) w.filled (ys ++ x ∷ []) (t.rest ++ x ∷ []) h extended e
            len;
      held = refl;
    }

    held_cursor :
        (h depth : ℕ) (c : CommitmentTree Node)
        → hole ≡ some (suc h)
        → depth ≡ suc h
        → Represents H c (t.rest ++ x ∷ [])
        → length (t.rest ++ x ∷ []) < 2 ^ suc h
        → Grown (record w { cursor_depth = depth; cursor = some c })
    held_cursor h depth c e f rep lt = record {
      first = t.first;
      at_left = t.at_left;
      below = t.below;
      fits = t.fits;
      rest = t.rest ++ x ∷ [];
      blocks = extended;
      held = (h, e, f, rep, omega (arith, longer), lt);
    }

    advanced :
        (h : ℕ) (c : CommitmentTree Node)
        → hole ≡ some (suc h)
        → w.cursor_depth ≡ suc h
        → Represents H c (t.rest ++ x ∷ [])
        → length t.rest < 2 ^ suc h
        → (w' : IncrementalWitness Node) × (advance H w c ≡ some w') × Grown w'
    advanced h c e f rep lt =
        let fits : length (t.rest ++ x ∷ []) ≤ 2 ^ suc h = omega (arith, longer) in
        let (to, back) = is_complete-Represents H c (t.rest ++ x ∷ []) h rep fits in
        let root : Tree.root_inner H c w.cursor_depth []
            ≡ some (merkle_root H (suc h) (t.rest ++ x ∷ [])) =
          ap (λ k. Tree.root_inner H c k []) f
          ∙ root_inner-Represents H c (t.rest ++ x ∷ []) h rep fits in
        elim (Bool-cases (is_complete c (suc h))) [
          | inl full ↦
              let at : is_complete c w.cursor_depth ≡ true = ap (is_complete c) f ∙ full in
              (
                record w {
                  filled = w.filled ++ merkle_root H (suc h) (t.rest ++ x ∷ []) ∷ [];
                  cursor = none;
                },
                unfold advance in ground (arith, at, root),
                filled_hole (suc h) w.cursor_depth e (to full),
              )
          | inr open_still ↦
              let at : is_complete c w.cursor_depth ≡ false = ap (is_complete c) f ∙ open_still in
              let less : length (t.rest ++ x ∷ []) < 2 ^ suc h =
                ground (arith, fits, back, open_still) in
              (
                record w { cursor = some c },
                unfold advance in ground (arith, at),
                held_cursor h w.cursor_depth c e f rep less,
              )
        ]

    single : t.rest ≡ [] → t.rest ++ x ∷ [] ≡ x ∷ []
    single e = ap (λ r. r ++ x ∷ []) e

    leaf_root : t.rest ≡ [] → merkle_root H 0 (t.rest ++ x ∷ []) ≡ x
    leaf_root e = ap (merkle_root H 0) (single e) ∙ alone
      where
        alone : merkle_root H 0 (x ∷ []) ≡ x
        alone = unfold merkle_root row_root in refl

    begun :
        (h : ℕ)
        → next_depth w ≡ h
        → hole ≡ some h
        → h < suc d
        → t.rest ≡ []
        → w.cursor ≡ none
        → (w' : IncrementalWitness Node) × (begin H w x (suc d) (next_depth w) ≡ some (ok w'))
          × Grown w'
    begun zero f e low none_left at =
        let n = next_depth w in
        let kept = filled_hole 0 n e (ap length (single none_left)) in
        (
          record w { filled = w.filled ++ x ∷ []; cursor_depth = n },
          unfold begin in ground (arith, f),
          subst Grown
              (λ i. record w {
                filled = w.filled ++ leaf_root none_left i ∷ [];
                cursor_depth = n;
                cursor = sym at i;
              })
              kept,
        )
    begun (suc h) f e low none_left at =
        let n = next_depth w in
        let (c, ec, rep) =
          append_inner-Represents H Tree.empty [] x d (empty-Represents H)
            (omega (arith, one-le-pow (suc d) 2)) in
        let begins = subst (Represents H c) (sym (single none_left)) rep in
        let short : length (t.rest ++ x ∷ []) < 2 ^ suc h =
          omega (arith, ap length (single none_left), one-le-pow h 2, pow-suc 2 h) in
        (
          record w { cursor = some c; cursor_depth = n },
          unfold begin in ground (arith, f, ec),
          held_cursor h n c e f begins short,
        )

    -- No hole is left only where the tree is full.
    full_lem : hole ≡ none → t.rest ≡ [] → length xs + length ys ≡ 2 ^ suc d
    full_lem e none_left =
        let all_blocks = subst (Blocks H (holes d w.tree) w.filled ys) none_left t.blocks in
        omega (
          arith,
          Blocks-full H (holes d w.tree) w.filled ys all_blocks e,
          holes-capacity H w.tree xs d t.first t.below t.at_left t.fits,
        )

    by_cursor :
        (c : Option (CommitmentTree Node))
        → w.cursor ≡ c
        → Holds H hole w.cursor_depth c t.rest
        → length xs + length ys < 2 ^ suc d
        → (w' : IncrementalWitness Node) × (append_inner H w x (suc d) ≡ some (ok w')) × Grown w'
    by_cursor (some c) at (h, e, f, rep, pos, lt) room =
        let (_, low) = hole_at (suc h) e in
        let space : length t.rest < 2 ^ suc d =
          omega (arith, two_pow_mono (suc h) (suc d) (omega arith)) in
        let (c', ec, rep') = append_inner-Represents H c t.rest x d rep space in
        let (w', ew, grown) = advanced h c' e f rep' lt in
        (w', unfold append_inner in ground (arith, at, ec, ew), grown)
    by_cursor none at none_left room = elim (Option-cases hole) [
      | inl e ↦ absurd (omega (arith, full_lem e none_left))
      | inr (h, e) ↦
          let (f, low) = hole_at h e in
          let (w', eb, grown) = begun h f e low none_left at in
          (w', unfold append_inner in ground (arith, at, eb), grown)
    ]

    none_held :
        (c : Option (CommitmentTree Node))
        → w.cursor ≡ c
        → Holds H hole w.cursor_depth c t.rest
        → hole ≡ none
        → (w.cursor ≡ none) × (t.rest ≡ [])
    none_held none at e n = (at, e)
    none_held (some c) at (h, e, f, rep, pos, lt) n = absurd (cc (e, n))

    short_rest :
        (c : Option (CommitmentTree Node)) (h : ℕ)
        → Holds H hole w.cursor_depth c t.rest
        → hole ≡ some h
        → length t.rest < 2 ^ h
    short_rest none h e f = omega (arith, ap length e, one-le-pow h 2)
    short_rest (some c) h (k, e, f, rep, pos, lt) g =
        let same : suc k ≡ h = ground (arith, e, g) in subst (λ n. length t.rest < 2 ^ n) same lt

    -- A tree with a hole has room.
    room_lem : (h : ℕ) → hole ≡ some h → length xs + length ys < 2 ^ suc d
    room_lem h e = omega (
      arith,
      Blocks-room H (holes d w.tree) w.filled ys t.rest h t.blocks e
          (short_rest w.cursor h t.held e),
      holes-capacity H w.tree xs d t.first t.below t.at_left t.fits,
    )

    refused : hole ≡ none → append_inner H w x (suc d) ≡ some (err tt)
    refused e =
        let (at, none_left) = none_held w.cursor refl t.held e in
        let beyond = subst (At (next_depth w) (suc d)) e (next_depth-holes w d t.first t.at_left) in
        let begins : begin H w x (suc d) (next_depth w) ≡ some (err tt) =
          unfold begin in ground (arith, beyond) in
        unfold append_inner in ground (arith, at, begins)

  -- A witness that tracks fewer leaves than the depth holds takes a further leaf without a panic,
  -- and then tracks that leaf behind the others.
  pub append_inner-Tracks :
      (w : IncrementalWitness Node) (xs ys : List Node) (x : Node) (d : ℕ)
      → Tracks H d w xs ys
      → length xs + length ys < 2 ^ suc d
      → (w' : IncrementalWitness Node) × (append_inner H w x (suc d) ≡ some (ok w'))
        × Tracks H d w' xs (ys ++ x ∷ [])
  append_inner-Tracks w xs ys x d t room = by_cursor w xs ys d t x w.cursor refl t.held room

  -- A witness that tracks leaves refuses a further one exactly where they are as many as the depth
  -- holds.
  pub append_inner-full_witness :
      (w : IncrementalWitness Node) (xs ys : List Node) (x : Node) (d : ℕ)
      → Tracks H d w xs ys
      → (append_inner H w x (suc d) ≡ some (err tt)) ↔ (length xs + length ys ≡ 2 ^ suc d)
  append_inner-full_witness w xs ys x d t = elim (Option-cases (hole w xs ys d t x)) [
    | inl e ↦ (
      λ f. full_lem w xs ys d t x e (none_held w xs ys d t x w.cursor refl t.held e).1,
      λ f. refused w xs ys d t x e,
    )
    | inr (h, e) ↦
        let room = room_lem w xs ys d t x h e in
        let (w', f, grown) = append_inner-Tracks w xs ys x d t room in
        (λ g. absurd (cc (f, g)), λ g. absurd (omega arith))
  ]
