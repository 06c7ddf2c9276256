-- ===== src/Merkle/Frozen/Merge.antt =====
-- Merging full subtrees with one last tree gives the tree over all leaves.
pub mod Parts
mod Climb
use masp.Base.{
  ℕ, zero, suc, ◌+◌, ◌*◌, ◌/◌, ◌%◌, ◌^◌, ◌<◌, ◌≤◌, ◌≡◌, refl, ap, sym, ◌∙◌, arith, Bool, true, some,
  List, [], ◌∷◌, ◌++◌, map,
}
use masp.Base.{length, length-append, All, all, ◌==◌}
use native.Mathlib.Nat.{pow-suc, one-le-pow}
use masp.Merkle.Hash.{Hashable, tree_depth}
use masp.Merkle.Frozen.{
  FrozenCommitmentTree, Merging, merging, is_power_of_two, mergeable, merge_loop, merge_full,
  split_last, merge, complete,
}
use masp.Merkle.Frozen.Rows.{rows, frozen, complete_lem}
use masp.Merkle.Frozen.Merge.Parts.{concat, Holds}
use masp.Merkle.Frozen.Merge.Climb.{Climbs, Climbed, merge_loop_lem}

is_power_of_two-pow : (fuel k : ℕ) → k < fuel → is_power_of_two fuel (2 ^ k) ≡ true
unfolding is_power_of_two
is_power_of_two-pow zero k h = absurd (omega arith)
is_power_of_two-pow (suc fuel) zero h = refl
is_power_of_two-pow (suc fuel) (suc k) h =
    let half : 2 ^ suc k / 2 ≡ 2 ^ k = omega (arith, pow-suc 2 k) in
    let ih = ap (is_power_of_two fuel) half ∙ is_power_of_two-pow fuel k (omega arith) in
    let even : 2 ^ suc k % 2 ≡ 0 = omega (arith, pow-suc 2 k) in ground (arith, ih, even)

module _ {Node : Type 0} (H : Hashable Node) where
  abbrev frozen_all : List (List Node) → List (FrozenCommitmentTree Node)
  frozen_all chunks = map (frozen H) chunks

  split_last_lem :
      (t : FrozenCommitmentTree Node) (chunks : List (List Node)) (rest : List Node)
      → split_last t (frozen_all chunks ++ frozen H rest ∷ [])
        ≡ (t ∷ frozen_all chunks, frozen H rest)
  unfolding split_last
  split_last_lem t [] rest = refl
  split_last_lem t (c ∷ chunks) rest =
      ap (λ r. (t ∷ r.0, r.1)) (split_last_lem (frozen H c) chunks rest)

  same_size :
      (size : ℕ) (chunks : List (List Node))
      → All (λ c. length c ≡ size) chunks
      → all (λ t. t.leafs == size) (frozen_all chunks) ≡ true
  same_size size [] h = refl
  same_size size (c ∷ chunks) (here, more) = ground (arith, same_size size chunks more)

  Holds-frozen :
      (width : ℕ) (chunks : List (List Node))
      → All (λ c. length c ≡ width) chunks
      → Holds H 0 tree_depth 0 width (frozen_all chunks) chunks
  Holds-frozen width [] h = tt
  Holds-frozen width (c ∷ chunks) (here, more) =
      ([], refl, refl, here, Holds-frozen width chunks more)

  length-concat :
      (size : ℕ) (chunks : List (List Node))
      → All (λ c. length c ≡ size) chunks
      → length (concat chunks) ≡ length (frozen_all chunks) * size
  length-concat size [] h = omega arith
  length-concat size (c ∷ chunks) (here, more) =
      grind (arith, length-append c (concat chunks), length-concat size chunks more)

  merging-Climbs :
      (k : ℕ) (chunks : List (List Node)) (rest : List Node) (leafs : ℕ)
      → All (λ c. length c ≡ 2 ^ k) chunks
      → leafs ≡ length (concat chunks ++ rest)
      → Climbs H
          (frozen_all chunks)
          (frozen H rest)
          k
          tree_depth
          0
          chunks
          rest
          []
          (merging (2 ^ k) (length rest) leafs)
  merging-Climbs k chunks rest leafs sizes count =
      unfold merging in
      record {
        tree = refl;
        height = refl;
        first_width = refl;
        last_width = refl;
        start = refl;
        width = count;
        held = Holds-frozen (2 ^ k) chunks sizes;
        below = [];
        nodes = refl;
        last_start = refl;
      }

  merge_full_lem :
      (k : ℕ) (chunks : List (List Node)) (rest : List Node)
      → k ≤ tree_depth
      → All (λ c. length c ≡ 2 ^ k) chunks
      → merge_full H (2 ^ k) (frozen_all chunks) (frozen H rest)
        ≡ some (frozen H (concat chunks ++ rest))
  merge_full_lem k chunks rest low sizes =
      let full = frozen_all chunks in
      let leafs = length full * 2 ^ k + length rest in
      let count : leafs ≡ length (concat chunks ++ rest) =
        omega (arith, length-append (concat chunks) rest, length-concat (2 ^ k) chunks sizes) in
      let (s, n, top, e, run, left) =
        merge_loop_lem H full (frozen H rest) 64 k tree_depth 0 chunks rest []
          (merging (2 ^ k) (length rest) leafs) (omega arith) low
          (merging-Climbs k chunks rest leafs sizes count) in
      let (lead, row, tree, start, width, height, rows_are) = left in
      let built : complete H s.tree s.start s.width s.height leafs
          ≡ some (frozen H (concat chunks ++ rest)) =
        rw (tree, start, width, height, count)
          (complete_lem H n top lead row (length (concat chunks ++ rest)) (omega arith)
            ∙ ap (λ r. some (record { nodes = r; leafs = length (concat chunks ++ rest) }))
                rows_are) in
      let sound : mergeable (2 ^ k) full ≡ true =
        unfold mergeable in
        ground (arith, is_power_of_two-pow 64 k (omega arith), same_size (2 ^ k) chunks sizes) in
      unfold merge_full in ground (arith, sound, run, built)

  -- Merging trees over `2 ^ k` leaves each with a last one.
  pub merge-frozen :
      (k : ℕ) (chunks : List (List Node)) (rest : List Node)
      → k ≤ tree_depth
      → All (λ c. length c ≡ 2 ^ k) chunks
      → merge H (map (frozen H) chunks ++ frozen H rest ∷ [])
        ≡ some (frozen H (concat chunks ++ rest))
  merge-frozen k [] rest low sizes = unfold merge in refl
  merge-frozen k (c ∷ []) rest low (here, more) =
      unfold merge split_last in
      ap (λ size. merge_full H size (frozen_all (c ∷ [])) (frozen H rest)) here
      ∙ merge_full_lem k (c ∷ []) rest low (here, more)
  merge-frozen k (c ∷ c' ∷ chunks) rest low (here, more) =
      let split = split_last_lem (frozen H c') chunks rest in
      unfold merge split_last in
      ap (λ r. merge_full H (length c) (frozen H c ∷ r.0) r.1) split
      ∙ ap (λ size. merge_full H size (frozen_all (c ∷ c' ∷ chunks)) (frozen H rest)) here
      ∙ merge_full_lem k (c ∷ c' ∷ chunks) rest low (here, more)
