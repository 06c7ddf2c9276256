-- ===== src/Merkle/Tree.antt =====
-- `CommitmentTree`: a frontier of complete subtrees. `none` stands for a panic.
pub mod Represents
pub mod Append
pub mod Root
pub mod Build
use masp.Base.{
  ℕ, zero, suc, ◌+◌, ◌-◌, ◌*◌, ◌^◌, Bool, true, false, ◌&&◌, Option, none, some, List, [], ◌∷◌,
  ◌++◌,
}
use masp.Base.{if◌then◌else◌}
use masp.Base.Result.{Result, ok, err}
use masp.Merkle.Hash.{Hashable, tree_depth}

pub record CommitmentTree (Node : Type 0) : Type 0 where
  pub left : Option Node
  pub right : Option Node
  pub parents : List (Option Node)

abbrev pub is_some : {A : Type 0} → Option A → Bool
is_some none = false
is_some (some a) = true

abbrev pub is_none : {A : Type 0} → Option A → Bool
is_none none = true
is_none (some a) = false

abbrev pub is_empty : {A : Type 0} → List A → Bool
is_empty [] = true
is_empty (x ∷ xs) = false

module _ {Node : Type 0} where
  unfoldable pub empty : CommitmentTree Node
  empty = record { left = none; right = none; parents = [] }

  -- The fold of `size` over the parents from index `i` on. In the source the shift of a `usize`
  -- bounds the number of parents.
  unfoldable pub add_parents : ℕ → ℕ → List (Option Node) → ℕ
  add_parents acc i [] = acc
  add_parents acc i (p ∷ ps) = add_parents (acc + (if is_some p then 2 ^ (suc i) else 0)) (suc i) ps

  unfoldable pub leaf_count : Option Node → Option Node → Option ℕ
  leaf_count none none = some 0
  leaf_count (some l) none = some 1
  leaf_count (some l) (some r) = some 2
  leaf_count none (some r) = none

  unfoldable pub size : CommitmentTree Node → Option ℕ
  unfolding leaf_count add_parents
  size t = elim (leaf_count t.left t.right) [
    | none ↦ none
    | some n ↦ some (add_parents n 0 t.parents)
  ]

  -- Whether the first `d` parents, with `None` behind the last, are all present.
  unfoldable pub all_some : ℕ → List (Option Node) → Bool
  all_some zero ps = true
  all_some (suc d) [] = false
  all_some (suc d) (p ∷ ps) = is_some p && all_some d ps

  unfoldable pub is_complete : CommitmentTree Node → ℕ → Bool
  unfolding all_some
  is_complete t zero = is_some t.left && is_none t.right && is_empty t.parents
  is_complete t (suc d) = is_some t.left && is_some t.right && all_some d t.parents

-- `PathFiller`: `next` takes the front of the queue, or an empty root.
module _ {Node : Type 0} (H : Hashable Node) where
  unfoldable pub next : List Node → ℕ → Node × List Node
  next [] depth = (H.empty_root depth, [])
  next (x ∷ queue) depth = (x, queue)

  unfoldable pub or_next : Option Node → List Node → ℕ → Node × List Node
  unfolding next
  or_next none queue depth = next queue depth
  or_next (some x) queue depth = (x, queue)

  -- The loop of `append_inner` from index `i` on, with the rounds that are left. The list is the
  -- parents from that index on.
  unfoldable pub carry : ℕ → ℕ → List (Option Node) → Node → List (Option Node)
  carry zero i ps combined = ps
  carry (suc rounds) i [] combined = some combined ∷ []
  carry (suc rounds) i (none ∷ ps) combined = some combined ∷ ps
  carry (suc rounds) i (some p ∷ ps) combined =
      none ∷ carry rounds (suc i) ps (H.combine (suc i) p combined)

  unfoldable pub place :
      CommitmentTree Node → Node → ℕ → Option Node → Option Node → CommitmentTree Node
  place t node depth none right = record t { left = some node }
  place t node depth (some l) none = record t { right = some node }
  place t node depth (some l) (some r) = record {
    left = some node;
    right = none;
    parents = carry depth 0 t.parents (H.combine 0 l r);
  }

  unfoldable pub append_inner :
      CommitmentTree Node → Node → ℕ → Result (Unit {0}) (CommitmentTree Node)
  append_inner t node depth =
      if is_complete t depth then err tt else ok (place t node depth t.left t.right)

  unfoldable pub append : CommitmentTree Node → Node → Result (Unit {0}) (CommitmentTree Node)
  append t node = append_inner t node tree_depth

  -- The fold of `root_inner` over the parents from index `i` on, with `None` behind the last.
  unfoldable pub root_loop : ℕ → ℕ → List (Option Node) → List Node → Node → Node
  root_loop zero i ps queue root = root
  root_loop (suc rounds) i [] queue root =
      let (filler, queue') = next queue (suc i) in
      root_loop rounds (suc i) [] queue' (H.combine (suc i) root filler)
  root_loop (suc rounds) i (some node ∷ ps) queue root =
      root_loop rounds (suc i) ps queue (H.combine (suc i) node root)
  root_loop (suc rounds) i (none ∷ ps) queue root =
      let (filler, queue') = next queue (suc i) in
      root_loop rounds (suc i) ps queue' (H.combine (suc i) root filler)

  -- `none` is the failed assertion that the depth is positive.
  unfoldable pub root_inner : CommitmentTree Node → ℕ → List Node → Option Node
  root_inner t zero queue = none
  root_inner t (suc d) queue =
      let (l, queue₁) = or_next t.left queue 0 in
      let (r, queue₂) = or_next t.right queue₁ 0 in
      some (root_loop d 0 t.parents queue₂ (H.combine 0 l r))

  unfoldable pub root : CommitmentTree Node → Option Node
  root t = root_inner t tree_depth []
