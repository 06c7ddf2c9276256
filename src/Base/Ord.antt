-- ===== src/Base/Ord.antt =====
-- What a `BTreeMap` needs of the order of its keys: a comparison into `Ordering` that is a total
-- order, as the documentation of the trait `Ord` asks.
use native.Mathlib.Omega.{arith}
use mathlib.Core.Path.{◌≡◌}
use Prim.Native.Nat.Ordering.{lt, eq, gt}
use Prim.Native.Nat.{ℕ, compare, Ordering}

pub record IsLawful (K : Type 0) (cmp : K → K → Ordering) : Type 0 where
  pub lt_trans : (x y z : K) → cmp x y ≡ lt → cmp y z ≡ lt → cmp x z ≡ lt
  pub gt_of_lt : (x y : K) → cmp x y ≡ lt → cmp y x ≡ gt
  pub eq_of_cmp : (x y : K) → cmp x y ≡ eq → x ≡ y
  pub cmp_refl : (x : K) → cmp x x ≡ eq
  pub lt_of_gt : (x y : K) → cmp x y ≡ gt → cmp y x ≡ lt

pub compare-IsLawful : IsLawful ℕ compare
compare-IsLawful = ground arith

pub record Ord (K : Type 0) : Type 0 where
  pub cmp : K → K → Ordering
  pub lawful : IsLawful K cmp
  pub open lawful use *

instance unfoldable pub nat_ord : Ord ℕ
nat_ord = record { lawful = compare-IsLawful; cmp = compare }

-- The first key stands in front of the second.
infix 50 ◌≺◌
abbrev pub ◌≺◌ : {K : Type 0} ⦃o : Ord K⦄ → K → K → Type 0
◌≺◌ ⦃o⦄ x y = o.cmp x y ≡ lt
