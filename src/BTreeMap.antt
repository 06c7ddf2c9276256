-- ===== src/BTreeMap.antt =====
-- `std::collections::BTreeMap`, as the code uses it: a list of entries with the keys strictly
-- ascending, which is the order of its iterators.
pub mod Sorted
pub mod Fold
pub mod Ext
use Prim.Native.Nat.Ordering.{lt, eq, gt}
use mathlib.Core.Bool.{Bool, true, false}
use mathlib.Core.Option.{Option, none, some}
use mathlib.Core.List.{List, [], ◌∷◌, map}
use masp.Base.{if◌then◌else◌}
use masp.Base.Ord.{Ord}

abbrev pub BTreeMap : Type 0 → Type 0 → Type 0
BTreeMap K V = List (K × V)

module _ {K : Type 0} {V : Type 0} where
  abbrev pub keys : BTreeMap K V → List K
  keys m = map (λ p. p.0) m

  -- Keeps the entries whose value passes the test.
  unfoldable pub retain : (V → Bool) → BTreeMap K V → BTreeMap K V
  retain p [] = []
  retain p ((k, v) ∷ m) = if p v then (k, v) ∷ retain p m else retain p m

module _ {K : Type 0} {V : Type 0} ⦃o : Ord K⦄ where
  unfoldable pub get : BTreeMap K V → K → Option V
  get [] q = none
  get ((k, v) ∷ m) q = elim (o.cmp q k) [ eq ↦ some v | _ ↦ get m q ]

  -- A key that is present keeps its place and gets the new value.
  unfoldable pub insert : BTreeMap K V → K → V → BTreeMap K V
  insert [] q w = (q, w) ∷ []
  insert ((k, v) ∷ m) q w = elim (o.cmp q k) [
    | lt ↦ (q, w) ∷ (k, v) ∷ m
    | eq ↦ (k, w) ∷ m
    | gt ↦ (k, v) ∷ insert m q w
  ]

  unfoldable pub remove : BTreeMap K V → K → BTreeMap K V
  remove [] q = []
  remove ((k, v) ∷ m) q = elim (o.cmp q k) [ eq ↦ m | _ ↦ (k, v) ∷ remove m q ]
