-- ===== src/Amount.antt =====
-- `ValueSum` of masp_primitives/src/transaction/components/amount.rs: amounts of many assets.
-- `none` stands for `None`, and for the panic of an `expect` in an operator.
pub mod Valid
pub mod Combine
pub mod Add
pub mod Scale
pub mod Single
pub mod Codec
pub mod Order
use Prim.Native.Nat.{Ordering}
use Prim.Native.Nat.Ordering.{lt, eq, gt}
use masp.Base.{ℕ, Bool, true, false, not, Option, none, some, List, [], ◌∷◌, ◌++◌, if◌then◌else◌}
use masp.Base.Int.{ℤ, pos, negsuc, compare_ℤ, leb_ℤ, ◌+ℤ◌, ◌-ℤ◌}
use masp.Base.Ord.{Ord}
use masp.Base.Result.{Result, ok, err}
use masp.Words
use masp.Words.{IntType}
use masp.BTreeMap
use masp.BTreeMap.{BTreeMap, keys, retain}
use masp.BTreeMap.Fold.{insert_each}

-- `struct ValueSum(BTreeMap<Unit, Value>)`, over any of the integer types.
abbrev pub ValueSum : Type 0 → Type 0
ValueSum K = BTreeMap K ℤ

-- `*v != Value::default()`
abbrev pub is_nonzero : ℤ → Bool
is_nonzero v = elim (compare_ℤ v (pos 0)) [ eq ↦ false | _ ↦ true ]

module _ {K : Type 0} where
  unfoldable pub zero_sum : ValueSum K
  zero_sum = []

  unfoldable pub is_zero : ValueSum K → Bool
  is_zero [] = true
  is_zero (p ∷ m) = false

  unfoldable pub asset_types : ValueSum K → List K
  asset_types m = keys m

  unfoldable pub components : ValueSum K → List (K × ℤ)
  components m = m

module _ {K : Type 0} ⦃o : Ord K⦄ where
  unfoldable pub from_pair : K → ℤ → ValueSum K
  unfolding BTreeMap.insert zero_sum
  from_pair atype amount = if is_nonzero amount then BTreeMap.insert [] atype amount else zero_sum

  unfoldable pub from_nonnegative : K → ℤ → Result (Unit {0}) (ValueSum K)
  unfolding BTreeMap.insert zero_sum
  from_nonnegative atype amount =
      if is_nonzero amount
      then (if leb_ℤ (pos 0) amount then ok (BTreeMap.insert [] atype amount) else err tt)
      else ok zero_sum

  -- `From<Unit>`: one of the given asset.
  unfoldable pub from : K → ValueSum K
  unfolding BTreeMap.insert
  from atype = BTreeMap.insert [] atype (pos 1)

  -- `get`, and the `Index` operator.
  unfoldable pub get : ValueSum K → K → ℤ
  unfolding BTreeMap.get
  get m index = elim (BTreeMap.get m index) [ none ↦ pos 0 | some v ↦ v ]

  unfoldable pub project : ValueSum K → K → ValueSum K
  unfolding get from_pair
  project m index = from_pair index (get m index)

  unfoldable pub reject : ValueSum K → K → ValueSum K
  unfolding BTreeMap.remove
  reject m index = BTreeMap.remove m index

  -- The two loops of `checked_add` and `checked_sub`, which differ in the operation only.
  unfoldable pub combine : (ℤ → ℤ → Option ℤ) → ValueSum K → ValueSum K → Option (ValueSum K)
  unfolding insert_each get retain
  combine op a b = elim (insert_each (λ atype amount. op amount (pos 0)) a []) [
    | none ↦ none
    | some comps ↦ elim (insert_each (λ atype amount. op (get a atype) amount) b comps) [
      | none ↦ none
      | some comps' ↦ some (retain is_nonzero comps')
    ]
  ]

  unfoldable pub checked_add : IntType → ValueSum K → ValueSum K → Option (ValueSum K)
  unfolding combine Words.checked_add
  checked_add t a b = combine (Words.checked_add t) a b

  unfoldable pub checked_sub : IntType → ValueSum K → ValueSum K → Option (ValueSum K)
  unfolding combine Words.checked_sub
  checked_sub t a b = combine (Words.checked_sub t) a b

  -- `Add` and `AddAssign`: `checked_add(rhs).expect("overflow detected")`.
  unfoldable pub add : IntType → ValueSum K → ValueSum K → Option (ValueSum K)
  unfolding checked_add
  add t a b = checked_add t a b

  -- `Sub` and `SubAssign`.
  unfoldable pub sub : IntType → ValueSum K → ValueSum K → Option (ValueSum K)
  unfolding checked_sub
  sub t a b = checked_sub t a b

  -- A loop over the components that writes a value for each, and then drops the zeros.
  unfoldable pub map_components : (ℤ → Option ℤ) → ValueSum K → Option (ValueSum K)
  unfolding insert_each retain
  map_components f m = elim (insert_each (λ atype amount. f amount) m []) [
    | none ↦ none
    | some comps ↦ some (retain is_nonzero comps)
  ]

  unfoldable pub mul : IntType → ValueSum K → ℤ → Option (ValueSum K)
  unfolding map_components Words.checked_mul
  mul t m rhs = map_components (λ amount. Words.checked_mul t amount rhs) m

  unfoldable pub neg : IntType → ValueSum K → Option (ValueSum K)
  unfolding map_components Words.checked_neg
  neg t m = map_components (Words.checked_neg t) m

  -- Into a sum over the integer type `t`.
  unfoldable pub try_from_sum : IntType → ValueSum K → Option (ValueSum K)
  unfolding map_components Words.try_into
  try_from_sum t m = map_components (Words.try_into t) m

  -- Into a sum over a wider type, `Output: From<Value>`: no value is refused.
  unfoldable pub from_sum : ValueSum K → Option (ValueSum K)
  unfolding map_components
  from_sum m = map_components (λ amount. some amount) m

  -- `Sum`: a fold by `Add`, from zero.
  unfoldable pub sum_from : IntType → ValueSum K → List (ValueSum K) → Option (ValueSum K)
  unfolding add
  sum_from t acc [] = some acc
  sum_from t acc (m ∷ ms) = elim (add t acc m) [ none ↦ none | some acc' ↦ sum_from t acc' ms ]

  unfoldable pub sum : IntType → List (ValueSum K) → Option (ValueSum K)
  unfolding sum_from zero_sum
  sum t ms = sum_from t zero_sum ms

-- One round of the loop in `partial_cmp`; `none` is a sum that cannot be compared.
unfoldable pub cmp_step : Ordering → Option Ordering → Option Ordering
cmp_step eq acc = acc
cmp_step lt (some gt) = none
cmp_step lt none = none
cmp_step lt (some _) = some lt
cmp_step gt (some lt) = none
cmp_step gt none = none
cmp_step gt (some _) = some gt

module _ {K : Type 0} ⦃o : Ord K⦄ where
  unfoldable pub cmp_loop : ValueSum K → ValueSum K → List K → Option Ordering → Option Ordering
  unfolding get cmp_step
  cmp_loop a b [] ordering = ordering
  cmp_loop a b (k ∷ ks) ordering =
      cmp_loop a b ks (cmp_step (compare_ℤ (get a k) (get b k)) ordering)

  -- The loop runs over the keys of one sum and then over those of the other.
  unfoldable pub partial_cmp : ValueSum K → ValueSum K → Option Ordering
  unfolding cmp_loop
  partial_cmp a b = cmp_loop a b (keys a ++ keys b) (some eq)
