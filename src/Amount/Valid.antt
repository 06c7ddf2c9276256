-- ===== src/Amount/Valid.antt =====
-- The representation invariant of `ValueSum`: the keys in order, no zero entry, every value in
-- range. Such a sum is determined by the amounts that it holds.
use masp.Base.{◌≡◌, refl, ◌≢◌, true, Option, none, some, if◌then◌else◌, arith}
use masp.Base.Int.{ℤ, pos}
use masp.Base.Ord.{Ord}
use masp.BTreeMap
use masp.BTreeMap.Sorted.{IsSorted}
use masp.BTreeMap.Ext.{ext}
use masp.Words.{IntType, in_range}
use masp.Amount.{ValueSum, get, zero_sum, is_nonzero}

-- What a lookup finds, from the amount.
abbrev pub entry : ℤ → Option ℤ
entry v = if is_nonzero v then some v else none

module _ {K : Type 0} ⦃o : Ord K⦄ where
  pub record IsValid (t : IntType) (m : ValueSum K) : Type 0 where
    pub sorted : IsSorted m
    pub nonzero : (k : K) → BTreeMap.get m k ≢ some (pos 0)
    pub ranged : (k : K) (v : ℤ) → BTreeMap.get m k ≡ some v → in_range t v ≡ true

  pub get-entry :
      (m : ValueSum K) (k : K)
      → BTreeMap.get m k ≢ some (pos 0)
      → BTreeMap.get m k ≡ entry (get m k)
  unfolding get
  get-entry m k h = ground arith

  pub Valid-ext :
      (t u : IntType) (a b : ValueSum K)
      → IsValid t a
      → IsValid u b
      → ((k : K) → get a k ≡ get b k)
      → a ≡ b
  Valid-ext t u a b va vb h =
      ext a b va.sorted vb.sorted
        λ k. cc (get-entry a k (va.nonzero k), get-entry b k (vb.nonzero k), h k)

  pub zero-IsValid : (t : IntType) → IsValid t zero_sum
  unfolding zero_sum BTreeMap.get
  zero-IsValid t = record { sorted = tt; nonzero = λ k. ground arith; ranged = λ k v e. cc }

  pub get-zero : (k : K) → get zero_sum k ≡ pos 0
  unfolding zero_sum get BTreeMap.get
  get-zero k = refl
