-- ===== src/Amount/Single.antt =====
-- Sums of one asset: `from_pair`, `from_nonnegative`, `project` and `reject`.
use Prim.Native.Nat.Ordering.{eq}
use masp.Base.{◌≡◌, ◌≢◌, ◌↔◌, true, some, arith}
use masp.Base.Int.{ℤ, pos, ◌≤ℤ◌, +ℤ-zero, zero-+ℤ}
use masp.Base.Ord.{Ord}
use masp.Base.Result.{ok, err}
use masp.BTreeMap
use masp.BTreeMap.Sorted.{IsSorted, get-remove, remove-IsSorted}
use masp.Words.{IntType, in_range}
use masp.Amount.{ValueSum, get, zero_sum, from_pair, from_nonnegative, project, reject, checked_add}
use masp.Amount.Add.{get-in_range, checked_add-eq}
use masp.Amount.Valid.{IsValid}

module _ {K : Type 0} ⦃o : Ord K⦄ where
  -- An amount at one asset, and nothing elsewhere.
  abbrev pub only : K → ℤ → K → ℤ
  only k v q = elim (o.cmp q k) [ eq ↦ v | _ ↦ pos 0 ]

  pub from_pair-IsValid :
      (t : IntType) (k : K) (v : ℤ) → in_range t v ≡ true → IsValid t (from_pair k v)
  from_pair-IsValid t k v r = record {
    sorted = unfold from_pair BTreeMap.insert zero_sum in ground arith;
    nonzero = λ q. unfold from_pair BTreeMap.insert BTreeMap.get zero_sum in ground arith;
    ranged = λ q x. unfold from_pair BTreeMap.insert BTreeMap.get zero_sum in ground (arith, r);
  }

  pub get-from_pair : (k : K) (v : ℤ) (q : K) → get (from_pair k v) q ≡ only k v q
  unfolding from_pair get
  get-from_pair k v q = ground arith

  -- from_nonnegative fails exactly on the negative amounts, and is from_pair exactly on the
  -- others.
  pub from_nonnegative_lem :
      (k : K) (v : ℤ)
      → ((from_nonnegative k v ≡ err tt) ↔ (v ≢ pos 0) × (v ≤ℤ pos 0))
        × ((from_nonnegative k v ≡ ok (from_pair k v)) ↔ (pos 0 ≤ℤ v))
  unfolding from_nonnegative from_pair
  from_nonnegative_lem k v = ground arith

  project-IsValid : (t : IntType) (m : ValueSum K) (k : K) → IsValid t m → IsValid t (project m k)
  project-IsValid t m k v = unfold project in from_pair-IsValid t k (get m k) (get-in_range t m k v)

  get-project : (m : ValueSum K) (k q : K) → get (project m k) q ≡ only k (get m k) q
  get-project m k q = unfold project in get-from_pair k (get m k) q

  reject-IsValid : (t : IntType) (m : ValueSum K) (k : K) → IsValid t m → IsValid t (reject m k)
  reject-IsValid t m k v = record {
    sorted = unfold reject in remove-IsSorted m k v.sorted;
    nonzero = λ q. unfold reject in ground (arith, get-remove m k q v.sorted, v.nonzero q);
    ranged = λ q x. unfold reject in ground (arith, get-remove m k q v.sorted, v.ranged q x);
  }

  get-reject :
      (m : ValueSum K) (k q : K)
      → IsSorted m
      → get (reject m k) q ≡ (elim (o.cmp q k) [ eq ↦ pos 0 | _ ↦ get m q ])
  get-reject m k q s = unfold reject get in ground (arith, get-remove m k q s)

  -- Of a valid sum, project holds the amount of the one asset and nothing else, reject holds the
  -- amounts of the others, and the two add up to the sum.
  pub project-reject :
      (t : IntType) (m : ValueSum K) (k : K)
      → IsValid t m
      → ((q : K) → get (project m k) q ≡ only k (get m k) q)
        × ((q : K) → get (reject m k) q ≡ (elim (o.cmp q k) [ eq ↦ pos 0 | _ ↦ get m q ]))
        × (checked_add t (project m k) (reject m k) ≡ some m)
  project-reject t m k v = (
    get-project m k,
    λ q. get-reject m k q v.sorted,
    checked_add-eq t (project m k) (reject m k) m (project-IsValid t m k v) (reject-IsValid t m k v)
        v
        λ q. ground (
          arith,
          get-project m k q,
          get-reject m k q v.sorted,
          o.eq_of_cmp q k,
          +ℤ-zero (get m q),
          zero-+ℤ (get m q),
        ),
  )
