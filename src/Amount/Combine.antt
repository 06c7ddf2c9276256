-- ===== src/Amount/Combine.antt =====
-- The loops of `ValueSum` in general: a checked operation on the amounts of two sums, and a
-- checked function of the amounts of one.
use masp.Base.{◌≡◌, ◌∙◌, ◌≢◌, true, Option, none, some, Option-cases, inl, inr}
use masp.Base.{arith, []}
use masp.Base.Int.{ℤ, pos}
use masp.Base.Ord.{Ord}
use masp.BTreeMap
use masp.BTreeMap.{BTreeMap, retain}
use masp.BTreeMap.Sorted.{IsSorted, get-retain, retain-IsSorted}
use masp.BTreeMap.Fold.{
  insert_each, over, insert_each-IsSorted, get-insert_each, insert_each_defined, insert_each-total,
}
use masp.Words.{IntType, in_range, checked, checked-some, checked_result, checked_defined}
use masp.Amount.{ValueSum, get, is_nonzero, combine}
use masp.Amount.Valid.{IsValid}

-- Dropping the zeros keeps every amount, and leaves a valid sum if the values were in range.
module _ {K : Type 0} ⦃o : Ord K⦄ where
  abbrev pub Ranged : IntType → BTreeMap K ℤ → Type 0
  Ranged t m = (k : K) (v : ℤ) → BTreeMap.get m k ≡ some v → in_range t v ≡ true

  pub retain-IsValid :
      (t : IntType) (m : BTreeMap K ℤ) → IsSorted m → Ranged t m → IsValid t (retain is_nonzero m)
  retain-IsValid t m s r = record {
    sorted = retain-IsSorted is_nonzero m s;
    nonzero = λ k. ground (arith, get-retain is_nonzero m k s);
    ranged = λ k v e. ground (arith, get-retain is_nonzero m k s, r k v);
  }

  pub get-retain_nonzero :
      (m : BTreeMap K ℤ) (k : K) → IsSorted m → get (retain is_nonzero m) k ≡ get m k
  unfolding get
  get-retain_nonzero m k s = ground (arith, get-retain is_nonzero m k s)

-- A checked operation, and what the two loops write at a key by it.
abbrev pub op : IntType → (ℤ → ℤ → ℤ) → ℤ → ℤ → Option ℤ
op t f x y = checked t (f x y)

module _ {K : Type 0} ⦃o : Ord K⦄ (t : IntType) (f : ℤ → ℤ → ℤ) where
  abbrev left : K → ℤ → Option ℤ
  left k x = op t f x (pos 0)

  abbrev right : ValueSum K → K → ℤ → Option ℤ
  right a k y = op t f (get a k) y

  abbrev Loops : ValueSum K → ValueSum K → BTreeMap K ℤ → BTreeMap K ℤ → Type 0
  Loops a b c d = (insert_each left a [] ≡ some c) × (insert_each (right a) b c ≡ some d)

  Loops-IsSorted : (a b : ValueSum K) (c d : BTreeMap K ℤ) → Loops a b c d → IsSorted d
  Loops-IsSorted a b c d (e, e') =
      insert_each-IsSorted (right a) b c d (insert_each-IsSorted left a [] c tt e) e'

  written :
      (a b : ValueSum K) (c d : BTreeMap K ℤ) (k : K)
      → Loops a b c d
      → IsValid t a
      → IsValid t b
      → BTreeMap.get d k ≡ over (right a) k (BTreeMap.get b k) (over left k (BTreeMap.get a k) none)
  unfolding BTreeMap.get
  written a b c d k loops va vb = ground (
    arith,
    get-insert_each left a [] c k va.sorted loops.0,
    get-insert_each (right a) b c d k vb.sorted loops.1,
  )

  -- The amount at a key is the operation on the two amounts, and is in range.
  Loops-value :
      (a b : ValueSum K) (c d : BTreeMap K ℤ) (k : K)
      → ((x : ℤ) → f x (pos 0) ≡ x)
      → Loops a b c d
      → IsValid t a
      → IsValid t b
      → get d k ≡ f (get a k) (get b k)
  unfolding get
  Loops-value a b c d k unit loops va vb = elim (Option-cases (BTreeMap.get b k)) [
    | inl nb ↦ elim (Option-cases (BTreeMap.get a k)) [
      | inl na ↦ ground (arith, written a b c d k loops va vb, na, nb, unit (pos 0))
      | inr (x, sa) ↦ ground (
        arith,
        written a b c d k loops va vb,
        sa,
        nb,
        checked_defined t (f x (pos 0)) (insert_each_defined left a [] c k x loops.0 sa),
      )
    ]
    | inr (y, sb) ↦ ground (
      arith,
      written a b c d k loops va vb,
      sb,
      checked_defined t (f (get a k) y) (insert_each_defined (right a) b c d k y loops.1 sb),
    )
  ]

  Loops-Ranged :
      (a b : ValueSum K) (c d : BTreeMap K ℤ)
      → Loops a b c d
      → IsValid t a
      → IsValid t b
      → Ranged t d
  Loops-Ranged a b c d loops va vb k v e = elim (Option-cases (BTreeMap.get b k)) [
    | inl nb ↦ elim (Option-cases (BTreeMap.get a k)) [
      | inl na ↦ absurd (ground (arith, written a b c d k loops va vb, na, nb))
      | inr (x, sa) ↦
          ground
            (arith, written a b c d k loops va vb, sa, nb, checked_result t (f x (pos 0)) {b = v})
    ]
    | inr (y, sb) ↦
        ground (arith, written a b c d k loops va vb, sb, checked_result t (f (get a k) y) {b = v})
  ]

  -- A combination that succeeds is a valid sum with the operation at every asset.
  pub combine_sound :
      (a b : ValueSum K) {s : ValueSum K}
      → ((x : ℤ) → f x (pos 0) ≡ x)
      → IsValid t a
      → IsValid t b
      → combine (op t f) a b ≡ some s
      → IsValid t s × ((k : K) → get s k ≡ f (get a k) (get b k))
  combine_sound a b {s} unit va vb e = elim (Option-cases (insert_each left a [])) [
    | inl n ↦ absurd (unfold combine in ground (arith, n))
    | inr (c, ec) ↦ elim (Option-cases (insert_each (right a) b c)) [
      | inl n ↦ absurd (unfold combine in ground (arith, ec, n))
      | inr (d, ed) ↦
          let sorted = Loops-IsSorted a b c d (ec, ed) in
          let result : s ≡ retain is_nonzero d = unfold combine in ground (arith, ec, ed) in
          rw result (
            retain-IsValid t d sorted (Loops-Ranged a b c d (ec, ed) va vb),
            λ k. get-retain_nonzero d k sorted ∙ Loops-value a b c d k unit (ec, ed) va vb,
          )
    ]
  ]

  -- A combination all of whose results are in range succeeds.
  pub combine_total :
      (a b : ValueSum K)
      → ((x : ℤ) → f x (pos 0) ≡ x)
      → IsValid t a
      → IsValid t b
      → ((k : K) → in_range t (f (get a k) (get b k)) ≡ true)
      → (s : ValueSum K) × (combine (op t f) a b ≡ some s)
  combine_total a b unit va vb r =
      let (c, ec) = insert_each-total left a [] va.sorted left_defined in
      let (d, ed) = insert_each-total (right a) b c vb.sorted right_defined in
      (retain is_nonzero d, unfold combine in ground (arith, ec, ed))
    where
      left_defined : (k : K) (x : ℤ) → BTreeMap.get a k ≡ some x → left k x ≢ none
      left_defined k x g = rw (unit x, checked-some t x (va.ranged k x g)) (λ n. cc)

      right_defined : (k : K) (y : ℤ) → BTreeMap.get b k ≡ some y → right a k y ≢ none
      right_defined k y g = unfold get in ground (arith, r k, checked-some t (f (get a k) y), g)
