-- ===== src/Amount/Scale.antt =====
-- `Mul`, `Neg`, `try_from_sum` and `from_sum`: a function of every amount.
use masp.Base.{
  ◌≡◌, refl, ap, sym, ◌∙◌, ◌≢◌, true, Option, none, some, Option-cases, inl, inr, arith,
}
use masp.Base.{[], subst}
use masp.Base.Int.{ℤ, pos, ◌*ℤ◌, ◌-ℤ◌, ◌+ℤ◌, int_laws}
use masp.Base.Ord.{Ord}
use masp.BTreeMap
use masp.BTreeMap.{BTreeMap, retain}
use masp.BTreeMap.Fold.{
  insert_each, over, insert_each-IsSorted, get-insert_each, insert_each_defined, insert_each-total,
}
use masp.Words
use masp.Words.{IntType, in_range, checked, checked-some, checked_result}
use masp.Amount.{
  ValueSum, get, is_nonzero, map_components, mul, neg, try_from_sum, from_sum, add, zero_sum,
}
use masp.Amount.Add.{get-in_range, checked_add-eq}
use masp.Amount.Valid.{IsValid, Valid-ext, zero-IsValid, get-zero}
use masp.Amount.Combine.{Ranged, retain-IsValid, get-retain_nonzero}

-- `f` computes `g` on the values of the type `t`, into the type `u`.
abbrev pub Computes : IntType → IntType → (ℤ → Option ℤ) → (ℤ → ℤ) → Type 0
Computes t u f g =
    (x v : ℤ) → in_range t x ≡ true → f x ≡ some v → (v ≡ g x) × (in_range u v ≡ true)

module _ {K : Type 0} ⦃o : Ord K⦄ (t u : IntType) (f : ℤ → Option ℤ) (g : ℤ → ℤ) where
  module _ (m : ValueSum K) (c : BTreeMap K ℤ) (vm : IsValid t m) (computes : Computes t u f g)
      (e : insert_each (λ k x. f x) m [] ≡ some c) where
    written : (k : K) → BTreeMap.get c k ≡ over (λ k x. f x) k (BTreeMap.get m k) none
    unfolding BTreeMap.get
    written k = get-insert_each (λ k x. f x) m [] c k vm.sorted e

    mapped-Ranged : Ranged u c
    mapped-Ranged k v h = elim (Option-cases (BTreeMap.get m k)) [
      | inl n ↦ absurd (ground (arith, written k, n))
      | inr (x, s) ↦ ground (arith, written k, s, computes x v (vm.ranged k x s))
    ]

    mapped_value : g (pos 0) ≡ pos 0 → (k : K) → get c k ≡ g (get m k)
    unfolding get
    mapped_value z k = elim (Option-cases (BTreeMap.get m k)) [
      | inl n ↦ ground (arith, written k, n)
      | inr (x, s) ↦ elim (Option-cases (f x)) [
        | inl n ↦ absurd (insert_each_defined (λ k x. f x) m [] c k x e s n)
        | inr (v, d) ↦ ground (arith, written k, s, d, computes x v (vm.ranged k x s) d)
      ]
    ]

  pub map_components_sound :
      (m : ValueSum K) {s : ValueSum K}
      → g (pos 0) ≡ pos 0
      → Computes t u f g
      → IsValid t m
      → map_components f m ≡ some s
      → IsValid u s × ((k : K) → get s k ≡ g (get m k))
  map_components_sound m {s} z computes vm e = elim (Option-cases (insert_each (λ k x. f x) m [])) [
    | inl n ↦ absurd (unfold map_components in ground (arith, n, e))
    | inr (c, ec) ↦
        let sorted = insert_each-IsSorted (λ k x. f x) m [] c tt ec in
        let result : s ≡ retain is_nonzero c = unfold map_components in ground (arith, ec, e) in
        rw result (
          retain-IsValid u c sorted (mapped-Ranged m c vm computes ec),
          λ k. get-retain_nonzero c k sorted ∙ mapped_value m c vm computes ec z k,
        )
  ]

  pub map_components_total :
      (m : ValueSum K)
      → IsValid t m
      → ((k : K) (x : ℤ) → BTreeMap.get m k ≡ some x → f x ≢ none)
      → (s : ValueSum K) × (map_components f m ≡ some s)
  map_components_total m vm d =
      let (c, ec) = insert_each-total (λ k x. f x) m [] vm.sorted d in
      (retain is_nonzero c, unfold map_components in ground (arith, ec))

-- A checked function fails on no sum whose results are the amounts of a valid sum.
module _ {K : Type 0} ⦃o : Ord K⦄ (t u : IntType) (g : ℤ → ℤ) (z : g (pos 0) ≡ pos 0) where
  pub checked_components_sound :
      (m : ValueSum K) {s : ValueSum K}
      → IsValid t m
      → map_components (λ x. checked u (g x)) m ≡ some s
      → IsValid u s × ((k : K) → get s k ≡ g (get m k))
  checked_components_sound m vm e =
      map_components_sound t u (λ x. checked u (g x)) g m z (λ x v r h. checked_result u (g x) h) vm
        e

  pub checked_components-eq :
      (m s : ValueSum K)
      → IsValid t m
      → IsValid u s
      → ((k : K) → get s k ≡ g (get m k))
      → map_components (λ x. checked u (g x)) m ≡ some s
  checked_components-eq m s vm vs h =
      let (r, e) = map_components_total t u (λ x. checked u (g x)) g m vm defined in
      let (vr, hr) = checked_components_sound m vm e in
      cc (e, Valid-ext u u r s vr vs (λ k. hr k ∙ sym (h k)))
    where
      fits : (k : K) → in_range u (g (get m k)) ≡ true
      fits k = subst (λ x. in_range u x ≡ true) (h k) (get-in_range u s k vs)

      defined : (k : K) (x : ℤ) → BTreeMap.get m k ≡ some x → checked u (g x) ≢ none
      defined k x e n =
          let r : in_range u (g x) ≡ true = unfold get in ground (arith, fits k, e) in
          cc (n, checked-some u (g x) r)

zero-*ℤ : (b : ℤ) → pos 0 *ℤ b ≡ pos 0
unfolding ◌*ℤ◌
zero-*ℤ b = ground arith

minus_zero : pos 0 -ℤ pos 0 ≡ pos 0
minus_zero = omega int_laws

neg_neg : (a : ℤ) → a ≡ pos 0 -ℤ (pos 0 -ℤ a)
neg_neg a = omega int_laws

add-neg : (a : ℤ) → pos 0 ≡ a +ℤ (pos 0 -ℤ a)
add-neg a = omega int_laws

module _ {K : Type 0} ⦃o : Ord K⦄ (t : IntType) (m : ValueSum K) {s : ValueSum K}
    (vm : IsValid t m) where
  pub neg_sound : neg t m ≡ some s → IsValid t s × ((k : K) → get s k ≡ pos 0 -ℤ get m k)
  neg_sound e =
      checked_components_sound t t (λ x. pos 0 -ℤ x) minus_zero m vm
        (unfold neg Words.checked_neg in e)

  -- Where the negation of a valid sum does not overflow, negating it again gives back the sum.
  pub neg_involutive : neg t m ≡ some s → neg t s ≡ some m
  neg_involutive e =
      let (vs, h) = neg_sound e in
      unfold neg Words.checked_neg in
      checked_components-eq t t (λ x. pos 0 -ℤ x) minus_zero s m vs vm
        (λ k. neg_neg (get m k) ∙ ap (λ x. pos 0 -ℤ x) (sym (h k)))

  -- Where the negation of a valid sum does not overflow, adding it to the sum gives the sum with
  -- no components.
  pub add-neg_cancels : neg t m ≡ some s → add t m s ≡ some zero_sum
  add-neg_cancels e =
      let (vs, h) = neg_sound e in
      unfold add in
      checked_add-eq t m s zero_sum vm vs (zero-IsValid t)
        (λ k. get-zero k ∙ add-neg (get m k) ∙ ap (λ x. get m k +ℤ x) (sym (h k)))

  -- Where the product of a valid sum and a number does not overflow, it is valid and holds, of
  -- every asset, the product of the amount and the number.
  pub mul_sound :
      (rhs : ℤ) → mul t m rhs ≡ some s → IsValid t s × ((k : K) → get s k ≡ get m k *ℤ rhs)
  mul_sound rhs e =
      checked_components_sound t t (λ x. x *ℤ rhs) (zero-*ℤ rhs) m vm
        (unfold mul Words.checked_mul in e)

  -- Where a valid sum is converted to another integer type, the result is valid for that type and
  -- holds the same amount of every asset.
  pub try_from_sum_sound :
      (u : IntType) → try_from_sum u m ≡ some s → IsValid u s × ((k : K) → get s k ≡ get m k)
  try_from_sum_sound u e =
      checked_components_sound t u (λ x. x) refl m vm (unfold try_from_sum Words.try_into in e)

  -- Where a valid sum is converted to another integer type, converting the result back gives the
  -- sum.
  pub try_from_sum_back : (u : IntType) → try_from_sum u m ≡ some s → try_from_sum t s ≡ some m
  try_from_sum_back u e =
      let (vs, h) = try_from_sum_sound u e in
      unfold try_from_sum Words.try_into in
      checked_components-eq u t (λ x. x) refl s m vs vm (λ k. sym (h k))

module _ {K : Type 0} ⦃o : Ord K⦄ (t : IntType) (m : ValueSum K) (vm : IsValid t m) where
  pub from_sum_lem : from_sum m ≡ some m
  from_sum_lem =
      let (s, e) = map_components_total t t (λ x. some x) (λ x. x) m vm (λ k x h n. cc n) in
      let computes : Computes t t (λ x. some x) (λ x. x) = λ x v r h. ground (arith, r, h) in
      let (vs, h) = map_components_sound t t (λ x. some x) (λ x. x) m refl computes vm e in
      unfold from_sum in cc (e, Valid-ext t t s m vs vm h)
