-- ===== src/Amount/Order.antt =====
-- `partial_cmp` of `ValueSum`: the pointwise order.
use Prim.Native.Nat.{Ordering}
use Prim.Native.Nat.Ordering.{lt, eq, gt}
use masp.Base.{◌≡◌, refl, sym, ◌↔◌, true, false, Bool, Option, none, some, Option-cases}
use masp.Base.{inl, inr, arith, List, [], ◌∷◌, ◌++◌, All, subst}
use masp.Base.Int.{ℤ, pos, compare_ℤ, ◌≤ℤ◌, int_laws}
use masp.Base.Ord.{Ord}
use masp.BTreeMap
use masp.BTreeMap.{BTreeMap, keys}
use masp.Words.{IntType}
use masp.Amount.{ValueSum, get, cmp_step, cmp_loop, partial_cmp}
use masp.Amount.Valid.{IsValid, Valid-ext}

-- The operators `<=` and `>=` that Rust derives from `partial_cmp`.
abbrev pub is_le : Option Ordering → Bool
is_le none = false
is_le (some gt) = false
is_le (some _) = true

abbrev pub is_ge : Option Ordering → Bool
is_ge none = false
is_ge (some lt) = false
is_ge (some _) = true

step_le :
    (x y : ℤ) (acc : Option Ordering)
    → (is_le (cmp_step (compare_ℤ x y) acc) ≡ true) ↔ ((x ≤ℤ y) × (is_le acc ≡ true))
unfolding cmp_step
step_le x y acc = ground arith

step_ge :
    (x y : ℤ) (acc : Option Ordering)
    → (is_ge (cmp_step (compare_ℤ x y) acc) ≡ true) ↔ ((y ≤ℤ x) × (is_ge acc ≡ true))
unfolding cmp_step
step_ge x y acc = ground arith

is_le-is_ge : (r : Option Ordering) → is_le r ≡ true → is_ge r ≡ true → r ≡ some eq
is_le-is_ge r p q = ground arith

All-append :
    {A : Type 0} (P : A → Type 0) (xs ys : List A) → All P (xs ++ ys) ↔ (All P xs × All P ys)
All-append P [] ys = (λ h. (tt, h), λ h. h.1)
All-append P (x ∷ xs) ys =
    let (to, back) = All-append P xs ys in
    (λ h. ((h.0, (to h.1).0), (to h.1).1), λ h. (h.0.0, back (h.0.1, h.1)))

All-intro : {A : Type 0} (P : A → Type 0) (xs : List A) → ((x : A) → P x) → All P xs
All-intro P [] h = tt
All-intro P (x ∷ xs) h = (h x, All-intro P xs h)

module _ {K : Type 0} ⦃o : Ord K⦄ where
  loop_le :
      (a b : ValueSum K) (ks : List K) (acc : Option Ordering)
      → (is_le (cmp_loop a b ks acc) ≡ true)
        ↔ (All (λ k. get a k ≤ℤ get b k) ks × (is_le acc ≡ true))
  unfolding cmp_loop
  loop_le a b [] acc = (λ h. (tt, h), λ h. h.1)
  loop_le a b (k ∷ ks) acc =
      let acc' = cmp_step (compare_ℤ (get a k) (get b k)) acc in
      let (to, back) = loop_le a b ks acc' in
      let (here, there) = step_le (get a k) (get b k) acc in
      (
        λ h. let (rest, now) = to h in ((((here now).0, rest)), (here now).1),
        λ h. back (h.0.1, there (h.0.0, h.1)),
      )

  loop_ge :
      (a b : ValueSum K) (ks : List K) (acc : Option Ordering)
      → (is_ge (cmp_loop a b ks acc) ≡ true)
        ↔ (All (λ k. get b k ≤ℤ get a k) ks × (is_ge acc ≡ true))
  unfolding cmp_loop
  loop_ge a b [] acc = (λ h. (tt, h), λ h. h.1)
  loop_ge a b (k ∷ ks) acc =
      let acc' = cmp_step (compare_ℤ (get a k) (get b k)) acc in
      let (to, back) = loop_ge a b ks acc' in
      let (here, there) = step_ge (get a k) (get b k) acc in
      (
        λ h. let (rest, now) = to h in ((((here now).0, rest)), (here now).1),
        λ h. back (h.0.1, there (h.0.0, h.1)),
      )

  All-keys :
      (P : K → Type 0) (m : ValueSum K) (k : K) {v : ℤ}
      → All P (keys m)
      → BTreeMap.get m k ≡ some v
      → P k
  All-keys P [] k h e = unfold BTreeMap.get in cc e
  All-keys P ((j, u) ∷ m) k {v} (p, h) e =
      elim (o.cmp k j) as (λ c. o.cmp k j ≡ c → P k) [
        | eq ↦ λ c. subst P (sym (o.eq_of_cmp k j c)) p
        | lt ↦ λ c. All-keys P m k {v = v} h (unfold BTreeMap.get in ground (arith, c, e))
        | gt ↦ λ c. All-keys P m k {v = v} h (unfold BTreeMap.get in ground (arith, c, e))
      ]
        refl

  -- What holds of every key of two sums, and of zero amounts, holds of every asset.
  everywhere :
      (R : ℤ → ℤ → Type 0) (a b : ValueSum K)
      → R (pos 0) (pos 0)
      → All (λ k. R (get a k) (get b k)) (keys a ++ keys b)
      → (k : K) → R (get a k) (get b k)
  everywhere R a b z h k =
      let P = λ (k : K). R (get a k) (get b k) in
      let (ha, hb) = (All-append P (keys a) (keys b)).0 h in
      elim (Option-cases (BTreeMap.get a k)) [
        | inr (v, e) ↦ All-keys P a k ha e
        | inl na ↦ elim (Option-cases (BTreeMap.get b k)) [
          | inr (v, e) ↦ All-keys P b k hb e
          | inl nb ↦
              let za : get a k ≡ pos 0 = unfold get in ground (arith, na) in
              let zb : get b k ≡ pos 0 = unfold get in ground (arith, nb) in rw (za, zb) z
        ]
      ]

  -- partial_cmp answers Less or Equal exactly where the first sum holds at most the amount of the
  -- second, of every asset, those that neither sum lists included.
  pub partial_cmp-le :
      (a b : ValueSum K) → (is_le (partial_cmp a b) ≡ true) ↔ ((k : K) → get a k ≤ℤ get b k)
  unfolding partial_cmp
  partial_cmp-le a b =
      let (to, back) = loop_le a b (keys a ++ keys b) (some eq) in
      (
        λ h. everywhere ◌≤ℤ◌ a b (omega arith) (to h).0,
        λ h. back (All-intro (λ k. get a k ≤ℤ get b k) (keys a ++ keys b) h, refl),
      )

  -- partial_cmp answers Greater or Equal exactly where the first sum holds at least the amount of
  -- the second, of every asset.
  pub partial_cmp-ge :
      (a b : ValueSum K) → (is_ge (partial_cmp a b) ≡ true) ↔ ((k : K) → get b k ≤ℤ get a k)
  unfolding partial_cmp
  partial_cmp-ge a b =
      let (to, back) = loop_ge a b (keys a ++ keys b) (some eq) in
      (
        λ h. everywhere (λ x y. y ≤ℤ x) a b (omega arith) (to h).0,
        λ h. back (All-intro (λ k. get b k ≤ℤ get a k) (keys a ++ keys b) h, refl),
      )

  -- For valid sums, partial_cmp answers Equal exactly where the two sums are the same.
  pub partial_cmp-eq :
      (t : IntType) (a b : ValueSum K)
      → IsValid t a
      → IsValid t b
      → (partial_cmp a b ≡ some eq) ↔ (a ≡ b)
  partial_cmp-eq t a b va vb = (
    λ e.
        let le = (partial_cmp-le a b).0 (rw e refl) in
        let ge = (partial_cmp-ge a b).0 (rw e refl) in
        Valid-ext t t a b va vb (λ k. omega (int_laws, le k, ge k)),
    λ e.
        is_le-is_ge (partial_cmp a b) ((partial_cmp-le a b).1 (λ k. rw e (omega arith)))
          ((partial_cmp-ge a b).1 (λ k. rw e (omega arith))),
  )
