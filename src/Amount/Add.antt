-- ===== src/Amount/Add.antt =====
-- `checked_add`, `checked_sub`, `Add`, `Sub` and `Sum` of `ValueSum`: addition asset by asset.
use masp.Base.{◌≡◌, ap, sym, ◌∙◌, ◌≢◌, ◌↔◌, true, none, some, Option-cases, inl, inr, arith}
use masp.Base.{List, [], ◌∷◌, All, subst}
use masp.Base.Int.{
  ℤ, pos, ◌+ℤ◌, ◌-ℤ◌, +ℤ-zero, -ℤ-zero, +ℤ_comm, +ℤ_assoc, +ℤ_cancel, -ℤ_cancel, zero-+ℤ,
}
use masp.Base.Ord.{Ord}
use masp.BTreeMap
use masp.Words
use masp.Words.{IntType, in_range, in_range-zero}
use masp.Amount.{ValueSum, get, zero_sum, checked_add, checked_sub, add, sum, sum_from}
use masp.Amount.Valid.{IsValid, Valid-ext, zero-IsValid, get-zero}
use masp.Amount.Combine.{combine_sound, combine_total}

module _ {K : Type 0} ⦃o : Ord K⦄ (t : IntType) where
  pub get-in_range : (m : ValueSum K) (k : K) → IsValid t m → in_range t (get m k) ≡ true
  unfolding get
  get-in_range m k v = elim (Option-cases (BTreeMap.get m k)) [
    | inl n ↦ ground (arith, n, in_range-zero t)
    | inr (x, e) ↦ ground (arith, e, v.ranged k x e)
  ]

  module _ (a b : ValueSum K) (va : IsValid t a) (vb : IsValid t b) where
    -- Where checked_add returns a sum of two valid sums, that sum is valid and holds, of every
    -- asset, the amounts of the two operands added.
    pub checked_add_sound :
        {s : ValueSum K}
        → checked_add t a b ≡ some s
        → IsValid t s × ((k : K) → get s k ≡ get a k +ℤ get b k)
    checked_add_sound e =
        combine_sound t ◌+ℤ◌ a b +ℤ-zero va vb (unfold checked_add Words.checked_add in e)

    pub checked_add_total :
        ((k : K) → in_range t (get a k +ℤ get b k) ≡ true)
        → (s : ValueSum K) × (checked_add t a b ≡ some s)
    checked_add_total r =
        unfold checked_add Words.checked_add in combine_total t ◌+ℤ◌ a b +ℤ-zero va vb r

    -- Where checked_sub returns a sum for two valid sums, that sum is valid and holds, of every
    -- asset, the difference of the amounts.
    pub checked_sub_sound :
        {s : ValueSum K}
        → checked_sub t a b ≡ some s
        → IsValid t s × ((k : K) → get s k ≡ get a k -ℤ get b k)
    checked_sub_sound e =
        combine_sound t ◌-ℤ◌ a b -ℤ-zero va vb (unfold checked_sub Words.checked_sub in e)

    pub checked_sub_total :
        ((k : K) → in_range t (get a k -ℤ get b k) ≡ true)
        → (s : ValueSum K) × (checked_sub t a b ≡ some s)
    checked_sub_total r =
        unfold checked_sub Words.checked_sub in combine_total t ◌-ℤ◌ a b -ℤ-zero va vb r

  -- A sum whose amounts are known is the one that an operation returns.
  pub checked_add-eq :
      (a b s : ValueSum K)
      → IsValid t a
      → IsValid t b
      → IsValid t s
      → ((k : K) → get s k ≡ get a k +ℤ get b k)
      → checked_add t a b ≡ some s
  checked_add-eq a b s va vb vs h =
      let fits = λ (k : K). subst (λ z. in_range t z ≡ true) (h k) (get-in_range s k vs) in
      let (r, e) = checked_add_total a b va vb fits in
      let (vr, hr) = checked_add_sound a b va vb e in
      cc (e, Valid-ext t t r s vr vs (λ k. hr k ∙ sym (h k)))

  checked_sub-eq :
      (a b s : ValueSum K)
      → IsValid t a
      → IsValid t b
      → IsValid t s
      → ((k : K) → get s k ≡ get a k -ℤ get b k)
      → checked_sub t a b ≡ some s
  checked_sub-eq a b s va vb vs h =
      let fits = λ (k : K). subst (λ z. in_range t z ≡ true) (h k) (get-in_range s k vs) in
      let (r, e) = checked_sub_total a b va vb fits in
      let (vr, hr) = checked_sub_sound a b va vb e in
      cc (e, Valid-ext t t r s vr vs (λ k. hr k ∙ sym (h k)))

  checked_add-swap :
      (a b : ValueSum K) {s : ValueSum K}
      → IsValid t a
      → IsValid t b
      → checked_add t a b ≡ some s
      → checked_add t b a ≡ some s
  checked_add-swap a b {s} va vb e =
      let (vs, h) = checked_add_sound a b va vb e in
      checked_add-eq b a s vb va vs (λ k. h k ∙ +ℤ_comm (get a k) (get b k))

  -- For valid sums, checked_add returns a sum exactly where the added amounts of every asset are
  -- in the range of the integer type.
  pub checked_add_defined :
      (a b : ValueSum K)
      → IsValid t a
      → IsValid t b
      → (checked_add t a b ≢ none) ↔ ((k : K) → in_range t (get a k +ℤ get b k) ≡ true)
  checked_add_defined a b va vb = (
    λ d k. elim (Option-cases (checked_add t a b)) [
      | inl n ↦ absurd (d n)
      | inr (s, e) ↦
          let (vs, h) = checked_add_sound a b va vb e in
          subst (λ z. in_range t z ≡ true) (h k) (get-in_range s k vs)
    ],
    λ r n. let (s, e) = checked_add_total a b va vb r in cc (n, e),
  )

  -- For valid sums, checked_sub returns a sum exactly where the difference of the amounts of every
  -- asset is in the range of the integer type.
  pub checked_sub_defined :
      (a b : ValueSum K)
      → IsValid t a
      → IsValid t b
      → (checked_sub t a b ≢ none) ↔ ((k : K) → in_range t (get a k -ℤ get b k) ≡ true)
  checked_sub_defined a b va vb = (
    λ d k. elim (Option-cases (checked_sub t a b)) [
      | inl n ↦ absurd (d n)
      | inr (s, e) ↦
          let (vs, h) = checked_sub_sound a b va vb e in
          subst (λ z. in_range t z ≡ true) (h k) (get-in_range s k vs)
    ],
    λ r n. let (s, e) = checked_sub_total a b va vb r in cc (n, e),
  )

  -- checked_add of two valid sums does not depend on their order, overflows included.
  pub checked_add_comm :
      (a b : ValueSum K) → IsValid t a → IsValid t b → checked_add t a b ≡ checked_add t b a
  checked_add_comm a b va vb = elim (Option-cases (checked_add t a b)) [
    | inr (s, e) ↦ e ∙ sym (checked_add-swap a b va vb e)
    | inl n ↦ elim (Option-cases (checked_add t b a)) [
      | inl m ↦ n ∙ sym m
      | inr (s, e) ↦ cc (checked_add-swap b a vb va e)
    ]
  ]

  -- For three valid sums, where the two partial sums and (a + b) + c do not overflow, a + (b + c)
  -- is the same sum.
  pub checked_add_assoc :
      (a b c : ValueSum K) {ab bc s : ValueSum K}
      → IsValid t a
      → IsValid t b
      → IsValid t c
      → checked_add t a b ≡ some ab
      → checked_add t b c ≡ some bc
      → checked_add t ab c ≡ some s
      → checked_add t a bc ≡ some s
  checked_add_assoc a b c {ab} {bc} {s} va vb vc e f g =
      let (vab, hab) = checked_add_sound a b va vb e in
      let (vbc, hbc) = checked_add_sound b c vb vc f in
      let (vs, hs) = checked_add_sound ab c vab vc g in
      checked_add-eq a bc s va vbc vs
        (λ k. rw (hs k, hab k, hbc k) (+ℤ_assoc (get a k) (get b k) (get c k)))

  -- For valid sums, subtracting what was added gives back the first sum.
  pub checked_sub-checked_add :
      (a b : ValueSum K) {s : ValueSum K}
      → IsValid t a
      → IsValid t b
      → checked_add t a b ≡ some s
      → checked_sub t s b ≡ some a
  checked_sub-checked_add a b {s} va vb e =
      let (vs, h) = checked_add_sound a b va vb e in
      checked_sub-eq s b a vs vb va (λ k. rw (h k) (sym (+ℤ_cancel (get a k) (get b k))))

  -- For valid sums, adding what was subtracted gives back the first sum.
  pub checked_add-checked_sub :
      (a b : ValueSum K) {s : ValueSum K}
      → IsValid t a
      → IsValid t b
      → checked_sub t a b ≡ some s
      → checked_add t s b ≡ some a
  checked_add-checked_sub a b {s} va vb e =
      let (vs, h) = checked_sub_sound a b va vb e in
      checked_add-eq s b a vs vb va (λ k. rw (h k) (sym (-ℤ_cancel (get a k) (get b k))))

  -- The mathematical sum of the amounts of one asset.
  abbrev pub total : List (ValueSum K) → K → ℤ
  total [] k = pos 0
  total (m ∷ ms) k = get m k +ℤ total ms k

  sum_from_sound :
      (acc : ValueSum K) (ms : List (ValueSum K)) {s : ValueSum K}
      → IsValid t acc
      → All (IsValid t) ms
      → sum_from t acc ms ≡ some s
      → IsValid t s × ((k : K) → get s k ≡ get acc k +ℤ total ms k)
  sum_from_sound acc [] {s} v vs e =
      let same : acc ≡ s = unfold sum_from in ground (arith, e) in
      rw (← same) (v, λ k. sym (+ℤ-zero (get acc k)))
  sum_from_sound acc (m ∷ ms) {s} v (vm, vms) e = elim (Option-cases (add t acc m)) [
    | inl n ↦ absurd (unfold sum_from in ground (arith, n, e))
    | inr (acc', f) ↦
        let (v', h') = checked_add_sound acc m v vm {s = acc'} (unfold add in f) in
        let (vs, h) =
          sum_from_sound acc' ms {s = s} v' vms (unfold sum_from in ground (arith, f, e)) in
        (vs, λ k. rw (h k, h' k) (+ℤ_assoc (get acc k) (get m k) (total ms k)))
  ]

  -- Where the Sum of a list of valid sums does not overflow, it is valid and holds, of every
  -- asset, the mathematical sum of the amounts.
  pub sum_sound :
      (ms : List (ValueSum K)) {s : ValueSum K}
      → All (IsValid t) ms
      → sum t ms ≡ some s
      → IsValid t s × ((k : K) → get s k ≡ total ms k)
  sum_sound ms {s} vs e =
      let (v, h) = sum_from_sound zero_sum ms {s = s} (zero-IsValid t) vs (unfold sum in e) in
      (v, λ k. h k ∙ ap (λ z. z +ℤ total ms k) (get-zero k) ∙ zero-+ℤ (total ms k))
