-- ===== src/Builder/Balance.antt =====
-- What passes the check of `build_internal`, and what an error of it says.
use masp.Base.{
  ◌≡◌, ◌↔◌, refl, ap, ap₂, sym, ◌∙◌, true, ◌^◌, ◌<◌, some, Option-cases, inl, inr, List, [], ◌∷◌,
  map, All, arith, Bool-cases,
}
use masp.Base.Int.{ℤ, pos, ◌+ℤ◌, ◌-ℤ◌, -ℤ_cancel, zero-+ℤ, int_laws}
use masp.Base.Bytes.{Bytes}
use masp.Base.Result.{Result, ok, err}
use masp.Words.{i128, u64, in_range}
use masp.AssetType.Bits.{bytes_ord}
use masp.Amount
use masp.Amount.{ValueSum, get, from_pair, from_sum, is_zero, zero_sum}
use masp.Amount.Add.{checked_sub_sound, sum_sound, total}
use masp.Amount.Scale.{neg_sound, from_sum_lem}
use masp.Amount.Single.{only, from_pair-IsValid, get-from_pair}
use masp.Amount.Valid.{IsValid, Valid-ext, zero-IsValid, get-zero}
use masp.Merkle.Hash.{Hashable}
use masp.Sapling.{SaplingCrypto}
use masp.SaplingBuilder.{ScalarField}
use masp.SaplingBuilder.Totals.{total_of, net}
use masp.SaplingBuilder.Consistent.{Reaches, Reaches-IsConsistent}
use masp.SaplingBuilder.Invariant.{fits_i128}
use masp.Transparent
use masp.Transparent.{TxOut, TransparentBuilder, builder_balance}
use masp.Builder.{Builder, Error, insufficient_funds, value_balance, check_balance}

abbrev pub coin : Bytes → TxOut → ℤ
coin k out = only out.asset_type (pos out.value) k

abbrev coins : List TxOut → List (ValueSum Bytes)
coins outs = map (λ out. from_pair out.asset_type (pos out.value)) outs

coins-IsValid :
    (outs : List TxOut) → All (λ out. out.value < 2 ^ 64) outs → All (IsValid i128) (coins outs)
coins-IsValid [] h = tt
coins-IsValid (out ∷ outs) (small, h) = (
  from_pair-IsValid i128 out.asset_type (pos out.value) (fits_i128 out.value small),
  coins-IsValid outs h,
)

total-coins : (outs : List TxOut) (k : Bytes) → total i128 (coins outs) k ≡ total_of (coin k) outs
total-coins [] k = refl
total-coins (out ∷ outs) k =
    ap₂ ◌+ℤ◌ (get-from_pair out.asset_type (pos out.value) k) (total-coins outs k)

-- Inputs less outputs.
abbrev pub transparent_net : TransparentBuilder → Bytes → ℤ
transparent_net t k = total_of (coin k) t.inputs -ℤ total_of (coin k) t.vout

builder_balance_sound :
    (t : TransparentBuilder) (s : ValueSum Bytes)
    → All (λ out. out.value < 2 ^ 64) t.inputs
    → All (λ out. out.value < 2 ^ 64) t.vout
    → builder_balance t ≡ some s
    → IsValid i128 s × ((k : Bytes) → get s k ≡ transparent_net t k)
unfolding builder_balance Transparent.balance
builder_balance_sound t s hi ho e = elim (Option-cases (Amount.sum i128 (coins t.inputs))) [
  | inl n ↦ absurd (ground (arith, n, e))
  | inr (a, ea) ↦ elim (Option-cases (Amount.sum i128 (coins t.vout))) [
    | inl n ↦ absurd (ground (arith, ea, n, e))
    | inr (b, eb) ↦
        let (va, ga) = sum_sound i128 (coins t.inputs) {s = a} (coins-IsValid t.inputs hi) ea in
        let (vb, gb) = sum_sound i128 (coins t.vout) {s = b} (coins-IsValid t.vout ho) eb in
        let difference : Amount.sub i128 a b ≡ some s = ground (arith, ea, eb, e) in
        let (v, g) = checked_sub_sound i128 a b va vb {s = s} (unfold Amount.sub in difference) in
        (v, λ k. g k ∙ ap₂ ◌-ℤ◌ (ga k ∙ total-coins t.inputs k) (gb k ∙ total-coins t.vout k))
  ]
]

empty_of : (m : ValueSum Bytes) → is_zero m ≡ true → m ≡ zero_sum
unfolding is_zero zero_sum
empty_of [] e = refl
empty_of (p ∷ m) e = cc e

equal_of_zero : (x y : ℤ) → x -ℤ y ≡ pos 0 → x ≡ y
equal_of_zero x y e = sym (-ℤ_cancel x y) ∙ ap (λ z. z +ℤ y) e ∙ zero-+ℤ y

zero_of_equal : (x y : ℤ) → x ≡ y → x -ℤ y ≡ pos 0
zero_of_equal x y e = let self : y -ℤ y ≡ pos 0 = omega int_laws in ap (λ z. z -ℤ y) e ∙ self

reversed : (x y : ℤ) → pos 0 -ℤ (x -ℤ y) ≡ y -ℤ x
reversed x y = omega int_laws

-- A sum of unsigned amounts is valid for i128.
widen_value : (x : ℤ) → in_range u64 x ≡ true → in_range i128 x ≡ true
unfolding in_range
widen_value x h = ground (arith, h)

widen : (m : ValueSum Bytes) → IsValid u64 m → IsValid i128 m
widen m v = record {
  sorted = v.sorted;
  nonzero = v.nonzero;
  ranged = λ k x e. widen_value x (v.ranged k x e);
}

zero_iff :
    (m : ValueSum Bytes) → IsValid i128 m → (is_zero m ≡ true) ↔ ((k : Bytes) → get m k ≡ pos 0)
zero_iff m v = (
  λ e k. let none_left : m ≡ zero_sum = empty_of m e in rw none_left (get-zero k),
  λ h.
      let same : m ≡ zero_sum =
        Valid-ext i128 i128 m zero_sum v (zero-IsValid i128) (λ k. h k ∙ sym (get-zero k)) in
      rw same (unfold is_zero zero_sum in refl),
)

module _ (c : SaplingCrypto) (F : ScalarField c) (H : Hashable Bytes) {P Key : Type 0} where
  -- A builder whose transparent coins have values of 64 bits, and whose shielded part the methods
  -- have made.
  pub record IsMade (b : Builder c P Key) : Type 0 where
    pub inputs : All (λ out. out.value < 2 ^ 64) b.transparent_builder.inputs
    pub vout : All (λ out. out.value < 2 ^ 64) b.transparent_builder.vout
    pub shielded : Reaches c F H b.sapling_builder

  -- What the transaction takes in, less what it pays out.
  abbrev pub surplus : Builder c P Key → Bytes → ℤ
  surplus b k = transparent_net b.transparent_builder k +ℤ net b.sapling_builder k

  value_balance_sound :
      (b : Builder c P Key) (s : ValueSum Bytes)
      → IsMade b
      → value_balance c b ≡ some s
      → IsValid i128 s × ((k : Bytes) → get s k ≡ surplus b k)
  unfolding value_balance
  value_balance_sound b s m e = elim (Option-cases (builder_balance b.transparent_builder)) [
    | inl n ↦ absurd (ground (arith, n, e))
    | inr (t, et) ↦
        let h = Reaches-IsConsistent c F H b.sapling_builder m.shielded in
        let (vt, gt) = builder_balance_sound b.transparent_builder t m.inputs m.vout et in
        let parts = t ∷ b.sapling_builder.value_balance ∷ [] in
        let summed : Amount.sum i128 parts ≡ some s = ground (arith, et, e) in
        let (v, g) = sum_sound i128 parts {s = s} (vt, (h.valid, tt)) summed in
        let drop_zero : (x y : ℤ) → x +ℤ (y +ℤ pos 0) ≡ x +ℤ y = λ x y. omega int_laws in
        (
          v,
          λ k.
              g k
              ∙ drop_zero (get t k) (get b.sapling_builder.value_balance k)
              ∙ ap₂ ◌+ℤ◌ (gt k) (h.worth k),
        )
  ]

  -- For a builder whose transparent coins have values of 64 bits and whose shielded part the
  -- methods have made, and a valid fee: where the check of build_internal does not overflow, it
  -- passes exactly if, of every asset, the transparent inputs, the spends and the conversions are
  -- worth the outputs of both kinds and the fee; and where it fails with InsufficientFunds, the
  -- amounts in the error are what is missing of each asset.
  pub check_balance_lem :
      {FeeError : Type 0} (b : Builder c P Key) (required : ValueSum Bytes)
      (r : Result (Error FeeError) (Unit {0}))
      → IsMade b
      → IsValid u64 required
      → check_balance c b required ≡ some r
      → ((r ≡ ok tt) ↔ ((k : Bytes) → surplus b k ≡ get required k))
        × ((missing : ValueSum Bytes)
            → r ≡ err (insufficient_funds missing)
            → (k : Bytes) → get missing k ≡ get required k -ℤ surplus b k)
  unfolding check_balance
  check_balance_lem b required r m vu e = elim (Option-cases (value_balance c b)) [
    | inl n ↦ absurd (ground (arith, n, e))
    | inr (all, ea) ↦
        let (va, ga) = value_balance_sound b all m ea in
        let vf = widen required vu in
        let ef : from_sum required ≡ some required = from_sum_lem u64 required vu in
        elim (Option-cases (Amount.sub i128 all required)) [
          | inl n ↦ absurd (ground (arith, ea, ef, n, e))
          | inr (left, el) ↦
              let (vl, gl) =
                checked_sub_sound i128 all required va vf {s = left} (unfold Amount.sub in el) in
              let values : (k : Bytes) → get left k ≡ surplus b k -ℤ get required k =
                λ k. gl k ∙ ap (λ x. x -ℤ get required k) (ga k) in
              elim (Bool-cases (is_zero left)) [
                | inl t ↦
                    let passed : ok tt ≡ r = ground (arith, ea, ef, el, t, e) in
                    (
                      (
                        λ p k.
                            equal_of_zero (surplus b k) (get required k)
                              (sym (values k) ∙ (zero_iff left vl).0 t k),
                        λ h. sym passed,
                      ),
                      λ missing p. absurd (cc (passed, p)),
                    )
                | inr f ↦ elim (Option-cases (Amount.neg i128 left)) [
                  | inl n ↦ absurd (ground (arith, ea, ef, el, f, n, e))
                  | inr (short, es) ↦
                      let failed : err (insufficient_funds short) ≡ r =
                        ground (arith, ea, ef, el, f, es, e) in
                      let (vs, gs) = neg_sound i128 left {s = short} vl es in
                      (
                        (
                          λ p. absurd (cc (failed, p)),
                          λ h.
                              let z : is_zero left ≡ true = (zero_iff left vl).1 (λ k.
                                values k ∙ zero_of_equal (surplus b k) (get required k) (h k)) in
                              absurd (cc (z, f)),
                        ),
                        λ missing p k.
                            let same : missing ≡ short = cc (failed, p) in
                            rw same (
                              gs k
                              ∙ ap (λ x. pos 0 -ℤ x) (values k)
                              ∙ reversed (surplus b k) (get required k)),
                      )
                ]
              ]
        ]
  ]
