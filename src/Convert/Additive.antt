-- ===== src/Convert/Additive.antt =====
-- Adding and subtracting conversions keeps the generator that their assets stand for.
use masp.Base.{
  suc, ◌^◌, ◌%◌, ◌<◌, ◌≡◌, ◌≢◌, ap, ap₂, sym, ◌∙◌, none, some, Option-cases, inl, inr, [], ◌∷◌, All,
  arith, if◌then◌else◌,
}
use masp.Base.Int.{ℤ, pos, negsuc}
use masp.Base.Bytes.{Bytes}
use masp.Words.{i128, checked}
use masp.AssetType.{AssetCrypto, hash_to_point}
use masp.AssetType.Bits.{bytes_ord}
use masp.Amount
use masp.Amount.{ValueSum, components, checked_add, checked_sub}
use masp.Amount.Valid.{IsValid}
use masp.Amount.Add.{checked_sub_sound, checked_add-checked_sub}
use masp.Convert.{
  Group, AllowedConversion, magnitude, is_negative, value_balance, generator_loop, from, add, sub,
}
use masp.Convert.Multiples.{multiple, multiple-pos, multiple-negsuc, identity_plus, minus_plus}
use masp.Convert.Worth.{worth, worth-checked_add}
use masp.Convert.Codec.{IsFaithful}

-- Absolute values of 64 bits, which the cast keeps.
abbrev pub AllSmall : ValueSum Bytes → Type 0
AllSmall m = All (λ p. magnitude p.1 < 2 ^ 64) m

module _ (c : AssetCrypto) (g : Group c) where
  abbrev point : Bytes → c.Point
  point k = elim (hash_to_point c k) [ none ↦ g.identity | some p ↦ p ]

  abbrev total : ValueSum Bytes → c.Point
  total m = worth g point m

  balance_of :
      (k : Bytes) (v : ℤ) (p : c.Point)
      → value_balance c g k v ≡ some p
      → p ≡ (
          if is_negative v
          then g.negate (g.scale (magnitude v % 2 ^ 64) (point k))
          else g.scale (magnitude v % 2 ^ 64) (point k))
  balance_of k v p e = elim (Option-cases (checked i128 (pos (magnitude v)))) [
    | inl n ↦ absurd (unfold value_balance in ground (arith, n, e))
    | inr (x, r) ↦ elim (Option-cases (hash_to_point c k)) [
      | inl n ↦ absurd (unfold value_balance in ground (arith, r, n, e))
      | inr (q, h) ↦ unfold value_balance in ground (arith, r, h, e)
    ]
  ]

  balance_lem :
      (k : Bytes) (v : ℤ) (p : c.Point)
      → magnitude v < 2 ^ 64
      → value_balance c g k v ≡ some p
      → p ≡ multiple g v (point k)
  balance_lem k (pos n) p small e =
      let kept : n % 2 ^ 64 ≡ n = omega arith in
      balance_of k (pos n) p e
      ∙ ap (λ z. g.scale z (point k)) kept
      ∙ sym (multiple-pos g n (point k))
  balance_lem k (negsuc n) p small e =
      let kept : suc n % 2 ^ 64 ≡ suc n = omega arith in
      balance_of k (negsuc n) p e
      ∙ ap (λ z. g.negate (g.scale z (point k))) kept
      ∙ sym (multiple-negsuc g n (point k))

  loop_lem :
      (acc p : c.Point) (m : ValueSum Bytes)
      → AllSmall m
      → generator_loop c g acc m ≡ some p
      → p ≡ g.plus acc (total m)
  loop_lem acc p [] small e =
      let same : acc ≡ p = unfold generator_loop in ground (arith, e) in
      sym same ∙ sym (g.plus_identity acc)
  loop_lem acc p ((k, v) ∷ m) (here, small) e = elim (Option-cases (value_balance c g k v)) [
    | inl n ↦ absurd (unfold generator_loop in ground (arith, n, e))
    | inr (b, f) ↦
        let rest =
          loop_lem (g.plus acc b) p m small (unfold generator_loop in ground (arith, f, e)) in
        rest
        ∙ g.plus_assoc acc b (total m)
        ∙ ap (λ z. g.plus acc (g.plus z (total m))) (balance_lem k v b here f)
  ]

  from_lem :
      (m : ValueSum Bytes) (a : AllowedConversion c)
      → AllSmall m
      → from c g m ≡ some a
      → a ≡ record { assets = m; generator = total m }
  from_lem m a small e = elim (Option-cases (generator_loop c g g.identity (components m))) [
    | inl n ↦ absurd (unfold from in ground (arith, n, e))
    | inr (p, f) ↦
        let made : a ≡ record { assets = m; generator = p } = unfold from in ground (arith, f, e) in
        let value =
          loop_lem g.identity p m small (unfold components in f) ∙ identity_plus g (total m) in
        made ∙ (λ i. record { assets = m; generator = value i })
  ]

  -- The generator of a conversion, with the same assets, that another one has.
  rebuilt :
      (m : ValueSum Bytes) (p : c.Point)
      → AllSmall m
      → from c g m ≢ none
      → p ≡ total m
      → IsFaithful c g (record { assets = m; generator = p })
  rebuilt m p small d h = elim (Option-cases (from c g m)) [
    | inl n ↦ absurd (d n)
    | inr (a, e) ↦
        e ∙ ap some (from_lem m a small e ∙ (λ i. record { assets = m; generator = sym h i }))
  ]

  module _ (a b s : AllowedConversion c) (va : IsValid i128 a.assets) (vb : IsValid i128 b.assets)
      (sa : AllSmall a.assets) (sb : AllSmall b.assets) (ss : AllSmall s.assets)
      (fa : IsFaithful c g a) (fb : IsFaithful c g b) (d : from c g s.assets ≢ none) where
    generator_of :
        (x : AllowedConversion c)
        → AllSmall x.assets
        → IsFaithful c g x
        → x.generator ≡ total x.assets
    generator_of x sx fx = ap (λ y. y.generator) (from_lem x.assets x sx fx)

    -- Where two conversions over valid sums have the generators that their assets stand for, all
    -- amounts, those of the result included, have absolute values below 2 ^ 64, and the assets of
    -- the result have generators, their sum has the generator that its assets stand for.
    pub add-IsFaithful : add c g a b ≡ some s → IsFaithful c g s
    add-IsFaithful e = elim (Option-cases (Amount.add i128 a.assets b.assets)) [
      | inl n ↦ absurd (unfold add in ground (arith, n, e))
      | inr (m, f) ↦
          let made : record { assets = m; generator = g.plus a.generator b.generator } ≡ s =
            unfold add in ground (arith, f, e) in
          let opened : checked_add i128 a.assets b.assets ≡ some m = unfold Amount.add in f in
          let held = opened ∙ ap some (ap (λ x. x.assets) made) in
          let value : s.generator ≡ total s.assets =
            sym (ap (λ x. x.generator) made)
            ∙ ap₂ g.plus (generator_of a sa fa) (generator_of b sb fb)
            ∙ sym (worth-checked_add g point i128 a.assets b.assets s.assets va vb held) in
          rebuilt s.assets s.generator ss d value
    ]

    -- Under the same conditions the difference of two conversions has the generator that its
    -- assets stand for.
    pub sub-IsFaithful : sub c g a b ≡ some s → IsFaithful c g s
    sub-IsFaithful e = elim (Option-cases (Amount.sub i128 a.assets b.assets)) [
      | inl n ↦ absurd (unfold sub in ground (arith, n, e))
      | inr (m, f) ↦
          let made : record { assets = m; generator = g.plus a.generator (g.negate b.generator) }
              ≡ s =
            unfold sub in ground (arith, f, e) in
          let opened : checked_sub i128 a.assets b.assets ≡ some m = unfold Amount.sub in f in
          let held = opened ∙ ap some (ap (λ x. x.assets) made) in
          let (vs, _) = checked_sub_sound i128 a.assets b.assets va vb {s = s.assets} held in
          let back = checked_add-checked_sub i128 a.assets b.assets {s = s.assets} va vb held in
          let whole : total a.assets ≡ g.plus (total s.assets) (total b.assets) =
            worth-checked_add g point i128 s.assets b.assets a.assets vs vb back in
          let value : s.generator ≡ total s.assets =
            sym (ap (λ x. x.generator) made)
            ∙ ap₂ g.plus (generator_of a sa fa) (ap g.negate (generator_of b sb fb))
            ∙ minus_plus g (total a.assets) (total s.assets) (total b.assets) whole in
          rebuilt s.assets s.generator ss d value
    ]
