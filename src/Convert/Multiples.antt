-- ===== src/Convert/Multiples.antt =====
-- Signed multiples of a point add up.
use masp.Base.{ℕ, zero, suc, ◌+◌, ◌≡◌, ap, ap₂, sym, ◌∙◌, arith}
use masp.Base.Int.{ℤ, pos, negsuc, pos_part, neg_part, ◌+ℤ◌, +ℤ_parts}
use masp.AssetType.{AssetCrypto}
use masp.Convert.{Group}

module _ {c : AssetCrypto} (g : Group c) where
  pub identity_plus : (a : c.Point) → g.plus g.identity a ≡ a
  identity_plus a = g.plus_comm g.identity a ∙ g.plus_identity a

  pub interchange :
      (a b d e : c.Point) → g.plus (g.plus a b) (g.plus d e) ≡ g.plus (g.plus a d) (g.plus b e)
  interchange a b d e =
      g.plus_assoc a b (g.plus d e)
      ∙ ap (g.plus a)
          (sym (g.plus_assoc b d e) ∙ ap (λ z. g.plus z e) (g.plus_comm b d) ∙ g.plus_assoc d b e)
      ∙ sym (g.plus_assoc a d (g.plus b e))

  inverse_unique : (a b : c.Point) → g.plus a b ≡ g.identity → b ≡ g.negate a
  inverse_unique a b h =
      sym (g.plus_identity b)
      ∙ ap (g.plus b) (sym (g.plus_negate a))
      ∙ sym (g.plus_assoc b a (g.negate a))
      ∙ ap (λ z. g.plus z (g.negate a)) (g.plus_comm b a ∙ h)
      ∙ identity_plus (g.negate a)

  negate_plus : (a b : c.Point) → g.plus (g.negate a) (g.negate b) ≡ g.negate (g.plus a b)
  negate_plus a b = inverse_unique (g.plus a b) (g.plus (g.negate a) (g.negate b)) (
      interchange a b (g.negate a) (g.negate b)
      ∙ ap₂ g.plus (g.plus_negate a) (g.plus_negate b)
      ∙ g.plus_identity g.identity)

  negate_identity : g.negate g.identity ≡ g.identity
  negate_identity = sym (inverse_unique g.identity g.identity (g.plus_identity g.identity))

  -- A point with the difference of two others added to it.
  padded :
      (a b d : c.Point)
      → g.plus a (g.negate b) ≡ g.plus (g.plus a d) (g.plus (g.negate b) (g.negate d))
  padded a b d =
      sym (g.plus_identity (g.plus a (g.negate b)))
      ∙ ap (g.plus (g.plus a (g.negate b))) (sym (g.plus_negate d))
      ∙ interchange a (g.negate b) d (g.negate d)

  pub difference_eq :
      (a b d e : c.Point) → g.plus a e ≡ g.plus d b → g.plus a (g.negate b) ≡ g.plus d (g.negate e)
  difference_eq a b d e h =
      padded a b e ∙ ap₂ g.plus h (g.plus_comm (g.negate b) (g.negate e)) ∙ sym (padded d e b)

  scale_plus : (n m : ℕ) (p : c.Point) → g.scale (n + m) p ≡ g.plus (g.scale n p) (g.scale m p)
  scale_plus zero m p =
      let e : 0 + m ≡ m = omega arith in
      ap (λ k. g.scale k p) e
      ∙ sym (identity_plus (g.scale m p))
      ∙ ap (λ z. g.plus z (g.scale m p)) (sym (g.scale_zero p))
  scale_plus (suc n) m p =
      let e : suc n + m ≡ suc (n + m) = omega arith in
      ap (λ k. g.scale k p) e
      ∙ g.scale_suc (n + m) p
      ∙ ap (g.plus p) (scale_plus n m p)
      ∙ sym (g.plus_assoc p (g.scale n p) (g.scale m p))
      ∙ ap (λ z. g.plus z (g.scale m p)) (sym (g.scale_suc n p))

  -- The multiple by a signed number.
  abbrev pub multiple : ℤ → c.Point → c.Point
  multiple x p = g.plus (g.scale (pos_part x) p) (g.negate (g.scale (neg_part x) p))

  pub multiple-pos : (n : ℕ) (p : c.Point) → multiple (pos n) p ≡ g.scale n p
  multiple-pos n p =
      ap (g.plus (g.scale n p)) (ap g.negate (g.scale_zero p) ∙ negate_identity)
      ∙ g.plus_identity (g.scale n p)

  pub multiple-negsuc : (n : ℕ) (p : c.Point) → multiple (negsuc n) p ≡ g.negate (g.scale (suc n) p)
  multiple-negsuc n p =
      ap (λ z. g.plus z (g.negate (g.scale (suc n) p))) (g.scale_zero p)
      ∙ identity_plus (g.negate (g.scale (suc n) p))

  pub multiple-zero : (p : c.Point) → multiple (pos 0) p ≡ g.identity
  multiple-zero p = multiple-pos 0 p ∙ g.scale_zero p

  pub multiple-+ℤ :
      (x y : ℤ) (p : c.Point) → multiple (x +ℤ y) p ≡ g.plus (multiple x p) (multiple y p)
  multiple-+ℤ x y p =
      let z = x +ℤ y in
      let s = λ (n : ℕ). g.scale n p in
      let parts : pos_part z + (neg_part x + neg_part y) ≡ (pos_part x + pos_part y) + neg_part z =
        omega (arith, +ℤ_parts x y) in
      let scaled : g.plus (s (pos_part z)) (s (neg_part x + neg_part y))
          ≡ g.plus (s (pos_part x + pos_part y)) (s (neg_part z)) =
        sym (scale_plus (pos_part z) (neg_part x + neg_part y) p)
        ∙ ap s parts
        ∙ scale_plus (pos_part x + pos_part y) (neg_part z) p in
      difference_eq (s (pos_part z)) (s (neg_part z)) (s (pos_part x + pos_part y))
        (s (neg_part x + neg_part y)) scaled
      ∙ ap₂ g.plus (scale_plus (pos_part x) (pos_part y) p) (
          ap g.negate (scale_plus (neg_part x) (neg_part y) p)
          ∙ sym (negate_plus (s (neg_part x)) (s (neg_part y))))
      ∙ interchange (s (pos_part x)) (s (pos_part y)) (g.negate (s (neg_part x)))
          (g.negate (s (neg_part y)))

  pub minus_plus : (a d b : c.Point) → a ≡ g.plus d b → g.plus a (g.negate b) ≡ d
  minus_plus a d b h =
      ap (λ z. g.plus z (g.negate b)) h
      ∙ g.plus_assoc d b (g.negate b)
      ∙ ap (g.plus d) (g.plus_negate b)
      ∙ g.plus_identity d
