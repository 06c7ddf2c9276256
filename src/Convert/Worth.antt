-- ===== src/Convert/Worth.antt =====
-- The point that a sum stands for, over any keys, and that adding sums adds their points.
use Prim.Native.Nat.Ordering.{lt, eq, gt}
use masp.Base.{◌≡◌, ◌≢◌, ◌⊎◌, refl, ap, sym, ◌∙◌, true, some, inl, inr, arith, [], ◌∷◌}
use masp.Base.Int.{ℤ, pos, ◌+ℤ◌, +ℤ-zero, zero-+ℤ}
use masp.Base.Ord.{Ord}
use masp.BTreeMap
use masp.BTreeMap.{BTreeMap, retain}
use masp.BTreeMap.Sorted.{
  IsSorted, Above, Above-trans, get-Above, get-insert, insert-IsSorted, get-retain, retain-IsSorted,
}
use masp.BTreeMap.Ext.{ext}
use masp.Words.{IntType}
use masp.AssetType.{AssetCrypto}
use masp.Amount.{ValueSum, get, is_nonzero, checked_add}
use masp.Amount.Valid.{IsValid, get-entry}
use masp.Amount.Add.{checked_add_sound}
use masp.Amount.Combine.{get-retain_nonzero}
use masp.Convert.{Group}
use masp.Convert.Multiples.{multiple, multiple-+ℤ, multiple-zero, identity_plus}

module _ {c : AssetCrypto} (g : Group c) {K : Type 0} (point : K → c.Point) where
  abbrev pub worth : ValueSum K → c.Point
  worth [] = g.identity
  worth ((k, v) ∷ m) = g.plus (multiple g v (point k)) (worth m)

  worth-retain : (m : ValueSum K) → worth (retain is_nonzero m) ≡ worth m
  worth-retain [] = unfold retain in refl
  worth-retain ((k, v) ∷ m) = elim (is_zero-cases v) [
    | inl z ↦
        let dropped : retain is_nonzero ((k, v) ∷ m) ≡ retain is_nonzero m =
          unfold retain in ground (arith, z) in
        ap worth dropped
        ∙ worth-retain m
        ∙ sym (identity_plus g (worth m))
        ∙ ap (λ p. g.plus p (worth m))
            (sym (ap (λ x. multiple g x (point k)) z ∙ multiple-zero g (point k)))
    | inr n ↦
        let kept : retain is_nonzero ((k, v) ∷ m) ≡ (k, v) ∷ retain is_nonzero m =
          unfold retain in ground (arith, n) in
        ap worth kept ∙ ap (g.plus (multiple g v (point k))) (worth-retain m)
  ]
    where
      is_zero-cases : (x : ℤ) → (x ≡ pos 0) ⊎ (is_nonzero x ≡ true)
      is_zero-cases x = ground arith

module _ {c : AssetCrypto} (g : Group c) {K : Type 0} ⦃o : Ord K⦄ (point : K → c.Point) where
  -- Adds an amount at one key.
  abbrev bump : ValueSum K → K → ℤ → ValueSum K
  bump m k v = BTreeMap.insert m k (get m k +ℤ v)

  get_below : (m : ValueSum K) (k : K) → Above k m → get m k ≡ pos 0
  get_below m k a = unfold get in ground (arith, get-Above m k a)

  bump-lt :
      (m : ValueSum K) (j k : K) (u v : ℤ)
      → Above j m
      → o.cmp k j ≡ lt
      → bump ((j, u) ∷ m) k v ≡ (k, v) ∷ (j, u) ∷ m
  bump-lt m j k u v above r =
      let none_there = get-Above m k (Above-trans k j m r above) in
      unfold BTreeMap.insert get BTreeMap.get in ground (arith, r, none_there, zero-+ℤ v)

  bump-eq :
      (m : ValueSum K) (j k : K) (u v : ℤ)
      → o.cmp k j ≡ eq
      → bump ((j, u) ∷ m) k v ≡ (j, u +ℤ v) ∷ m
  bump-eq m j k u v r = unfold BTreeMap.insert get BTreeMap.get in ground (arith, r)

  bump-gt :
      (m : ValueSum K) (j k : K) (u v : ℤ)
      → o.cmp k j ≡ gt
      → bump ((j, u) ∷ m) k v ≡ (j, u) ∷ bump m k v
  bump-gt m j k u v r = unfold BTreeMap.insert get BTreeMap.get in ground (arith, r)

  plus_swap : (a b d : c.Point) → g.plus a (g.plus b d) ≡ g.plus b (g.plus a d)
  plus_swap a b d =
      sym (g.plus_assoc a b d) ∙ ap (λ z. g.plus z d) (g.plus_comm a b) ∙ g.plus_assoc b a d

  worth-bump :
      (m : ValueSum K) (k : K) (v : ℤ)
      → IsSorted m
      → worth g point (bump m k v) ≡ g.plus (multiple g v (point k)) (worth g point m)
  worth-bump [] k v s =
      unfold BTreeMap.insert get BTreeMap.get in
      ap (λ x. g.plus (multiple g x (point k)) g.identity) (zero-+ℤ v)
  worth-bump ((j, u) ∷ m) k v (above, s) =
      let w = worth g point m in
      elim (o.cmp k j)
          as (λ r.
            o.cmp k j ≡ r
            → worth g point (bump ((j, u) ∷ m) k v)
              ≡ g.plus (multiple g v (point k)) (worth g point ((j, u) ∷ m))) [
                | lt ↦ λ r. ap (worth g point) (bump-lt m j k u v above r)
                | eq ↦ λ r.
                    ap (worth g point) (bump-eq m j k u v r)
                    ∙ ap (λ z. g.plus z w) (multiple-+ℤ g u v (point j))
                    ∙ g.plus_assoc (multiple g u (point j)) (multiple g v (point j)) w
                    ∙ plus_swap (multiple g u (point j)) (multiple g v (point j)) w
                    ∙ ap (λ i. g.plus (multiple g v (point i)) (g.plus (multiple g u (point j)) w))
                        (sym (o.eq_of_cmp k j r))
                | gt ↦ λ r.
                    ap (worth g point) (bump-gt m j k u v r)
                    ∙ ap (g.plus (multiple g u (point j))) (worth-bump m k v s)
                    ∙ plus_swap (multiple g u (point j)) (multiple g v (point k)) w
              ]
        refl

  -- Every entry of the second sum is added to the first.
  abbrev bump_all : ValueSum K → ValueSum K → ValueSum K
  bump_all a [] = a
  bump_all a ((k, v) ∷ b) = bump (bump_all a b) k v

  bump_all-IsSorted : (a b : ValueSum K) → IsSorted a → IsSorted (bump_all a b)
  bump_all-IsSorted a [] s = s
  bump_all-IsSorted a ((k, v) ∷ b) s =
      insert-IsSorted (bump_all a b) k (get (bump_all a b) k +ℤ v) (bump_all-IsSorted a b s)

  worth-bump_all :
      (a b : ValueSum K)
      → IsSorted a
      → worth g point (bump_all a b) ≡ g.plus (worth g point a) (worth g point b)
  worth-bump_all a [] s = sym (g.plus_identity (worth g point a))
  worth-bump_all a ((k, v) ∷ b) s =
      worth-bump (bump_all a b) k v (bump_all-IsSorted a b s)
      ∙ ap (g.plus (multiple g v (point k))) (worth-bump_all a b s)
      ∙ plus_swap (multiple g v (point k)) (worth g point a) (worth g point b)

  get-bump :
      (m : ValueSum K) (k q : K) (v : ℤ)
      → get (bump m k v) q ≡ (elim (o.cmp q k) [ eq ↦ get m k +ℤ v | _ ↦ get m q ])
  get-bump m k q v = unfold get in ground (arith, get-insert m k q (get m k +ℤ v))

  get_head :
      (b : ValueSum K) (k q : K) (v : ℤ)
      → get ((k, v) ∷ b) q ≡ (elim (o.cmp q k) [ eq ↦ v | _ ↦ get b q ])
  get_head b k q v = unfold get BTreeMap.get in ground arith

  get-bump_all : (a b : ValueSum K) (q : K) → IsSorted b → get (bump_all a b) q ≡ get a q +ℤ get b q
  get-bump_all a [] q s =
      sym (+ℤ-zero (get a q)) ∙ ap (λ z. get a q +ℤ z) (sym (unfold get BTreeMap.get in refl))
  get-bump_all a ((k, v) ∷ b) q (above, s) = ground (
    arith,
    get-bump (bump_all a b) k q v,
    get_head b k q v,
    get-bump_all a b k s,
    get-bump_all a b q s,
    get_below b k above,
    +ℤ-zero (get a k),
    o.eq_of_cmp q k,
  )

  -- The point of a sum of sums is the sum of their points.
  pub worth-checked_add :
      (t : IntType) (a b s : ValueSum K)
      → IsValid t a
      → IsValid t b
      → checked_add t a b ≡ some s
      → worth g point s ≡ g.plus (worth g point a) (worth g point b)
  worth-checked_add t a b s va vb e =
      let (vs, h) = checked_add_sound t a b va vb e in
      let d = bump_all a b in
      let sorted = bump_all-IsSorted a b va.sorted in
      let nonzero : (k : K) → BTreeMap.get (retain is_nonzero d) k ≢ some (pos 0) =
        λ k. ground (arith, get-retain is_nonzero d k sorted) in
      let amounts : (k : K) → get s k ≡ get (retain is_nonzero d) k =
        λ k. h k ∙ sym (get-bump_all a b k vb.sorted) ∙ sym (get-retain_nonzero d k sorted) in
      let same : s ≡ retain is_nonzero d =
        ext s (retain is_nonzero d) vs.sorted (retain-IsSorted is_nonzero d sorted) λ k. cc (
          get-entry s k (vs.nonzero k),
          get-entry (retain is_nonzero d) k (nonzero k),
          amounts k,
        ) in
      ap (worth g point) same ∙ worth-retain g point d ∙ worth-bump_all a b va.sorted
