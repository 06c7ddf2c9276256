-- ===== src/BTreeMap/Ext.antt =====
-- A map is determined by what `get` reads.
use mathlib.Core.Path.{◌≡◌, refl, sym, ap, ◌∙◌, subst}
use mathlib.Core.Option.{some}
use mathlib.Core.List.{[], ◌∷◌}
use native.Mathlib.Omega.{arith}
use masp.Base.Ord.{Ord, ◌≺◌}
use masp.BTreeMap.{BTreeMap, get}
use masp.BTreeMap.Sorted.{IsSorted, Above, get-Above, Above-trans}

module _ {K : Type 0} {V : Type 0} ⦃o : Ord K⦄ where
  get-head : (k : K) (v : V) (m : BTreeMap K V) → get ((k, v) ∷ m) k ≡ some v
  unfolding get
  get-head k v m = ground (arith, o.cmp_refl k)

  -- Equal heads can be dropped from an equation between two maps.
  get-tail :
      (k : K) (v w : V) (m n : BTreeMap K V) (q : K)
      → Above k m
      → Above k n
      → get ((k, v) ∷ m) q ≡ get ((k, w) ∷ n) q
      → get m q ≡ get n q
  unfolding get
  get-tail k v w m n q a b e = ground (arith, o.eq_of_cmp q k, get-Above m k a, get-Above n k b)

  -- The first keys of two maps that read alike are not in order, either way.
  head-not-lt :
      (k j : K) (v w : V) (m n : BTreeMap K V)
      → Above j n
      → ((q : K) → get ((k, v) ∷ m) q ≡ get ((j, w) ∷ n) q)
      → k ≺ j
      → ⊥
  head-not-lt k j v w m n a h l =
      cc (h k, get-head k v m, get-Above ((j, w) ∷ n) k (l, Above-trans k j n l a))

  pub ext : (m n : BTreeMap K V) → IsSorted m → IsSorted n → ((q : K) → get m q ≡ get n q) → m ≡ n
  ext [] [] s t h = refl
  ext [] ((k, v) ∷ n) s t h = cc (h k, get-head k v n, get-Above [] k tt)
  ext ((k, v) ∷ m) [] s t h = cc (h k, get-head k v m, get-Above [] k tt)
  ext ((k, v) ∷ m) ((j, w) ∷ n) (a, s) (b, t) h =
      ground (arith, same_key, ext m n s t rest, h k, get-head k v m, get-head j w n)
    where
      same_key : k ≡ j
      same_key = ground (
        arith,
        head-not-lt k j v w m n b h,
        head-not-lt j k w v n m a (λ q. sym (h q)),
        o.lt_of_gt k j,
        o.eq_of_cmp k j,
      )

      rest : (q : K) → get m q ≡ get n q
      rest q =
          get-tail k v w m n q a (subst (λ x. Above x n) (sym same_key) b)
            (h q ∙ ap (λ x. get ((x, w) ∷ n) q) (sym same_key))
