-- ===== src/BTreeMap/Fold.antt =====
-- The loop `for (k, v) in m { comps.insert(k, f(k, v)?) }`.
use mathlib.Core.Path.{◌≡◌, refl}
use mathlib.Core.Logic.{◌≢◌}
use mathlib.Core.Option.{Option, none, some}
use mathlib.Core.List.{[], ◌∷◌}
use native.Mathlib.Omega.{arith}
use masp.Base.{Option-cases, inl, inr}
use masp.Base.Ord.{Ord}
use masp.BTreeMap.{BTreeMap, get, insert}
use masp.BTreeMap.Sorted.{IsSorted, get-Above, get-insert, insert-IsSorted}

module _ {K : Type 0} {V : Type 0} {W : Type 0} ⦃o : Ord K⦄ where
  unfoldable pub insert_each :
      (K → V → Option W) → BTreeMap K V → BTreeMap K W → Option (BTreeMap K W)
  insert_each f [] comps = some comps
  insert_each f ((k, v) ∷ m) comps = elim (f k v) [
    | none ↦ none
    | some w ↦ insert_each f m (insert comps k w)
  ]

  -- What the loop writes at a key, over what was there.
  abbrev pub over : (K → V → Option W) → K → Option V → Option W → Option W
  over f q none old = old
  over f q (some v) old = f q v

  pub insert_each-IsSorted :
      (f : K → V → Option W) (m : BTreeMap K V) (c d : BTreeMap K W)
      → IsSorted c
      → insert_each f m c ≡ some d
      → IsSorted d
  unfolding insert_each
  insert_each-IsSorted f [] c d s e = ground arith
  insert_each-IsSorted f ((k, v) ∷ m) c d s e = elim (Option-cases (f k v)) [
    | inl n ↦ ground (arith, n)
    | inr (w, h) ↦
        insert_each-IsSorted f m (insert c k w) d (insert-IsSorted c k w s) (ground (arith, h))
  ]

  pub get-insert_each :
      (f : K → V → Option W) (m : BTreeMap K V) (c d : BTreeMap K W) (q : K)
      → IsSorted m
      → insert_each f m c ≡ some d
      → get d q ≡ over f q (get m q) (get c q)
  unfolding insert_each get
  get-insert_each f [] c d q s e = ground arith
  get-insert_each f ((k, v) ∷ m) c d q (a, s) e = elim (Option-cases (f k v)) [
    | inl n ↦ ground (arith, n)
    | inr (w, h) ↦ ground (
      arith,
      h,
      get-insert_each f m (insert c k w) d q s,
      get-insert c k q w,
      o.eq_of_cmp q k,
      get-Above m k a,
    )
  ]

  -- The loop fails on no map all of whose entries have a value.
  pub insert_each-total :
      (f : K → V → Option W) (m : BTreeMap K V) (c : BTreeMap K W)
      → IsSorted m
      → ((q : K) (v : V) → get m q ≡ some v → f q v ≢ none)
      → (d : BTreeMap K W) × (insert_each f m c ≡ some d)
  unfolding insert_each
  insert_each-total f [] c s h = (c, refl)
  insert_each-total f ((k, v) ∷ m) c (a, s) h = elim (Option-cases (f k v)) [
    | inl n ↦ absurd (h k v (unfold get in ground (arith, o.cmp_refl k)) n)
    | inr (w, e) ↦
        let (d, r) =
          insert_each-total f m (insert c k w) s
            (λ q u g. h q u (unfold get in ground (arith, o.eq_of_cmp q k, get-Above m k a, g))) in
        (d, ground (arith, e, r))
  ]

  -- Where the loop succeeds, the function had a value at each entry.
  pub insert_each_defined :
      (f : K → V → Option W) (m : BTreeMap K V) (c d : BTreeMap K W) (q : K) (v : V)
      → insert_each f m c ≡ some d
      → get m q ≡ some v
      → f q v ≢ none
  unfolding insert_each get
  insert_each_defined f [] c d q v e g = λ n. cc
  insert_each_defined f ((k, u) ∷ m) c d q v e g = elim (Option-cases (f k u)) [
    | inl n ↦ absurd (ground (arith, n))
    | inr (w, h) ↦
        let step = insert_each_defined f m (insert c k w) d q v in
        λ n. ground (arith, h, n, o.eq_of_cmp q k, step)
  ]
