-- ===== src/BTreeMap/Sorted.antt =====
-- The order of the entries, and each operation as a change to the function `get m`.
use Prim.Native.Nat.Ordering.{eq}
use mathlib.Core.Path.{◌≡◌, refl}
use mathlib.Core.Bool.{Bool}
use mathlib.Core.Option.{Option, none, some}
use mathlib.Core.List.{[], ◌∷◌}
use native.Mathlib.Omega.{arith}
use masp.Base.{if◌then◌else◌, All}
use masp.Base.Ord.{Ord, ◌≺◌}
use masp.BTreeMap.{BTreeMap, get, insert, remove, retain}

-- What `retain` leaves of a value.
abbrev pub filter : {V : Type 0} → (V → Bool) → Option V → Option V
filter p none = none
filter p (some v) = if p v then some v else none

module _ {K : Type 0} {V : Type 0} ⦃o : Ord K⦄ where
  abbrev pub Above : K → BTreeMap K V → Type 0
  Above k m = All (λ p. k ≺ p.0) m

  abbrev pub IsSorted : BTreeMap K V → Type 0
  IsSorted [] = Unit
  IsSorted ((k, v) ∷ m) = Above k m × IsSorted m

  pub Above-trans : (j k : K) (m : BTreeMap K V) → j ≺ k → Above k m → Above j m
  Above-trans j k [] h a = tt
  Above-trans j k ((i, v) ∷ m) h (a, b) = (o.lt_trans j k i h a, Above-trans j k m h b)

  pub get-Above : (m : BTreeMap K V) (q : K) → Above q m → get m q ≡ none
  unfolding get
  get-Above [] q a = refl
  get-Above ((k, v) ∷ m) q (a, b) = ground (arith, get-Above m q b)

  pub Above-insert :
      (m : BTreeMap K V) (j q : K) (w : V) → j ≺ q → Above j m → Above j (insert m q w)
  unfolding insert
  Above-insert [] j q w h a = (h, tt)
  Above-insert ((k, v) ∷ m) j q w h (a, b) = ground (arith, Above-insert m j q w h b)

  pub insert-IsSorted : (m : BTreeMap K V) (q : K) (w : V) → IsSorted m → IsSorted (insert m q w)
  unfolding insert
  insert-IsSorted [] q w h = (tt, tt)
  insert-IsSorted ((k, v) ∷ m) q w (a, s) =
      ground
        (arith, insert-IsSorted m q w s, Above-insert m k q w, Above-trans q k m, o.lt_of_gt q k)

  pub get-insert :
      (m : BTreeMap K V) (q r : K) (w : V)
      → get (insert m q w) r ≡ (elim (o.cmp r q) [ eq ↦ some w | _ ↦ get m r ])
  unfolding get insert
  get-insert [] q r w = refl
  get-insert ((k, v) ∷ m) q r w =
      ground
        (arith, get-insert m q r w, o.eq_of_cmp r q, o.eq_of_cmp q k, o.eq_of_cmp r k, o.cmp_refl r)

  pub Above-retain : (p : V → Bool) (m : BTreeMap K V) (j : K) → Above j m → Above j (retain p m)
  unfolding retain
  Above-retain p [] j a = tt
  Above-retain p ((k, v) ∷ m) j (a, b) = ground (arith, Above-retain p m j b)

  pub retain-IsSorted : (p : V → Bool) (m : BTreeMap K V) → IsSorted m → IsSorted (retain p m)
  unfolding retain
  retain-IsSorted p [] h = tt
  retain-IsSorted p ((k, v) ∷ m) (a, s) =
      ground (arith, retain-IsSorted p m s, Above-retain p m k a)

  -- With the keys in order, `retain` filters what `get` finds.
  pub get-retain :
      (p : V → Bool) (m : BTreeMap K V) (q : K)
      → IsSorted m
      → get (retain p m) q ≡ filter p (get m q)
  unfolding get retain
  get-retain p [] q h = refl
  get-retain p ((k, v) ∷ m) q (a, s) =
      ground (arith, get-retain p m q s, o.eq_of_cmp q k, get-Above m k a)

  pub Above-remove : (m : BTreeMap K V) (j q : K) → Above j m → Above j (remove m q)
  unfolding remove
  Above-remove [] j q a = tt
  Above-remove ((k, v) ∷ m) j q (a, b) = ground (arith, Above-remove m j q b)

  pub remove-IsSorted : (m : BTreeMap K V) (q : K) → IsSorted m → IsSorted (remove m q)
  unfolding remove
  remove-IsSorted [] q h = tt
  remove-IsSorted ((k, v) ∷ m) q (a, s) =
      ground (arith, remove-IsSorted m q s, Above-remove m k q a)

  pub get-remove :
      (m : BTreeMap K V) (q r : K)
      → IsSorted m
      → get (remove m q) r ≡ (elim (o.cmp r q) [ eq ↦ none | _ ↦ get m r ])
  unfolding get remove
  get-remove [] q r h = ground arith
  get-remove ((k, v) ∷ m) q r (a, s) = ground (
    arith,
    get-remove m q r s,
    o.eq_of_cmp r q,
    o.eq_of_cmp q k,
    o.eq_of_cmp r k,
    o.cmp_refl r,
    get-Above m k a,
  )
