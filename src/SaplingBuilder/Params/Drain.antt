-- ===== src/SaplingBuilder/Params/Drain.antt =====
-- Maps that a call enters a value into, and the loop that takes the values out.
use masp.Base.{
  ℕ, zero, suc, ◌+◌, ◌≡◌, ◌≢◌, ◌≤◌, ◌<◌, ap, sym, ◌∙◌, none, some, Option-cases, inl, inr, List, [],
  ◌∷◌, length, get_elem?, arith,
}
use masp.Base.Ord.{nat_ord}
use masp.BTreeMap
use masp.BTreeMap.{BTreeMap}
use masp.BTreeMap.Sorted.{IsSorted, remove-IsSorted, get-remove, insert-IsSorted, get-insert}
use masp.SaplingBuilder.Params.{or_insert_with, drain}

module _ {V : Type 0} where
  length-remove :
      (m : BTreeMap ℕ V) (i n : ℕ) (v : V)
      → BTreeMap.get m i ≡ some v
      → length m ≡ suc n
      → length (BTreeMap.remove m i) ≡ n
  unfolding BTreeMap.get BTreeMap.remove
  length-remove [] i n v e h = cc e
  length-remove ((k, w) ∷ []) i n v e h = ground arith
  length-remove ((k, w) ∷ p ∷ m) i zero v e h = absurd (omega arith)
  length-remove ((k, w) ∷ p ∷ m) i (suc n) v e h = ground (arith, length-remove (p ∷ m) i n v)

  get-remove_other :
      (m : BTreeMap ℕ V) (i q : ℕ)
      → IsSorted m
      → i ≢ q
      → BTreeMap.get (BTreeMap.remove m i) q ≡ BTreeMap.get m q
  get-remove_other m i q s h = ground (arith, get-remove m i q s, nat_ord.eq_of_cmp q i)

  drain-step :
      (n i : ℕ) (m : BTreeMap ℕ V) (vs : List V)
      → drain m i (suc n) ≡ some vs
      → (v : V) × (rest : List V) × (BTreeMap.get m i ≡ some v)
        × (drain (BTreeMap.remove m i) (suc i) n ≡ some rest)
        × (vs ≡ v ∷ rest)
  unfolding drain
  drain-step n i m vs e = elim (Option-cases (BTreeMap.get m i)) [
    | inl none_left ↦ absurd (ground (arith, none_left, e))
    | inr (v, ev) ↦ elim (Option-cases (drain (BTreeMap.remove m i) (suc i) n)) [
      | inl failed ↦ absurd (ground (arith, ev, failed, e))
      | inr (rest, er) ↦ (v, rest, ev, er, ground (arith, ev, er, e))
    ]
  ]

  pub drain-get :
      (n i : ℕ) (m : BTreeMap ℕ V) (vs : List V) (k : ℕ) (v : V)
      → IsSorted m
      → length m ≡ n
      → drain m i n ≡ some vs
      → BTreeMap.get m (i + k) ≡ some v
      → get_elem? vs k ≡ some v
  drain-get zero i [] vs k v s h e found = absurd (unfold BTreeMap.get in ground (arith, found))
  drain-get zero i (p ∷ m) vs k v s h e found = absurd (omega arith)
  drain-get (suc n) i m vs zero v s h e found =
      let (w, rest, ew, er, same) = drain-step n i m vs e in
      let here : i + 0 ≡ i = omega arith in
      ap (λ l. get_elem? l 0) same ∙ sym ew ∙ ap (BTreeMap.get m) (sym here) ∙ found
  drain-get (suc n) i m vs (suc k) v s h e found =
      let (w, rest, ew, er, same) = drain-step n i m vs e in
      let shift : suc i + k ≡ i + suc k = omega arith in
      ap (λ l. get_elem? l (suc k)) same
      ∙ drain-get n (suc i) (BTreeMap.remove m i) rest k v (remove-IsSorted m i s)
          (length-remove m i n w ew h) er
          (get-remove_other m i (suc i + k) s (omega arith) ∙ ap (BTreeMap.get m) shift ∙ found)

  -- The indices below the number of entries all have one.
  abbrev pub Dense : BTreeMap ℕ V → Type 0
  Dense m = (k : ℕ) → k < length m → BTreeMap.get m k ≢ none

  stuck :
      (n i : ℕ) (m : BTreeMap ℕ V)
      → BTreeMap.get m i ≢ none
      → drain (BTreeMap.remove m i) (suc i) n ≢ none
      → drain m i (suc n) ≢ none
  unfolding drain
  stuck n i m here later e = elim (Option-cases (BTreeMap.get m i)) [
    | inl none_left ↦ here none_left
    | inr (v, ev) ↦ elim (Option-cases (drain (BTreeMap.remove m i) (suc i) n)) [
      | inl failed ↦ later failed
      | inr (rest, er) ↦ ground (arith, ev, er, e)
    ]
  ]

  drain-total :
      (n i : ℕ) (m : BTreeMap ℕ V)
      → IsSorted m
      → ((k : ℕ) → i ≤ k → k < i + n → BTreeMap.get m k ≢ none)
      → drain m i n ≢ none
  drain-total zero i m s h e = unfold drain in cc e
  drain-total (suc n) i m s h e =
      let later =
        drain-total n (suc i) (BTreeMap.remove m i) (remove-IsSorted m i s) (λ k low high found.
          h k (omega arith) (omega arith) (sym (get-remove_other m i k s (omega arith)) ∙ found)) in
      stuck n i m (h i (omega arith) (omega arith)) later e

  pub drain-Dense :
      (m : BTreeMap ℕ V) → IsSorted m → Dense m → (vs : List V) × (drain m 0 (length m) ≡ some vs)
  drain-Dense m s h = elim (Option-cases (drain m 0 (length m))) [
    | inl n ↦ absurd (drain-total (length m) 0 m s (λ k low high. h k (omega arith)) n)
    | inr found ↦ found
  ]

  module _ {Rng : Type 0} (m : BTreeMap ℕ V) (i : ℕ) (make : Rng → V × Rng) (rng : Rng) where
    -- The value that is given out stands in the map, which has kept the others.
    pub or_insert_with_lem :
        (v : V) (m' : BTreeMap ℕ V) (rng' : Rng)
        → IsSorted m
        → or_insert_with m i make rng ≡ (v, m', rng')
        → IsSorted m'
          × (BTreeMap.get m' i ≡ some v)
          × ((q : ℕ) (w : V) → BTreeMap.get m q ≡ some w → BTreeMap.get m' q ≡ some w)
    unfolding or_insert_with
    or_insert_with_lem v m' rng' s e = elim (Option-cases (BTreeMap.get m i)) [
      | inr (w, ew) ↦
          let given : w ≡ v = ground (arith, ew, e) in
          let kept : m ≡ m' = ground (arith, ew, e) in
          rw (← kept) (s, ew ∙ ap some given, λ q x h. h)
      | inl n ↦
          let given : (make rng).0 ≡ v = ground (arith, n, e) in
          let made : BTreeMap.insert m i (make rng).0 ≡ m' = ground (arith, n, e) in
          rw (← made) (
            insert-IsSorted m i (make rng).0 s,
            ground (arith, get-insert m i i (make rng).0, nat_ord.cmp_refl i, given),
            λ q x h. ground (arith, get-insert m i q (make rng).0, nat_ord.eq_of_cmp q i, n, h),
          )
    ]
