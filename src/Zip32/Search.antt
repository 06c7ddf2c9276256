-- ===== src/Zip32/Search.antt =====
-- The search for a valid diversifier.
use masp.Base.{ℕ, zero, suc, ◌+◌, ◌^◌, ◌<◌, ◌≤◌, ◌≡◌, ◌∙◌, ◌⊎◌, inl, inr, Bool, true, false, arith}
use masp.Base.{Option, none, some, Option-cases, Bool-cases, length, ltb, All, subst, sym}
use native.Mathlib.Decide.{ℕ_discrete}
use masp.Base.Bytes.{Bytes, IsByte}
use masp.Zip32.{DiversifierIndex, try_diversifier_internal, find_loop, find_diversifier}
use masp.Zip32.Increment.{index_of, number, increment-index_of, index_of-number, number-lt}

module _ (encrypt : Bytes → Bytes) (has_g_d : Bytes → Bool) where
  abbrev try : ℕ → Option Bytes
  try n = try_diversifier_internal encrypt has_g_d (index_of n)

  -- The least index from `v` on with a valid diversifier is `n`, and its diversifier is `d`.
  abbrev pub IsLeast : ℕ → ℕ → Bytes → Type 0
  IsLeast v n d =
      (v ≤ n) × (n < 256 ^ 11) × (try n ≡ some d) × ((m : ℕ) → v ≤ m → m < n → try m ≡ none)

  abbrev pub NoneValid : ℕ → Type 0
  NoneValid v = (m : ℕ) → v ≤ m → m < 256 ^ 11 → try m ≡ none

  abbrev Found : Option (Option (DiversifierIndex × Bytes)) → ℕ → Type 0
  Found r v =
      ((n : ℕ) × (d : Bytes) × (r ≡ some (some (index_of n, d))) × IsLeast v n d)
      ⊎ ((r ≡ some none) × NoneValid v)

  found_step :
      (fuel v : ℕ) (d : Bytes)
      → try v ≡ some d
      → find_loop encrypt has_g_d (suc fuel) (index_of v) ≡ some (some (index_of v, d))
  found_step fuel v d e = unfold find_loop in ground (arith, e)

  next_step :
      (fuel v : ℕ)
      → v + 1 < 256 ^ 11
      → try v ≡ none
      → find_loop encrypt has_g_d (suc fuel) (index_of v)
        ≡ find_loop encrypt has_g_d fuel (index_of (v + 1))
  next_step fuel v h e =
      let more : ltb (v + 1) (256 ^ 11) ≡ true = ground arith in
      unfold find_loop in ground (arith, e, increment-index_of v (omega arith), more)

  last_step :
      (fuel v : ℕ)
      → v + 1 ≡ 256 ^ 11
      → try v ≡ none
      → find_loop encrypt has_g_d (suc fuel) (index_of v) ≡ some none
  last_step fuel v h e =
      let full : ltb (v + 1) (256 ^ 11) ≡ false = ground arith in
      unfold find_loop in ground (arith, e, increment-index_of v (omega arith), full)

  first_or_later :
      (v to m : ℕ)
      → try v ≡ none
      → ((k : ℕ) → v + 1 ≤ k → k < to → try k ≡ none)
      → v ≤ m
      → m < to
      → try m ≡ none
  first_or_later v to m e rest p q = elim (ℕ_discrete m v) [
    | yes same ↦ subst (λ k. try k ≡ none) (sym same) e
    | no other ↦ rest m (omega arith) q
  ]

  find_loop_lem :
      (fuel v : ℕ)
      → v < 256 ^ 11
      → 256 ^ 11 ≤ v + fuel
      → Found (find_loop encrypt has_g_d fuel (index_of v)) v
  find_loop_lem zero v h enough = absurd (omega arith)
  find_loop_lem (suc fuel) v h enough = elim (Option-cases (try v)) [
    | inr (d, e) ↦
        inl (v, d, found_step fuel v d e, (omega arith, h, e, λ m p q. absurd (omega arith)))
    | inl e ↦ elim (Bool-cases (ltb (v + 1) (256 ^ 11))) [
      | inr full ↦ inr (
        last_step fuel v (ground arith) e,
        λ m p q. first_or_later v (256 ^ 11) m e (λ k a b. absurd (ground arith)) p q,
      )
      | inl more ↦
          let next = next_step fuel v (ground arith) e in
          elim (find_loop_lem fuel (v + 1) (ground arith) (omega arith)) [
            | inl (n, d, r, (lo, hi, at, below)) ↦
                inl
                  (n, d, next ∙ r, (omega arith, hi, at, λ m p q. first_or_later v n m e below p q))
            | inr (r, rest) ↦ inr (next ∙ r, λ m p q. first_or_later v (256 ^ 11) m e rest p q)
          ]
    ]
  ]

  -- From any index of 11 bytes the diversifier search ends within 2 ^ 88 rounds: it returns the
  -- least index at or above the start whose diversifier is valid, with that diversifier, or None
  -- where no index from the start on has one.
  pub find_diversifier_lem :
      (j : DiversifierIndex)
      → length j.bytes ≡ 11
      → All IsByte j.bytes
      → Found (find_diversifier encrypt has_g_d j) (number j)
  find_diversifier_lem j l h =
      let found = find_loop_lem (256 ^ 11) (number j) (number-lt j l h) (omega arith) in
      unfold find_diversifier in
      subst (λ k. Found (find_loop encrypt has_g_d (256 ^ 11) k) (number j)) (index_of-number j l h)
        found
