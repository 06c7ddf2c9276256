-- ===== src/AssetType/Derive.antt =====
-- The rejection loop, and what a derived or read asset type is good for.
use masp.Base.{
  ℕ, zero, suc, ◌+◌, ◌≤◌, ◌<◌, ◌≡◌, ◌≢◌, refl, ap, ◌∙◌, ◌⊎◌, inl, inr, none, some, arith,
}
use masp.Base.{Option-cases, ◌++◌, length, [], ◌∷◌}
use native.Mathlib.Decide.{ℕ_discrete}
use masp.Base.Bytes.{Bytes, read_exact-append}
use masp.Base.Result.{ok, err}
use masp.AssetType.{
  AssetCrypto, AssetType, hash_to_point, new_with_nonce, new_loop, new, from_identifier,
  asset_generator, read, gh_first_block, asset_identifier_personalization,
}

module _ (c : AssetCrypto) (name : Bytes) where
  -- The least nonce below 256 that derives an asset type, if one does.
  abbrev pub IsDerived : ℕ → AssetType → Type 0
  IsDerived from a =
      (nonce : ℕ) × (from ≤ nonce)
      × (nonce < 256)
      × (new_with_nonce c name nonce ≡ some a)
      × ((n : ℕ) → from ≤ n → n < nonce → new_with_nonce c name n ≡ none)

  abbrev pub NoneDerived : ℕ → Type 0
  NoneDerived from = (n : ℕ) → from ≤ n → n < 256 → new_with_nonce c name n ≡ none

  step :
      (fuel from : ℕ)
      → new_with_nonce c name from ≡ none
      → from + 1 < 256
      → new_loop c (suc fuel) name from ≡ new_loop c fuel name (from + 1)
  step fuel from n h = unfold new_loop in ground (arith, n, h)

  later :
      (from : ℕ)
      → new_with_nonce c name from ≡ none
      → (k to : ℕ) → from ≤ k
      → k < to
      → ((n : ℕ) → from + 1 ≤ n → n < to → new_with_nonce c name n ≡ none)
      → new_with_nonce c name k ≡ none
  later from h k to p q rest = elim (ℕ_discrete k from) [
    | yes e ↦ rw e h
    | no d ↦ rest k (omega arith) q
  ]

  new_loop_lem :
      (fuel from : ℕ)
      → from + suc fuel ≡ 256
      → ((a : AssetType) × (new_loop c (suc fuel) name from ≡ some (ok a)) × IsDerived from a)
        ⊎ ((new_loop c (suc fuel) name from ≡ some (err tt)) × NoneDerived from)
  new_loop_lem zero from h = elim (Option-cases (new_with_nonce c name from)) [
    | inr (a, e) ↦ inl (
      a,
      unfold new_loop in ground (arith, e),
      (from, omega arith, omega arith, e, λ n p q. absurd (omega arith)),
    )
    | inl n ↦ inr (
      unfold new_loop in ground (arith, n, h),
      λ k p q. let same : k ≡ from = omega arith in rw same n,
    )
  ]
  new_loop_lem (suc fuel) from h = elim (Option-cases (new_with_nonce c name from)) [
    | inr (a, e) ↦ inl (
      a,
      unfold new_loop in ground (arith, e),
      (from, omega arith, omega arith, e, λ n p q. absurd (omega arith)),
    )
    | inl n ↦
        let next : new_loop c (suc (suc fuel)) name from ≡ new_loop c (suc fuel) name (from + 1) =
          step (suc fuel) from n (omega arith) in
        elim (new_loop_lem fuel (from + 1) (omega arith)) [
          | inl (a, e, (nonce, lo, hi, at, below)) ↦
              inl
                (a, next ∙ e, (nonce, omega arith, hi, at, λ k p q. later from n k nonce p q below))
          | inr (e, none_left) ↦ inr (next ∙ e, λ k p q. later from n k 256 p q none_left)
        ]
  ]

  -- The rejection loop of new ends for every name within the 256 rounds given as fuel: it returns
  -- the asset type of the least nonce that derives one, and fails exactly where no nonce below 256
  -- derives one.
  pub new_lem :
      ((a : AssetType) × (new c name ≡ some (ok a)) × IsDerived 0 a)
      ⊎ ((new c name ≡ some (err tt)) × NoneDerived 0)
  new_lem = unfold new in new_loop_lem 255 0 refl

module _ (c : AssetCrypto) where
  -- Reading takes the 32 bytes of an identifier that hashes to a point.
  pub read-append :
      (identifier rest : Bytes)
      → length identifier ≡ 32
      → hash_to_point c identifier ≢ none
      → read c (identifier ++ rest) ≡ ok (record { identifier = identifier; nonce = none }, rest)
  read-append identifier rest len point = elim (Option-cases (hash_to_point c identifier)) [
    | inl n ↦ absurd (point n)
    | inr (p, e) ↦
        let found : from_identifier c identifier
            ≡ some (record { identifier = identifier; nonce = none }) =
          unfold from_identifier in ground (arith, e) in
        unfold read in ground (arith, found, read_exact-append identifier rest 32 len)
  ]

  derived_point :
      (name : Bytes) (nonce : ℕ) (a : AssetType)
      → new_with_nonce c name nonce ≡ some a
      → (asset_generator c a ≢ none) × (length a.identifier ≡ 32)
  derived_point name nonce a e =
      let h = c.blake2s asset_identifier_personalization (gh_first_block ++ name ++ nonce ∷ []) in
      elim (Option-cases (hash_to_point c h)) [
        | inl n ↦ absurd (unfold new_with_nonce in ground (arith, n, e))
        | inr (p, f) ↦
            let made : a ≡ record { identifier = h; nonce = some nonce } =
              unfold new_with_nonce in ground (arith, f, e) in
            rw made (
              λ n. unfold asset_generator in cc (n, f),
              c.length-blake2s asset_identifier_personalization
                  (gh_first_block ++ name ++ nonce ∷ []),
            )
      ]

  -- An asset type that new returns has a generator, so the expect of asset_generator does not
  -- fire, and read takes its 32 bytes as an asset type with the same identifier and no nonce.
  pub read-new :
      (name rest : Bytes) (a : AssetType)
      → new c name ≡ some (ok a)
      → (asset_generator c a ≢ none)
        × (read c (a.identifier ++ rest)
            ≡ ok (record { identifier = a.identifier; nonce = none }, rest))
  read-new name rest a e = elim (new_lem c name) [
    | inr (f, _) ↦ absurd (cc (e, f))
    | inl (b, f, (nonce, _, _, at, _)) ↦
        let same : b ≡ a = ground (arith, e, f) in
        let (point, len) = derived_point name nonce a (at ∙ ap some same) in
        (point, read-append a.identifier rest len (unfold asset_generator in point))
  ]
