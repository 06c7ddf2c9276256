-- ===== src/SaplingBuilder/Build.antt =====
-- masp_primitives/src/transaction/components/sapling/builder.rs: how `SaplingBuilder::build` makes
-- the descriptions of the spends and of the conversions, in a shuffled order that the metadata
-- records. The prover and the shuffle are parameters. `none` is a panic. The outputs and the
-- progress reports are not modelled.
pub mod Placed
pub mod Order
pub mod Spends
pub mod Converts
use masp.Base.{
  ℕ, zero, suc, ◌+◌, ◌≡◌, Bool, true, Option, none, some, List, [], ◌∷◌, ◌++◌, length, replicate,
  get_elem?,
}
use masp.Base.Bytes.{Bytes}
use masp.Base.Maybe.{◌>>=◌}
use masp.Base.Result.{Result, ok, err}
use masp.Convert.{AllowedConversion}
use masp.Merkle.Path.{MerklePath}
use masp.Sapling.{SaplingCrypto, Note, Rseed, cm_full_point}
use masp.Sapling.Codec.{ViewingKey, ProofGenerationKey}
use masp.SaplingBuilder.Params.{StoredBuildParams, spend_rcv, spend_alpha, convert_rcv}
use masp.SaplingBuilder.{
  Error, spend_proof, convert_proof, SpendDescriptionInfo, ConvertDescriptionInfo, SaplingBuilder,
}

-- `constants::PRF_NF_PERSONALIZATION`
abbrev pub prf_nf_personalization : Bytes
prf_nf_personalization = b'M' ∷ b'A' ∷ b'S' ∷ b'P' ∷ b'_' ∷ b'_' ∷ b'n' ∷ b'f' ∷ []

-- The generators of the nullifiers and of the keys, and `jubjub::Fr::from(u64)`.
pub record Generators (c : SaplingCrypto) : Type 0 where
  pub nullifier_position : c.Point
  pub proof_generation_key : c.Point
  pub scalar_of : ℕ → c.Scalar

module _ (c : SaplingCrypto) (g : Generators c) where
  -- `ProofGenerationKey::to_viewing_key`
  unfoldable pub to_viewing_key : ProofGenerationKey c → ViewingKey c
  to_viewing_key key = record { ak = key.ak; nk = c.mul g.proof_generation_key key.nsk }

  -- `Note::nf`
  unfoldable pub nf : Note c → c.Point → ℕ → Option Bytes
  unfolding cm_full_point
  nf note nk position = do
    cm ← cm_full_point c note
    let rho = c.plus cm (c.mul g.nullifier_position (g.scalar_of position))
    some (c.assets.blake2s prf_nf_personalization (c.to_bytes nk ++ c.to_bytes rho))

-- The trait `TxProver`, for spends and conversions: a proof may fail, and changes the context.
pub record TxProver (c : SaplingCrypto) : Type 1 where
  pub SaplingProvingContext : Type 0
  pub PublicKey : Type 0
  pub prove_spend :
      SaplingProvingContext
      → ProofGenerationKey c
      → Bytes
      → Rseed c
      → c.Scalar
      → Bytes
      → ℕ
      → c.Coordinate
      → MerklePath Bytes
      → c.Scalar
      → Option (Bytes × c.assets.Point × PublicKey) × SaplingProvingContext
  pub prove_convert :
      SaplingProvingContext
      → AllowedConversion c.assets
      → ℕ
      → c.Coordinate
      → MerklePath Bytes
      → c.Scalar
      → Option (Bytes × c.assets.Point) × SaplingProvingContext

-- `SpendDescription<Unauthorized<K>>`: the signature is what there is to sign with.
pub record SpendDescription (c : SaplingCrypto) (pr : TxProver c) (Key : Type 0) : Type 0 where
  pub cv : c.assets.Point
  pub anchor : c.Coordinate
  pub nullifier : Bytes
  pub rk : pr.PublicKey
  pub zkproof : Bytes
  pub spend_auth_sig : SpendDescriptionInfo c Key

pub record ConvertDescription (c : SaplingCrypto) : Type 0 where
  pub cv : c.assets.Point
  pub anchor : c.Coordinate
  pub zkproof : Bytes

-- `iter().enumerate()`, from index `i` on.
unfoldable pub enumerate : {A : Type 0} → ℕ → List A → List (ℕ × A)
enumerate i [] = []
enumerate i (x ∷ xs) = (i, x) ∷ enumerate (suc i) xs

-- `indices[pos] = i`
unfoldable pub write_index : List ℕ → ℕ → ℕ → Option (List ℕ)
write_index [] pos i = none
write_index (x ∷ xs) zero i = some (i ∷ xs)
write_index (x ∷ xs) (suc pos) i = do xs' ← write_index xs pos i; some (x ∷ xs')

-- The map over the shuffled parts, which stops at the first error: the descriptions, the indices
-- of the metadata, and the context of the prover.
module _ {A D S : Type 0} (describe : ℕ → A → S → Option (Result Error (D × S))) where
  unfoldable pub describe_all :
      ℕ → S → List (ℕ × A) → List ℕ → Option (Result Error (List D × List ℕ × S))
  unfolding write_index
  describe_all i ctx [] indices = some (ok ([], indices, ctx))
  describe_all i ctx ((pos, x) ∷ rest) indices = elim (describe i x ctx) [
    | none ↦ none
    | some (err e) ↦ some (err e)
    | some (ok (d, ctx')) ↦ elim (write_index indices pos i) [
      | none ↦ none
      | some indices' ↦ elim (describe_all (suc i) ctx' rest indices') [
        | none ↦ none
        | some (err e) ↦ some (err e)
        | some (ok (ds, indices'', ctx'')) ↦ some (ok (d ∷ ds, indices'', ctx''))
      ]
    ]
  ]

module _ (c : SaplingCrypto) (g : Generators c) (pr : TxProver c) {Key : Type 0}
    (to_proof_generation_key : Key → Option (ProofGenerationKey c))
    (bparams : StoredBuildParams c) where
  unfoldable pub describe_spend :
      c.Coordinate
      → ℕ
      → SpendDescriptionInfo c Key
      → pr.SaplingProvingContext
      → Option (Result Error (SpendDescription c pr Key × pr.SaplingProvingContext))
  unfolding to_viewing_key nf spend_alpha spend_rcv
  describe_spend anchor i spend ctx = do
    key ← to_proof_generation_key spend.extsk
    nullifier ← nf c g spend.note (to_viewing_key c g key).nk spend.merkle_path.position
    alpha ← spend_alpha c bparams i
    rcv ← spend_rcv c bparams i
    let answer =
        pr.prove_spend ctx key spend.diversifier spend.note.rseed alpha spend.note.asset_type
          spend.note.value anchor spend.merkle_path rcv
    elim answer.0 [
      | none ↦ some (err spend_proof)
      | some (zkproof, cv, rk) ↦ some (
          ok (
            record {
              cv = cv;
              anchor = anchor;
              nullifier = nullifier;
              rk = rk;
              zkproof = zkproof;
              spend_auth_sig = spend;
            },
            answer.1,
          ))
    ]

module _ (c : SaplingCrypto) (pr : TxProver c) (bparams : StoredBuildParams c) where
  unfoldable pub describe_convert :
      c.Coordinate
      → ℕ
      → ConvertDescriptionInfo c
      → pr.SaplingProvingContext
      → Option (Result Error (ConvertDescription c × pr.SaplingProvingContext))
  unfolding convert_rcv
  describe_convert anchor i convert ctx = do
    rcv ← convert_rcv c bparams i
    let answer = pr.prove_convert ctx convert.allowed convert.value anchor convert.merkle_path rcv
    elim answer.0 [
      | none ↦ some (err convert_proof)
      | some (zkproof, cv) ↦
          some (ok (record { cv = cv; anchor = anchor; zkproof = zkproof }, answer.1))
    ]

-- `shuffle` of the crate rand, which advances a generator of random numbers: a reordering.
pub record Shuffle (Rng : Type 0) : Type 1 where
  pub shuffle : {A : Type 0} → List A → Rng → List A × Rng
  pub taken :
      {A : Type 0} (xs : List A) (rng : Rng) (i : ℕ) (x : A)
      → get_elem? (shuffle xs rng).0 i ≡ some x
      → (j : ℕ) × (get_elem? xs j ≡ some x)
  pub kept :
      {A : Type 0} (xs : List A) (rng : Rng) (j : ℕ) (x : A)
      → get_elem? xs j ≡ some x
      → (i : ℕ) × (get_elem? (shuffle xs rng).0 i ≡ some x)
  pub length-shuffle :
      {A : Type 0} (xs : List A) (rng : Rng) → length (shuffle xs rng).0 ≡ length xs

module _ {A D S R : Type 0} (sh : Shuffle R)
    (describe : ℕ → A → S → Option (Result Error (D × S))) where
  -- The parts in a shuffled order. The indices of the metadata begin as zeros.
  unfoldable pub build_parts : List A → R → S → Option (Result Error (List D × List ℕ × S))
  unfolding describe_all enumerate
  build_parts xs rng ctx =
      describe_all describe 0 ctx (sh.shuffle (enumerate 0 xs) rng).0 (replicate (length xs) 0)

module _ (c : SaplingCrypto) (g : Generators c) (pr : TxProver c) {P Key R : Type 0}
    (sh : Shuffle R) (to_proof_generation_key : Key → Option (ProofGenerationKey c))
    (bparams : StoredBuildParams c) where
  -- The spends and their indices; the anchor is looked at only where there is a spend.
  unfoldable pub build_spends :
      SaplingBuilder c P Key
      → R
      → pr.SaplingProvingContext
      → Option (Result Error (List (SpendDescription c pr Key) × List ℕ × pr.SaplingProvingContext))
  unfolding build_parts describe_spend
  build_spends b rng ctx = elim b.spends [
    | [] ↦ some (ok ([], [], ctx))
    | s ∷ ss ↦ do
      anchor ← b.spend_anchor
      build_parts sh (describe_spend c g pr to_proof_generation_key bparams anchor) b.spends rng ctx
  ]

module _ (c : SaplingCrypto) (pr : TxProver c) {P Key R : Type 0} (sh : Shuffle R)
    (bparams : StoredBuildParams c) where
  unfoldable pub build_converts :
      SaplingBuilder c P Key
      → R
      → pr.SaplingProvingContext
      → Option (Result Error (List (ConvertDescription c) × List ℕ × pr.SaplingProvingContext))
  unfolding build_parts describe_convert
  build_converts b rng ctx = elim b.converts [
    | [] ↦ some (ok ([], [], ctx))
    | d ∷ ds ↦ do
      anchor ← b.convert_anchor
      build_parts sh (describe_convert c pr bparams anchor) b.converts rng ctx
  ]
