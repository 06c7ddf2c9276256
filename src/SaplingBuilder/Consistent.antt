-- ===== src/SaplingBuilder/Consistent.antt =====
-- The builders that the methods make of a new one satisfy the invariant.
use masp.Base.{◌≡◌, ℕ, sym, subst, ◌^◌, ◌<◌, Option, some, inl, inr}
use masp.Base.Bytes.{Bytes}
use masp.Base.Result.{Result}
use masp.Words.{i128}
use masp.AssetType.Bits.{bytes_ord}
use masp.Amount.Valid.{IsValid}
use masp.Consensus.{BlockHeight}
use masp.Convert.{AllowedConversion}
use masp.Memo.{MemoBytes}
use masp.Merkle.Hash.{Hashable}
use masp.Merkle.Path.{MerklePath}
use masp.Sapling.{SaplingCrypto, PaymentAddress, Note}
use masp.SaplingBuilder.{
  Error, ScalarField, SpendDescriptionInfo, ConvertDescriptionInfo, SaplingBuilder, new, add_spend,
  add_convert, add_output,
}
use masp.SaplingBuilder.Cases.{add_spend-cases, add_convert-cases}
use masp.SaplingBuilder.Invariant.{
  IsConsistent, new-IsConsistent, spend-IsConsistent, convert-IsConsistent, add_output-IsConsistent,
}

module _ (c : SaplingCrypto) (F : ScalarField c) (H : Hashable Bytes) {P Key : Type 0} where
  -- The builders that the methods make of a new one, errors included. A note has a value of 64
  -- bits, and the sum of a conversion is a valid one.
  pub data Reaches : SaplingBuilder c P Key → Type 0 where
    start : (params : P) (height : BlockHeight) → Reaches (new c params height)
    spend :
        (b b' : SaplingBuilder c P Key) (r : Result Error (Unit {0})) (extsk : Key)
        (diversifier : Bytes) (note : Note c) (merkle_path : MerklePath Bytes)
        → Reaches b
        → note.value < 2 ^ 64
        → add_spend c F H b extsk diversifier note merkle_path ≡ some (r, b')
        → Reaches b'
    convert :
        (b b' : SaplingBuilder c P Key) (r : Result Error (Unit {0}))
        (allowed : AllowedConversion c.assets) (value : ℕ) (merkle_path : MerklePath Bytes)
        → Reaches b
        → IsValid i128 allowed.assets
        → add_convert c F H b allowed value merkle_path ≡ some (r, b')
        → Reaches b'
    output :
        (b b' : SaplingBuilder c P Key) (r : Result Error (Unit {0})) (ovk : Option Bytes)
        (to : PaymentAddress c) (asset_type : Bytes) (value : ℕ) (memo : MemoBytes)
        → Reaches b
        → add_output c b ovk to asset_type value memo ≡ some (r, b')
        → Reaches b'

  -- Of a builder that add_spend, add_convert and add_output make of a new one, the refused calls
  -- among them: the spends have one root, which is the anchor that the builder keeps, and there is
  -- an anchor exactly where there is a spend; so with the conversions; and the value balance is
  -- valid and holds, of every asset, the values of the spends and the multiples of the
  -- conversions, less the values of the outputs.
  pub Reaches-IsConsistent : (b : SaplingBuilder c P Key) → Reaches b → IsConsistent c F H b
  Reaches-IsConsistent b (start params height) = new-IsConsistent c F H params height
  Reaches-IsConsistent b' (spend b b'' r extsk diversifier note path w small e) =
      let h = Reaches-IsConsistent b w in
      let s : SpendDescriptionInfo c Key = record {
        extsk = extsk;
        diversifier = diversifier;
        note = note;
        merkle_path = path;
      } in
      elim (add_spend-cases c F H b {b' = b'} {r = r} s e) [
        | inl same ↦ subst (λ x. IsConsistent c F H x) (sym same) h
        | inr added ↦ spend-IsConsistent c F H b b' s small h added
      ]
  Reaches-IsConsistent b' (convert b b'' r allowed value path w valid e) =
      let h = Reaches-IsConsistent b w in
      let d : ConvertDescriptionInfo c = record {
        allowed = allowed;
        value = value;
        merkle_path = path;
      } in
      elim (add_convert-cases c F H b {b' = b'} {r = r} d e) [
        | inl same ↦ subst (λ x. IsConsistent c F H x) (sym same) h
        | inr added ↦ convert-IsConsistent c F H b b' d valid h added
      ]
  Reaches-IsConsistent b' (output b b'' r ovk to asset_type value memo w e) =
      add_output-IsConsistent c F H b b' r ovk to asset_type value memo (Reaches-IsConsistent b w) e
