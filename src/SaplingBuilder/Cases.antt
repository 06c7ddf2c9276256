-- ===== src/SaplingBuilder/Cases.antt =====
-- What `add_spend` and `add_convert` did, from what they returned.
use masp.Base.{
  ℕ, ◌≡◌, refl, ap, Bool-cases, ◌^◌, ◌<◌, Option, none, some, Option-cases, inl, inr, ◌⊎◌, [], ◌∷◌,
  ◌++◌, arith,
}
use masp.Base.Int.{pos}
use masp.Base.Bytes.{Bytes}
use masp.Base.Maybe.{◌>>=◌}
use masp.Base.Result.{Result, ok, Result-cases}
use masp.Words.{i128}
use masp.AssetType.Bits.{bytes_ord}
use masp.Amount
use masp.Amount.{ValueSum, get, from_pair, from_sum}
use masp.Memo.{MemoBytes}
use masp.Merkle.Hash.{Hashable}
use masp.Sapling.{SaplingCrypto, PaymentAddress, g_d, cmu}
use masp.SaplingBuilder.{
  Error, ScalarField, SpendDescriptionInfo, ConvertDescriptionInfo, SaplingOutputInfo,
  SaplingBuilder, convert_cmu, new_internal, root_of, agree, add_spend, add_convert,
}

module _ (c : SaplingCrypto) (F : ScalarField c) (H : Hashable Bytes) where
  -- The root of the path of a spend.
  abbrev pub spend_root : {Key : Type 0} → SpendDescriptionInfo c Key → Option c.Coordinate
  spend_root s = cmu c s.note >>= λ node. root_of c F H s.merkle_path node

  abbrev pub convert_root : ConvertDescriptionInfo c → Option c.Coordinate
  convert_root d = root_of c F H d.merkle_path (convert_cmu c d.allowed)

module _ (c : SaplingCrypto) (F : ScalarField c) where
  pub agree_lem :
      (old : Option c.Coordinate) (root anchor : c.Coordinate)
      → agree c F old root ≡ ok anchor
      → (anchor ≡ root) × ((old ≡ none) ⊎ (old ≡ some anchor))
  unfolding agree
  agree_lem none root anchor e = (cc e, inl refl)
  agree_lem (some old) root anchor e = elim (Bool-cases (F.is_same root old)) [
    | inl t ↦
        let same : root ≡ old = (F.is_same_iff root old).0 t in
        let kept : old ≡ anchor = ground (arith, t, e) in (cc (same, kept), inr (ap some kept))
    | inr f ↦ absurd (ground (arith, f, e))
  ]

-- What a method that added a spend did.
pub record SpendAdded (c : SaplingCrypto) (F : ScalarField c) (H : Hashable Bytes) {P Key : Type 0}
    (b b' : SaplingBuilder c P Key) (s : SpendDescriptionInfo c Key) : Type 0 where
  pub anchor : c.Coordinate
  pub value_balance : ValueSum Bytes
  pub root : spend_root c F H s ≡ some anchor
  pub before : (b.spend_anchor ≡ none) ⊎ (b.spend_anchor ≡ some anchor)
  pub added :
      Amount.add i128 b.value_balance (from_pair s.note.asset_type (pos s.note.value))
      ≡ some value_balance
  pub after : b' ≡ record b {
    spend_anchor = some anchor;
    value_balance = value_balance;
    spends = b.spends ++ s ∷ [];
  }

pub record ConvertAdded (c : SaplingCrypto) (F : ScalarField c) (H : Hashable Bytes)
    {P Key : Type 0} (b b' : SaplingBuilder c P Key) (d : ConvertDescriptionInfo c) : Type 0 where
  pub anchor : c.Coordinate
  pub amount : ValueSum Bytes
  pub product : ValueSum Bytes
  pub value_balance : ValueSum Bytes
  pub root : convert_root c F H d ≡ some anchor
  pub before : (b.convert_anchor ≡ none) ⊎ (b.convert_anchor ≡ some anchor)
  pub taken : from_sum d.allowed.assets ≡ some amount
  pub scaled : Amount.mul i128 amount (pos d.value) ≡ some product
  pub added : Amount.add i128 b.value_balance product ≡ some value_balance
  pub after : b' ≡ record b {
    convert_anchor = some anchor;
    value_balance = value_balance;
    converts = b.converts ++ d ∷ [];
  }

module _ (c : SaplingCrypto) (F : ScalarField c) (H : Hashable Bytes) {P Key : Type 0}
    (b : SaplingBuilder c P Key) {b' : SaplingBuilder c P Key} {r : Result Error (Unit {0})} where
  pub add_spend-cases :
      (s : SpendDescriptionInfo c Key)
      → add_spend c F H b s.extsk s.diversifier s.note s.merkle_path ≡ some (r, b')
      → (b' ≡ b) ⊎ SpendAdded c F H b b' s
  unfolding add_spend
  add_spend-cases s e = elim (Option-cases (cmu c s.note)) [
    | inl n ↦ absurd (ground (arith, n, e))
    | inr (node, en) ↦ elim (Option-cases (root_of c F H s.merkle_path node)) [
      | inl n ↦ absurd (ground (arith, en, n, e))
      | inr (root, er) ↦ elim (Result-cases (agree c F b.spend_anchor root)) [
        | inl (x, ex) ↦ inl (ground (arith, en, er, ex, e))
        | inr (anchor, ea) ↦
            let paid = from_pair s.note.asset_type (pos s.note.value) in
            let (same, before) = agree_lem c F b.spend_anchor root anchor ea in
            elim (Option-cases (Amount.add i128 b.value_balance paid)) [
              | inl n ↦ absurd (ground (arith, en, er, ea, n, e))
              | inr (vb, ev) ↦ inr (record {
                anchor = anchor;
                value_balance = vb;
                root = ground (arith, en, er, same);
                before = before;
                added = ev;
                after = ground (arith, en, er, ea, ev, e);
              })
            ]
      ]
    ]
  ]

  pub add_convert-cases :
      (d : ConvertDescriptionInfo c)
      → add_convert c F H b d.allowed d.value d.merkle_path ≡ some (r, b')
      → (b' ≡ b) ⊎ ConvertAdded c F H b b' d
  unfolding add_convert
  add_convert-cases d e =
      elim (Option-cases (root_of c F H d.merkle_path (convert_cmu c d.allowed))) [
        | inl n ↦ absurd (ground (arith, n, e))
        | inr (root, er) ↦ elim (Result-cases (agree c F b.convert_anchor root)) [
          | inl (x, ex) ↦ inl (ground (arith, er, ex, e))
          | inr (anchor, ea) ↦ elim (Option-cases (from_sum d.allowed.assets)) [
            | inl n ↦ absurd (ground (arith, er, ea, n, e))
            | inr (amount, et) ↦ elim (Option-cases (Amount.mul i128 amount (pos d.value))) [
              | inl n ↦ absurd (ground (arith, er, ea, et, n, e))
              | inr (product, es) ↦
                  let (same, before) = agree_lem c F b.convert_anchor root anchor ea in
                  elim (Option-cases (Amount.add i128 b.value_balance product)) [
                    | inl n ↦ absurd (ground (arith, er, ea, et, es, n, e))
                    | inr (vb, ev) ↦ inr (record {
                      anchor = anchor;
                      amount = amount;
                      product = product;
                      value_balance = vb;
                      root = cc (er, same);
                      before = before;
                      taken = et;
                      scaled = es;
                      added = ev;
                      after = ground (arith, er, ea, et, es, ev, e);
                    })
                  ]
            ]
          ]
        ]
      ]

pub new_internal_lem :
    (c : SaplingCrypto) (ovk : Option Bytes) (to : PaymentAddress c) (asset_type : Bytes)
    (value : ℕ) (memo : MemoBytes) (o : SaplingOutputInfo c)
    → new_internal c ovk to asset_type value memo ≡ ok o
    → (o.note.asset_type ≡ asset_type) × (o.note.value ≡ value) × (value < 2 ^ 64)
unfolding new_internal
new_internal_lem c ovk to asset_type value memo o e = elim (Option-cases (g_d c to.diversifier)) [
  | inl n ↦ absurd (ground (arith, n, e))
  | inr (g, eg) ↦ ground (arith, eg, e)
]
