-- ===== src/SaplingBuilder/Invariant.antt =====
-- The invariant of a builder that its methods have filled: every spend and every conversion has
-- the root that the builder keeps as its anchor, and the value balance is the worth of the parts.
use masp.Base.{
  ◌≡◌, refl, ap₂, ℕ, sym, ◌∙◌, subst, true, ◌^◌, ◌<◌, Option, none, some, Option-cases, inl, inr,
  ◌⊎◌, List, [], ◌∷◌, ◌++◌, All, arith,
}
use masp.Base.Int.{ℤ, pos, ◌+ℤ◌, ◌-ℤ◌, int_laws}
use masp.Base.Bytes.{Bytes}
use masp.Base.Result.{Result, Result-cases}
use masp.Words.{i128, in_range}
use masp.AssetType.Bits.{bytes_ord}
use masp.Amount
use masp.Amount.{ValueSum, get, from_pair, from_sum}
use masp.Amount.Add.{checked_add_sound, checked_sub_sound}
use masp.Amount.Scale.{mul_sound, from_sum_lem}
use masp.Amount.Single.{from_pair-IsValid, get-from_pair}
use masp.Amount.Valid.{IsValid, zero-IsValid, get-zero}
use masp.Consensus.{BlockHeight}
use masp.Memo.{MemoBytes}
use masp.Merkle.Hash.{Hashable}
use masp.Sapling.{SaplingCrypto, PaymentAddress}
use masp.SaplingBuilder.{
  Error, ScalarField, SpendDescriptionInfo, ConvertDescriptionInfo, SaplingOutputInfo,
  SaplingBuilder, new_internal, new, add_output,
}
use masp.SaplingBuilder.Totals.{
  total_of, total_of-snoc, All-snoc, snoc-nonempty, spent, paid, converted, net,
}
use masp.SaplingBuilder.Cases.{spend_root, convert_root, SpendAdded, ConvertAdded, new_internal_lem}

-- There is no anchor where there is nothing that has a root, and otherwise it is the root of all.
pub record Rooted {R A : Type 0} (root : A → Option R) (anchor : Option R) (xs : List A)
    : Type 0 where
  pub present : anchor ≡ none → xs ≡ []
  pub absent : xs ≡ [] → anchor ≡ none
  pub shared : All (λ x. root x ≡ anchor) xs

module _ (c : SaplingCrypto) (F : ScalarField c) (H : Hashable Bytes) {P Key : Type 0} where
  pub record IsConsistent (b : SaplingBuilder c P Key) : Type 0 where
    pub spend_anchor : Rooted (λ s. spend_root c F H s) b.spend_anchor b.spends
    pub convert_anchor : Rooted (λ d. convert_root c F H d) b.convert_anchor b.converts
    pub valid : IsValid i128 b.value_balance
    pub worth : (k : Bytes) → get b.value_balance k ≡ net b k

-- One more part whose root is the anchor.
Rooted-snoc :
    {R A : Type 0} (root : A → Option R) (old : Option R) (anchor : R) (xs : List A) (x : A)
    → Rooted root old xs
    → root x ≡ some anchor
    → (old ≡ none) ⊎ (old ≡ some anchor)
    → Rooted root (some anchor) (xs ++ x ∷ [])
Rooted-snoc root old anchor xs x r e (inl n) =
    let nothing : xs ≡ [] = r.present n in
    rw nothing (record { present = λ a. cc a; absent = λ a. cc a; shared = (e, tt) })
Rooted-snoc root old anchor xs x r e (inr o) = record {
  present = λ a. cc a;
  absent = λ a. absurd (snoc-nonempty xs x a);
  shared =
      All-snoc (λ y. root y ≡ some anchor) xs x (subst (λ a. All (λ y. root y ≡ a) xs) o r.shared)
        e;
}

pub fits_i128 : (a : ℕ) → a < 2 ^ 64 → in_range i128 (pos a) ≡ true
unfolding in_range
fits_i128 a h = ground arith

pub add_first : (a b d x : ℤ) → a +ℤ b -ℤ d +ℤ x ≡ a +ℤ x +ℤ b -ℤ d
add_first a b d x = omega int_laws

add_second : (a b d x : ℤ) → a +ℤ b -ℤ d +ℤ x ≡ a +ℤ (b +ℤ x) -ℤ d
add_second a b d x = omega int_laws

subtract_third : (a b d x : ℤ) → a +ℤ b -ℤ d -ℤ x ≡ a +ℤ b -ℤ (d +ℤ x)
subtract_third a b d x = omega int_laws

module _ (c : SaplingCrypto) (F : ScalarField c) (H : Hashable Bytes) {P Key : Type 0} where
  pub new-IsConsistent :
      (params : P) (height : BlockHeight) → IsConsistent c F H (new c {Key = Key} params height)
  unfolding new
  new-IsConsistent params height = record {
    spend_anchor = record { present = λ e. refl; absent = λ e. refl; shared = tt };
    convert_anchor = record { present = λ e. refl; absent = λ e. refl; shared = tt };
    valid = zero-IsValid i128;
    worth = λ k. get-zero k ∙ omega int_laws;
  }

  spend_worth :
      (b : SaplingBuilder c P Key) (s : SpendDescriptionInfo c Key) (v : ℤ) (k : Bytes)
      → v ≡ net b k +ℤ spent k s
      → v
        ≡ total_of (spent k) (b.spends ++ s ∷ [])
          +ℤ total_of (converted k) b.converts
          -ℤ total_of (paid k) b.outputs
  spend_worth b s v k e = rw (total_of-snoc (spent k) b.spends s) (
      e
      ∙ add_first (total_of (spent k) b.spends) (total_of (converted k) b.converts)
          (total_of (paid k) b.outputs) (spent k s))

  pub spend-IsConsistent :
      (b b' : SaplingBuilder c P Key) (s : SpendDescriptionInfo c Key)
      → s.note.value < 2 ^ 64
      → IsConsistent c F H b
      → SpendAdded c F H b b' s
      → IsConsistent c F H b'
  spend-IsConsistent b b' s small h a =
      let amount = from_pair s.note.asset_type (pos s.note.value) in
      let valid =
        from_pair-IsValid i128 s.note.asset_type (pos s.note.value)
          (fits_i128 s.note.value small) in
      let (v, g) =
        checked_add_sound i128 b.value_balance amount h.valid valid {s = a.value_balance}
          (unfold Amount.add in a.added) in
      subst (λ x. IsConsistent c F H x) (sym a.after)
        (record {
          spend_anchor =
              Rooted-snoc (λ x. spend_root c F H x) b.spend_anchor a.anchor b.spends s
                h.spend_anchor a.root a.before;
          convert_anchor = h.convert_anchor;
          valid = v;
          worth = λ k.
              spend_worth b s (get a.value_balance k) k
                (g k ∙ ap₂ ◌+ℤ◌ (h.worth k) (get-from_pair s.note.asset_type (pos s.note.value) k));
        })

  pub convert-IsConsistent :
      (b b' : SaplingBuilder c P Key) (d : ConvertDescriptionInfo c)
      → IsValid i128 d.allowed.assets
      → IsConsistent c F H b
      → ConvertAdded c F H b b' d
      → IsConsistent c F H b'
  convert-IsConsistent b b' d vd h a =
      let same : from_sum d.allowed.assets ≡ some d.allowed.assets =
        from_sum_lem i128 d.allowed.assets vd in
      let kept : d.allowed.assets ≡ a.amount = cc (same, a.taken) in
      let scaled : Amount.mul i128 d.allowed.assets (pos d.value) ≡ some a.product =
        cc (kept, a.scaled) in
      let (vp, gp) = mul_sound i128 d.allowed.assets {s = a.product} vd (pos d.value) scaled in
      let (v, g) =
        checked_add_sound i128 b.value_balance a.product h.valid vp {s = a.value_balance}
          (unfold Amount.add in a.added) in
      subst (λ x. IsConsistent c F H x) (sym a.after)
        (record {
          spend_anchor = h.spend_anchor;
          convert_anchor =
              Rooted-snoc (λ x. convert_root c F H x) b.convert_anchor a.anchor b.converts d
                h.convert_anchor a.root a.before;
          valid = v;
          worth = λ k. rw (total_of-snoc (converted k) b.converts d) (
              g k
              ∙ ap₂ ◌+ℤ◌ (h.worth k) (gp k)
              ∙ add_second (total_of (spent k) b.spends) (total_of (converted k) b.converts)
                  (total_of (paid k) b.outputs) (converted k d));
        })

  -- The output that is added has the asset and the value that were asked for.
  output-IsConsistent :
      (b b' : SaplingBuilder c P Key) (o : SaplingOutputInfo c) (vb : ValueSum Bytes)
      → o.note.value < 2 ^ 64
      → IsConsistent c F H b
      → Amount.sub i128 b.value_balance (from_pair o.note.asset_type (pos o.note.value)) ≡ some vb
      → b' ≡ record b { value_balance = vb; outputs = b.outputs ++ o ∷ [] }
      → IsConsistent c F H b'
  output-IsConsistent b b' o vb small h e after =
      let amount = from_pair o.note.asset_type (pos o.note.value) in
      let valid =
        from_pair-IsValid i128 o.note.asset_type (pos o.note.value)
          (fits_i128 o.note.value small) in
      let (v, g) =
        checked_sub_sound i128 b.value_balance amount h.valid valid {s = vb}
          (unfold Amount.sub in e) in
      subst (λ x. IsConsistent c F H x) (sym after)
        (record {
          spend_anchor = h.spend_anchor;
          convert_anchor = h.convert_anchor;
          valid = v;
          worth = λ k. rw (total_of-snoc (paid k) b.outputs o) (
              g k
              ∙ ap₂ ◌-ℤ◌ (h.worth k) (get-from_pair o.note.asset_type (pos o.note.value) k)
              ∙ subtract_third (total_of (spent k) b.spends) (total_of (converted k) b.converts)
                  (total_of (paid k) b.outputs) (paid k o));
        })

  pub add_output-IsConsistent :
      (b b' : SaplingBuilder c P Key) (r : Result Error (Unit {0})) (ovk : Option Bytes)
      (to : PaymentAddress c) (asset_type : Bytes) (value : ℕ) (memo : MemoBytes)
      → IsConsistent c F H b
      → add_output c b ovk to asset_type value memo ≡ some (r, b')
      → IsConsistent c F H b'
  unfolding add_output
  add_output-IsConsistent b b' r ovk to asset_type value memo h e =
      elim (Result-cases (new_internal c ovk to asset_type value memo)) [
        | inl (x, ex) ↦
            let same : b' ≡ b = ground (arith, ex, e) in
            subst (λ x. IsConsistent c F H x) (sym same) h
        | inr (o, eo) ↦
            let (asset, amount, small) = new_internal_lem c ovk to asset_type value memo o eo in
            elim (Option-cases
              (Amount.sub i128 b.value_balance (from_pair asset_type (pos value)))) [
                | inl n ↦ absurd (ground (arith, eo, n, e))
                | inr (vb, ev) ↦
                    output-IsConsistent b b' o vb (omega arith) h (cc (asset, amount, ev))
                      (ground (arith, eo, ev, e))
              ]
      ]
