-- ===== src/SaplingBuilder/Accepts.antt =====
-- Which spends a builder takes.
use masp.Base.{
  ◌≡◌, ◌≢◌, ◌∙◌, refl, ap₂, sym, subst, true, Bool-cases, ◌^◌, ◌<◌, Option, none, some,
  Option-cases, inl, inr, ◌⊎◌, [], ◌∷◌, ◌++◌, arith,
}
use masp.Base.Int.{pos, ◌+ℤ◌}
use masp.Base.Bytes.{Bytes}
use masp.Base.Result.{ok, err}
use masp.Words.{i128, in_range}
use masp.AssetType.Bits.{bytes_ord}
use masp.Amount
use masp.Amount.{ValueSum, get, from_pair, from_sum}
use masp.Amount.Single.{from_pair-IsValid, get-from_pair}
use masp.Merkle.Hash.{Hashable}
use masp.Sapling.{SaplingCrypto, cmu}
use masp.SaplingBuilder.{
  anchor_mismatch, ScalarField, SpendDescriptionInfo, SaplingBuilder, root_of, agree, add_spend,
}
use masp.SaplingBuilder.Totals.{total_of, total_of-snoc, spent, paid, converted, net}
use masp.SaplingBuilder.Cases.{spend_root}
use masp.SaplingBuilder.Consistent.{Reaches, Reaches-IsConsistent}
use masp.SaplingBuilder.Invariant.{fits_i128, add_first}
use masp.Amount.Add.{checked_add_sound, checked_add_total}

module _ (c : SaplingCrypto) (F : ScalarField c) where
  agree_same :
      (old : Option c.Coordinate) (root : c.Coordinate)
      → (old ≡ none) ⊎ (old ≡ some root)
      → agree c F old root ≡ ok root
  unfolding agree
  agree_same old root (inl n) = ground (arith, n)
  agree_same old root (inr o) =
      let same : F.is_same root root ≡ true = (F.is_same_iff root root).1 refl in
      ground (arith, o, same)

  agree_other :
      (old root : c.Coordinate) → old ≢ root → agree c F (some old) root ≡ err anchor_mismatch
  unfolding agree
  agree_other old root h = elim (Bool-cases (F.is_same root old)) [
    | inl t ↦ absurd (h (sym ((F.is_same_iff root old).0 t)))
    | inr f ↦ ground (arith, f)
  ]

module _ (c : SaplingCrypto) (F : ScalarField c) (H : Hashable Bytes) {P Key : Type 0} where
  -- What a spend that is taken makes of the builder.
  abbrev pub Takes : SaplingBuilder c P Key → SpendDescriptionInfo c Key → c.Coordinate → Type 0
  Takes b s root =
      (b' : SaplingBuilder c P Key) × (add_spend c F H b s.extsk s.diversifier s.note s.merkle_path
        ≡ some (ok tt, b'))
      × (b'.spends ≡ b.spends ++ s ∷ [])
      × (b'.spend_anchor ≡ some root)
      × ((k : Bytes) → net b' k ≡ net b k +ℤ spent k s)
      × ((k : Bytes) → get b'.value_balance k ≡ net b' k)

  -- To a builder that the methods have made, add_spend adds a note of 64 bits whose path has a
  -- root, if there is no anchor yet or the root is the anchor, and the amounts of the new balance
  -- are in the range of i128: the root is the anchor then, the worth of the builder has grown by
  -- the value of the note, and the value balance is the new worth. If the anchor is another root,
  -- the call fails with AnchorMismatch and leaves the builder as it was.
  pub add_spend_lem :
      (b : SaplingBuilder c P Key) (s : SpendDescriptionInfo c Key) (root : c.Coordinate)
      → Reaches c F H b
      → s.note.value < 2 ^ 64
      → spend_root c F H s ≡ some root
      → ((b.spend_anchor ≡ none) ⊎ (b.spend_anchor ≡ some root)
          → ((k : Bytes) → in_range i128 (net b k +ℤ spent k s) ≡ true)
          → Takes b s root)
        × ((old : c.Coordinate)
            → b.spend_anchor ≡ some old
            → old ≢ root
            → add_spend c F H b s.extsk s.diversifier s.note s.merkle_path
              ≡ some (err anchor_mismatch, b))
  unfolding add_spend
  add_spend_lem b s root w small e =
      let h = Reaches-IsConsistent c F H b w in
      elim (Option-cases (cmu c s.note)) [
        | inl n ↦ absurd (ground (arith, n, e))
        | inr (node, en) ↦
            let er : root_of c F H s.merkle_path node ≡ some root = ground (arith, en, e) in
            (
              λ before fits.
                  let amount = from_pair s.note.asset_type (pos s.note.value) in
                  let valid =
                    from_pair-IsValid i128 s.note.asset_type (pos s.note.value)
                      (fits_i128 s.note.value small) in
                  let sums : (k : Bytes)
                      → net b k +ℤ spent k s ≡ get b.value_balance k +ℤ get amount k =
                    λ k. sym (
                      ap₂ ◌+ℤ◌ (h.worth k)
                        (get-from_pair s.note.asset_type (pos s.note.value) k)) in
                  let (vb, ev) =
                    checked_add_total i128 b.value_balance amount h.valid valid
                      (λ k. subst (λ z. in_range i128 z ≡ true) (sums k) (fits k)) in
                  let added : Amount.add i128 b.value_balance amount ≡ some vb =
                    unfold Amount.add in ev in
                  let ea = agree_same c F b.spend_anchor root before in
                  (
                    record b {
                      spend_anchor = some root;
                      value_balance = vb;
                      spends = b.spends ++ s ∷ [];
                    },
                    ground (arith, en, er, ea, added),
                    refl,
                    refl,
                    λ k. rw (total_of-snoc (spent k) b.spends s) (
                        sym (
                          add_first (total_of (spent k) b.spends)
                            (total_of (converted k) b.converts) (total_of (paid k) b.outputs)
                            (spent k s))),
                    λ k. rw (total_of-snoc (spent k) b.spends s) (
                        (checked_add_sound i128 b.value_balance amount h.valid valid {s = vb} ev).1
                          k
                        ∙ sym (sums k)
                        ∙ add_first (total_of (spent k) b.spends)
                            (total_of (converted k) b.converts) (total_of (paid k) b.outputs)
                            (spent k s)),
                  ),
              λ old eo other.
                  let ea : agree c F b.spend_anchor root ≡ err anchor_mismatch =
                    subst (λ a. agree c F a root ≡ err anchor_mismatch) (sym eo)
                      (agree_other c F old root other) in
                  ground (arith, en, er, ea),
            )
      ]
