-- ===== src/SaplingBuilder/Build/Spends.antt =====
-- The descriptions that `build` makes of the spends.
use masp.Base.{
  ℕ, ◌≤◌, ◌≡◌, ◌≢◌, refl, ap, sym, ◌∙◌, subst, Option, none, some, Option-cases, inl, inr, List, [],
  ◌∷◌, length, get_elem?, All, arith,
}
use masp.Base.Bytes.{Bytes}
use masp.Base.Result.{ok}
use masp.Merkle.Hash.{Hashable}
use masp.Sapling.{SaplingCrypto, cmu, cm_full_point}
use masp.Sapling.Codec.{ProofGenerationKey}
use masp.SaplingBuilder.{ScalarField, SpendDescriptionInfo, SaplingBuilder}
use masp.SaplingBuilder.Cases.{spend_root}
use masp.SaplingBuilder.Consistent.{Reaches, Reaches-IsConsistent}
use masp.SaplingBuilder.Build.{
  Generators, TxProver, SpendDescription, Shuffle, nf, to_viewing_key, describe_spend, build_parts,
  build_spends,
}
use masp.SaplingBuilder.Params.{StoredBuildParams, spend_alpha, spend_rcv}
use masp.SaplingBuilder.Build.Order.{
  Works, At, All-get, build_parts-At, length-build_parts, build_parts-total, list_cases,
  get_elem?-total,
}

-- A prover that never fails.
pub record IsTotal (c : SaplingCrypto) (pr : TxProver c) : Type 0 where
  pub spends :
      (ctx : pr.SaplingProvingContext) (key : ProofGenerationKey c) (diversifier : Bytes)
      (rseed : masp.Sapling.Rseed c) (ar : c.Scalar) (asset_type : Bytes) (value : ℕ)
      (anchor : c.Coordinate) (path : masp.Merkle.Path.MerklePath Bytes) (rcv : c.Scalar)
      → (pr.prove_spend ctx key diversifier rseed ar asset_type value anchor path rcv).0 ≢ none

module _ (c : SaplingCrypto) (g : Generators c) (pr : TxProver c) {Key : Type 0}
    (to_pgk : Key → Option (ProofGenerationKey c)) where
  -- What is described, with the anchor and the nullifier of its note.
  pub record Describes (anchor : c.Coordinate) (s : SpendDescriptionInfo c Key)
      (d : SpendDescription c pr Key) : Type 0 where
    pub spend : d.spend_auth_sig ≡ s
    pub anchored : d.anchor ≡ anchor
    pub key : ProofGenerationKey c
    pub known : to_pgk s.extsk ≡ some key
    pub nullified :
        nf c g s.note (to_viewing_key c g key).nk s.merkle_path.position ≡ some d.nullifier

  module _ (bparams : StoredBuildParams c) (anchor : c.Coordinate) where
    describe_spend-Describes :
        (i : ℕ) (s : SpendDescriptionInfo c Key) (ctx : pr.SaplingProvingContext)
        (d : SpendDescription c pr Key) (next : pr.SaplingProvingContext)
        → describe_spend c g pr to_pgk bparams anchor i s ctx ≡ some (ok (d, next))
        → Describes anchor s d
    unfolding describe_spend
    describe_spend-Describes i s ctx d next e = elim (Option-cases (to_pgk s.extsk)) [
      | inl n ↦ absurd (ground (arith, n, e))
      | inr (key, ek) ↦
          elim (Option-cases (nf c g s.note (to_viewing_key c g key).nk s.merkle_path.position)) [
            | inl n ↦ absurd (ground (arith, ek, n, e))
            | inr (nullifier, en) ↦ elim (Option-cases (spend_alpha c bparams i)) [
              | inl n ↦ absurd (ground (arith, ek, en, n, e))
              | inr (alpha, ea) ↦ elim (Option-cases (spend_rcv c bparams i)) [
                | inl n ↦ absurd (ground (arith, ek, en, ea, n, e))
                | inr (rcv, er) ↦
                    let answer =
                      pr.prove_spend ctx key s.diversifier s.note.rseed alpha s.note.asset_type
                        s.note.value anchor s.merkle_path rcv in
                    elim (Option-cases answer.0) [
                      | inl n ↦ absurd (ground (arith, ek, en, ea, er, n, e))
                      | inr ((zkproof, cv, rk), ep) ↦
                          let made : record {
                            cv = cv;
                            anchor = anchor;
                            nullifier = nullifier;
                            rk = rk;
                            zkproof = zkproof;
                            spend_auth_sig = s;
                          }
                              ≡ d =
                            ground (arith, ek, en, ea, er, ep, e) in
                          subst (λ x. Describes anchor s x) made
                            (record {
                              spend = refl;
                              anchored = refl;
                              key = key;
                              known = ek;
                              nullified = en;
                            })
                    ]
              ]
            ]
          ]
    ]

    -- A spend whose key is known and whose note has a commitment.
    abbrev Ready : SpendDescriptionInfo c Key → Type 0
    Ready s = (to_pgk s.extsk ≢ none) × (cm_full_point c s.note ≢ none)

    nf-total :
        (s : SpendDescriptionInfo c Key) (nk : c.Point) (position : ℕ)
        → cm_full_point c s.note ≢ none
        → nf c g s.note nk position ≢ none
    unfolding nf
    nf-total s nk position h n = elim (Option-cases (cm_full_point c s.note)) [
      | inl m ↦ h m
      | inr (p, e) ↦ ground (arith, e, n)
    ]

    describe_spend-Works :
        IsTotal c pr
        → (bound : ℕ) → bound ≤ length bparams.spend_params
        → Works (describe_spend c g pr to_pgk bparams anchor) Ready bound
    unfolding describe_spend spend_alpha spend_rcv
    describe_spend-Works total bound fits i s ctx small (known, cm) =
        elim (Option-cases (to_pgk s.extsk)) [
          | inl n ↦ absurd (known n)
          | inr (key, ek) ↦
              let nk = (to_viewing_key c g key).nk in
              elim (Option-cases (nf c g s.note nk s.merkle_path.position)) [
                | inl n ↦ absurd (nf-total s nk s.merkle_path.position cm n)
                | inr (nullifier, en) ↦
                    let (p, ep) = get_elem?-total bparams.spend_params i (omega arith) in
                    let answer =
                      pr.prove_spend ctx key s.diversifier s.note.rseed p.alpha s.note.asset_type
                        s.note.value anchor s.merkle_path p.rcv in
                    elim (Option-cases answer.0) [
                      | inl n ↦ absurd (
                          total.spends ctx key s.diversifier s.note.rseed p.alpha s.note.asset_type
                            s.note.value anchor s.merkle_path p.rcv n)
                      | inr ((zkproof, cv, rk), ea) ↦ (
                        record {
                          cv = cv;
                          anchor = anchor;
                          nullifier = nullifier;
                          rk = rk;
                          zkproof = zkproof;
                          spend_auth_sig = s;
                        },
                        answer.1,
                        ground (arith, ek, en, ep, ea),
                      )
                    ]
              ]
        ]

module _ (c : SaplingCrypto) (F : ScalarField c) (H : Hashable Bytes) {Key : Type 0} where
  commitment_of_root :
      (s : SpendDescriptionInfo c Key) (anchor : c.Coordinate)
      → spend_root c F H s ≡ some anchor
      → cm_full_point c s.note ≢ none
  unfolding cmu
  commitment_of_root s anchor e n = ground (arith, n, e)

module _ (c : SaplingCrypto) (F : ScalarField c) (H : Hashable Bytes) (g : Generators c)
    (pr : TxProver c) {P Key R : Type 0} (sh : Shuffle R)
    (to_pgk : Key → Option (ProofGenerationKey c)) (bparams : StoredBuildParams c) where
  build_spends-cons :
      (b : SaplingBuilder c P Key) (rng : R) (ctx : pr.SaplingProvingContext)
      (s : SpendDescriptionInfo c Key) (ss : List (SpendDescriptionInfo c Key))
      (anchor : c.Coordinate)
      → b.spends ≡ s ∷ ss
      → b.spend_anchor ≡ some anchor
      → build_spends c g pr sh to_pgk bparams b rng ctx
        ≡ build_parts sh (describe_spend c g pr to_pgk bparams anchor) b.spends rng ctx
  unfolding build_spends
  build_spends-cons b rng ctx s ss anchor e a = ground (arith, e, a)

  -- Of what is made, for the n-th spend.
  abbrev pub Made :
      SaplingBuilder c P Key
      → List (SpendDescription c pr Key)
      → List ℕ
      → ℕ
      → SpendDescriptionInfo c Key
      → Type 0
  Made b ds indices n s =
      (anchor : c.Coordinate) × (b.spend_anchor ≡ some anchor)
      × (spend_root c F H s ≡ some anchor)
      × At (Describes c g pr to_pgk anchor) indices ds n s

  -- For a builder that the methods have made, if the proof generation key of every spend is known,
  -- there are stored parameters for every spend, and the prover makes every proof of a spend: the
  -- part of build that makes the spends neither panics nor fails; it makes one description for
  -- each spend; and in whatever order the shuffle puts them, the metadata records for the n-th
  -- spend an index where the description of this spend stands, with the anchor that is the root of
  -- its path and with the nullifier of its note.
  pub build_spends_lem :
      (b : SaplingBuilder c P Key) (rng : R) (ctx : pr.SaplingProvingContext)
      → Reaches c F H b
      → All (λ s. to_pgk s.extsk ≢ none) b.spends
      → length b.spends ≤ length bparams.spend_params
      → IsTotal c pr
      → (ds : List (SpendDescription c pr Key)) × (indices : List ℕ)
        × (last : pr.SaplingProvingContext) × (build_spends c g pr sh to_pgk bparams b rng ctx
            ≡ some (ok (ds, indices, last)))
        × (length ds ≡ length b.spends)
        × ((n : ℕ) (s : SpendDescriptionInfo c Key)
            → get_elem? b.spends n ≡ some s
            → Made b ds indices n s)
  build_spends_lem b rng ctx w known fits total = elim (list_cases b.spends) [
    | inl nothing ↦ (
      [],
      [],
      ctx,
      unfold build_spends in ground (arith, nothing),
      ap length (sym nothing),
      λ n s at. absurd (cc (ap (λ l. get_elem? l n) nothing, at)),
    )
    | inr (s, ss, e) ↦
        let h = Reaches-IsConsistent c F H b w in
        elim (Option-cases b.spend_anchor) [
          | inl n ↦ absurd (cc (h.spend_anchor.present n, e))
          | inr (anchor, ea) ↦
              let describe = describe_spend c g pr to_pgk bparams anchor in
              let rooted : (n : ℕ) (x : SpendDescriptionInfo c Key)
                  → get_elem? b.spends n ≡ some x
                  → spend_root c F H x ≡ some anchor =
                λ n x at.
                  All-get (λ y. spend_root c F H y ≡ b.spend_anchor) b.spends n x
                    h.spend_anchor.shared at
                  ∙ ea in
              let (ds, indices, last, made) =
                build_parts-total sh describe b.spends rng ctx (Ready c g pr to_pgk bparams anchor)
                  (describe_spend-Works c g pr to_pgk bparams anchor total (length b.spends) fits)
                  (λ n x at. (
                    All-get (λ y. to_pgk y.extsk ≢ none) b.spends n x known at,
                    commitment_of_root c F H x anchor (rooted n x at),
                  )) in
              (
                ds,
                indices,
                last,
                build_spends-cons b rng ctx s ss anchor e ea ∙ made,
                length-build_parts sh describe b.spends rng ctx ds indices last made,
                λ n x at. (
                  anchor,
                  ea,
                  rooted n x at,
                  build_parts-At sh describe b.spends rng ctx (Describes c g pr to_pgk anchor)
                      (describe_spend-Describes c g pr to_pgk bparams anchor) ds indices last made n
                      x at,
                ),
              )
        ]
  ]
