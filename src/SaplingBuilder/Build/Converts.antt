-- ===== src/SaplingBuilder/Build/Converts.antt =====
-- The descriptions that `build` makes of the conversions.
use masp.Base.{
  ℕ, ◌≡◌, refl, ap, sym, ◌∙◌, subst, some, Option-cases, inl, inr, List, [], length, get_elem?,
  arith,
}
use masp.Base.Result.{ok}
use masp.Sapling.{SaplingCrypto}
use masp.SaplingBuilder.{ConvertDescriptionInfo, SaplingBuilder}
use masp.SaplingBuilder.Build.{
  TxProver, ConvertDescription, Shuffle, describe_convert, build_parts, build_converts,
}
use masp.SaplingBuilder.Params.{StoredBuildParams, convert_rcv}
use masp.SaplingBuilder.Build.Order.{At, build_parts-At, length-build_parts, list_cases}

-- The proof and the commitment that the prover made for a conversion.
pub record DescribesConvert (c : SaplingCrypto) (pr : TxProver c) (anchor : c.Coordinate)
    (x : ConvertDescriptionInfo c) (d : ConvertDescription c) : Type 0 where
  pub anchored : d.anchor ≡ anchor
  pub ctx : pr.SaplingProvingContext
  pub rcv : c.Scalar
  pub proved :
      (pr.prove_convert ctx x.allowed x.value anchor x.merkle_path rcv).0 ≡ some (d.zkproof, d.cv)

module _ (c : SaplingCrypto) (pr : TxProver c) (bparams : StoredBuildParams c) where
  describe_convert-Describes :
      (anchor : c.Coordinate) (i : ℕ) (x : ConvertDescriptionInfo c)
      (ctx : pr.SaplingProvingContext) (d : ConvertDescription c) (next : pr.SaplingProvingContext)
      → describe_convert c pr bparams anchor i x ctx ≡ some (ok (d, next))
      → DescribesConvert c pr anchor x d
  unfolding describe_convert
  describe_convert-Describes anchor i x ctx d next e =
      elim (Option-cases (convert_rcv c bparams i)) [
        | inl n ↦ absurd (ground (arith, n, e))
        | inr (rcv, er) ↦
            let answer = pr.prove_convert ctx x.allowed x.value anchor x.merkle_path rcv in
            elim (Option-cases answer.0) [
              | inl n ↦ absurd (ground (arith, er, n, e))
              | inr ((zkproof, cv), ep) ↦
                  let made : record { cv = cv; anchor = anchor; zkproof = zkproof } ≡ d =
                    ground (arith, er, ep, e) in
                  subst (λ y. DescribesConvert c pr anchor x y) made
                    (record { anchored = refl; ctx = ctx; rcv = rcv; proved = ep })
            ]
      ]

  -- Where build makes the conversions of a builder, it makes one description for each of them, and
  -- the metadata records for the n-th conversion an index where its description stands, with the
  -- anchor of the builder and the proof that the prover made for this conversion.
  pub build_converts_lem :
      {P Key R : Type 0} (sh : Shuffle R) (b : SaplingBuilder c P Key) (rng : R)
      (ctx : pr.SaplingProvingContext) (anchor : c.Coordinate) (ds : List (ConvertDescription c))
      (indices : List ℕ) (last : pr.SaplingProvingContext)
      → b.convert_anchor ≡ some anchor
      → build_converts c pr sh bparams b rng ctx ≡ some (ok (ds, indices, last))
      → (length ds ≡ length b.converts)
        × ((n : ℕ) (x : ConvertDescriptionInfo c)
            → get_elem? b.converts n ≡ some x
            → At (DescribesConvert c pr anchor) indices ds n x)
  build_converts_lem sh b rng ctx anchor ds indices last ea e = elim (list_cases b.converts) [
    | inl nothing ↦
        let made : [] ≡ ds = unfold build_converts in ground (arith, nothing, e) in
        (
          ap length (sym made) ∙ ap length (sym nothing),
          λ n x at. absurd (cc (ap (λ l. get_elem? l n) nothing, at)),
        )
    | inr (d, rest, found) ↦
        let made : build_parts sh (describe_convert c pr bparams anchor) b.converts rng ctx
            ≡ some (ok (ds, indices, last)) =
          unfold build_converts in ground (arith, found, ea, e) in
        (
          length-build_parts sh (describe_convert c pr bparams anchor) b.converts rng ctx ds indices
              last made,
          build_parts-At sh (describe_convert c pr bparams anchor) b.converts rng ctx
              (DescribesConvert c pr anchor) (describe_convert-Describes anchor) ds indices last
              made,
        )
  ]
