-- ===== src/Convert/Codec.antt =====
-- The encoding of a conversion, and what its reader checks.
use masp.Base.{◌≤◌, ◌≡◌, ap, ◌∙◌, sym, some, Option-cases, Bool-cases, inl, inr, ◌++◌, All, arith}
use masp.Base.{length, append_assoc, subst}
use masp.Base.Bytes.{Bytes, read_array, read_array-append}
use masp.Base.Result.{ok, Result-cases}
use masp.Base.Encoding.{Encoding}
use masp.Words.{i128}
use masp.AssetType.{AssetCrypto}
use masp.AssetType.Bits.{bytes_ord}
use masp.Amount.{ValueSum, components}
use masp.Amount.Valid.{IsValid}
use masp.Amount.Codec.{sixteen, write, read}
use masp.Amount.Codec.RoundTrip.{IsAsset, read-write}
use masp.Convert.{
  Group, AllowedConversion, generator_loop, from, serialize, check_generator, deserialize,
}

module _ (c : AssetCrypto) (g : Group c) where
  -- The generator is the one that the assets stand for.
  abbrev pub IsFaithful : AllowedConversion c → Type 0
  IsFaithful a = from c g a.assets ≡ some a

  from-assets : (m : ValueSum Bytes) (a : AllowedConversion c) → from c g m ≡ some a → a.assets ≡ m
  from-assets m a e = elim (Option-cases (generator_loop c g g.identity (components m))) [
    | inl n ↦ absurd (unfold from in ground (arith, n, e))
    | inr (p, f) ↦
        let made : record { assets = m; generator = p } ≡ a = unfold from in ground (arith, f, e) in
        sym (ap (λ z. z.assets) made)
  ]

  check_sound :
      (m : ValueSum Bytes) (src rest : Bytes) (a : AllowedConversion c)
      → check_generator c g m src ≡ some (ok (a, rest))
      → IsFaithful a
  check_sound m src rest a e = elim (Result-cases (read_array 32 src)) [
    | inl (x, r) ↦ absurd (unfold check_generator in ground (arith, r, e))
    | inr ((bytes, after), r) ↦ elim (Option-cases (c.from_bytes bytes)) [
      | inl n ↦ absurd (unfold check_generator in ground (arith, r, n, e))
      | inr (p, f) ↦ elim (Option-cases (from c g m)) [
        | inl n ↦ absurd (unfold check_generator in ground (arith, r, f, n, e))
        | inr (b, h) ↦ elim (Bool-cases (g.is_same b.generator p)) [
          | inr d ↦ absurd (unfold check_generator in ground (arith, r, f, h, d, e))
          | inl s ↦
              let made : record { assets = m; generator = p } ≡ a =
                unfold check_generator in ground (arith, r, f, h, s, e) in
              let same : b ≡ record { assets = m; generator = p } = λ i. record {
                assets = from-assets m b h i;
                generator = g.eq_of_same b.generator p s i;
              } in
              subst IsFaithful (same ∙ made)
                (subst (λ k. from c g k ≡ some b) (sym (from-assets m b h)) h)
        ]
      ]
    ]
  ]

  -- Whatever bytes a conversion is read from, its generator is the one that its assets stand for.
  pub deserialize-IsFaithful :
      (enc : Encoding) (src rest : Bytes) (a : AllowedConversion c)
      → deserialize c g enc src ≡ some (ok (a, rest))
      → IsFaithful a
  deserialize-IsFaithful enc src rest a e = elim (Option-cases (read enc c sixteen src)) [
    | inl n ↦ absurd (unfold deserialize in ground (arith, n, e))
    | inr (r, f) ↦ elim (Result-cases r) [
      | inl (x, h) ↦ absurd (unfold deserialize in ground (arith, f, h, e))
      | inr ((m, after), h) ↦
          check_sound m after rest a (unfold deserialize in ground (arith, f, h, e))
    ]
  ]

  -- A conversion over a valid sum of known assets, no longer than a vector may be, whose generator
  -- is the one that its assets stand for, is read back from what was written, and what follows is
  -- left.
  pub deserialize-serialize_conversion :
      (enc : Encoding) (a : AllowedConversion c) (rest : Bytes)
      → IsValid i128 a.assets
      → All (λ p. IsAsset c p.0) a.assets
      → length a.assets ≤ enc.max_size
      → IsFaithful a
      → deserialize c g enc (serialize c g enc a ++ rest) ≡ some (ok (a, rest))
  deserialize-serialize_conversion enc a rest v known fits faithful =
      let bytes = g.to_bytes a.generator in
      let assets_read = read-write enc c sixteen a.assets (bytes ++ rest) v known fits in
      let taken = read_array-append bytes rest 32 (g.length-to_bytes a.generator) in
      let checked : check_generator c g a.assets (bytes ++ rest) ≡ some (ok (a, rest)) =
        unfold check_generator in
        ground
          (arith, taken, g.from_bytes-to_bytes a.generator, faithful, g.same_refl a.generator) in
      unfold serialize deserialize in
      rw (append_assoc (write enc sixteen a.assets) bytes rest)
        (ground (arith, assets_read, checked))
