-- ===== src/Sapling/Domain/Plaintext.antt =====
-- The layout of a note plaintext, and reading its parts.
use masp.Base.{
  ℕ, ◌+◌, ◌^◌, ◌<◌, ◌≡◌, refl, ap, sym, ◌∙◌, arith, true, Option, none, some, [], ◌∷◌, ◌++◌,
  append_assoc,
}
use masp.Base.{
  length, length-append, take, take-append, drop-append, leb, get_or, Option-cases, inl, inr,
}
use masp.Base.Bytes.{
  Bytes, to_le_bytes, from_le_bytes, length-to_le_bytes, from_le_bytes-to_le_bytes,
}
use masp.AssetType
use masp.AssetType.{hash_to_point}
use masp.Amount.Codec.RoundTrip.{IsAsset}
use masp.NoteEncryption.{compact_note_size}
use masp.Sapling.{
  SaplingCrypto, PaymentAddress, Rseed, Note, from_parts, create_note, before_zip212, after_zip212,
}
use masp.Sapling.Domain.{
  SaplingDomain, slice, plaintext_version_is_valid, parse_rseed, rseed_lead, rseed_bytes,
  sapling_parse_note_plaintext_without_memo,
}

slice_at :
    (pre x post : Bytes) (start n : ℕ)
    → length pre ≡ start
    → length x ≡ n
    → slice start n (pre ++ (x ++ post)) ≡ x
slice_at pre x post start n s w =
    ap (take n) (drop-append pre (x ++ post) start s) ∙ take-append x post n w

pub from_identifier_lem :
    (c : SaplingCrypto) (k : Bytes)
    → IsAsset c.assets k
    → AssetType.from_identifier c.assets k ≡ some (record { identifier = k; nonce = none })
from_identifier_lem c k (size, known) = elim (Option-cases (hash_to_point c.assets k)) [
  | inl n ↦ absurd (known n)
  | inr (p, e) ↦ unfold AssetType.from_identifier in ground (arith, e)
]

module _ (c : SaplingCrypto) where
  length-rseed_bytes :
      (r : Rseed c)
      → ((s : Bytes) → r ≡ after_zip212 s → length s ≡ 32)
      → length (rseed_bytes c r) ≡ 32
  unfolding rseed_bytes
  length-rseed_bytes (before_zip212 rcm) h = c.length-to_repr rcm
  length-rseed_bytes (after_zip212 s) h = h s refl

  parse_rseed_lem : (r : Rseed c) → parse_rseed c (rseed_lead c r) (rseed_bytes c r) ≡ some r
  unfolding parse_rseed rseed_lead rseed_bytes
  parse_rseed_lem (before_zip212 rcm) = rw (c.from_repr-to_repr rcm) refl
  parse_rseed_lem (after_zip212 s) = refl

  parse_text :
      (domain : SaplingDomain) (text : Bytes) (validated : Bytes → Option c.Point) (lead : ℕ)
      (d k r : Bytes) (v : ℕ) (rseed : Rseed c) (pk_d : c.Point) (to : PaymentAddress c)
      (note : Note c)
      → leb compact_note_size (length text) ≡ true
      → get_or text 0 0 ≡ lead
      → slice 1 11 text ≡ d
      → from_le_bytes (slice 12 8 text) ≡ v
      → slice 20 32 text ≡ k
      → slice 52 32 text ≡ r
      → plaintext_version_is_valid domain.params domain.height lead ≡ true
      → AssetType.from_identifier c.assets k ≡ some (record { identifier = k; nonce = none })
      → parse_rseed c lead r ≡ some rseed
      → validated d ≡ some pk_d
      → from_parts c d pk_d ≡ some to
      → create_note c to k v rseed ≡ some note
      → sapling_parse_note_plaintext_without_memo c domain text validated ≡ some (note, to)
  unfolding sapling_parse_note_plaintext_without_memo
  parse_text domain text validated lead d k r v rseed pk_d to note long at0 at1 at12 at20 at52
        version asset seed key address made =
      rw (at0, at1, at12, at20, at52, long)
        (rw version (rw asset (rw seed (rw key (rw address (rw made refl))))))

  module _ (domain : SaplingDomain) (note : Note c) (to : PaymentAddress c) (post : Bytes) where
    -- The bytes of a note, and what follows.
    abbrev pub fields : Bytes
    fields =
        rseed_lead c note.rseed
        ∷ (to.diversifier
            ++ (to_le_bytes 8 note.value
                ++ (note.asset_type ++ (rseed_bytes c note.rseed ++ post))))

    -- The sizes of the parts.
    pub record IsSized : Type 0 where
      pub diversifier : length to.diversifier ≡ 11
      pub asset : IsAsset c.assets note.asset_type
      pub value : note.value < 2 ^ 64
      pub rseed : (s : Bytes) → note.rseed ≡ after_zip212 s → length s ≡ 32

    module _ (z : IsSized) where
      abbrev lead : Bytes
      lead = rseed_lead c note.rseed ∷ []

      at_diversifier : slice 1 11 fields ≡ to.diversifier
      at_diversifier =
          slice_at lead to.diversifier
            (to_le_bytes 8 note.value ++ (note.asset_type ++ (rseed_bytes c note.rseed ++ post))) 1
            11 refl z.diversifier

      at_value : from_le_bytes (slice 12 8 fields) ≡ note.value
      at_value =
          let pre = lead ++ to.diversifier in
          let v = to_le_bytes 8 note.value in
          let split : fields
              ≡ pre ++ (v ++ (note.asset_type ++ (rseed_bytes c note.rseed ++ post))) =
            refl in
          ap from_le_bytes (
            slice_at pre v (note.asset_type ++ (rseed_bytes c note.rseed ++ post)) 12 8
              (omega (arith, z.diversifier)) (length-to_le_bytes 8 note.value))
          ∙ from_le_bytes-to_le_bytes 8 note.value (omega (arith, z.value))

      at_asset : slice 20 32 fields ≡ note.asset_type
      at_asset =
          let v = to_le_bytes 8 note.value in
          let pre = lead ++ (to.diversifier ++ v) in
          let tail = note.asset_type ++ (rseed_bytes c note.rseed ++ post) in
          let split : fields ≡ pre ++ tail =
            ap (◌∷◌ (rseed_lead c note.rseed)) (sym (append_assoc to.diversifier v tail)) in
          ap (slice 20 32) split
          ∙ slice_at pre note.asset_type (rseed_bytes c note.rseed ++ post) 20 32
              (omega (
                arith,
                length-append to.diversifier v,
                z.diversifier,
                length-to_le_bytes 8 note.value,
              ))
              z.asset.0

      at_rseed : slice 52 32 fields ≡ rseed_bytes c note.rseed
      at_rseed =
          let v = to_le_bytes 8 note.value in
          let pre = lead ++ (to.diversifier ++ (v ++ note.asset_type)) in
          let tail = rseed_bytes c note.rseed ++ post in
          let split : fields ≡ pre ++ tail =
            ap (◌∷◌ (rseed_lead c note.rseed)) (simp append_assoc) in
          ap (slice 52 32) split
          ∙ slice_at pre (rseed_bytes c note.rseed) post 52 32
              (omega (
                arith,
                length-append to.diversifier (v ++ note.asset_type),
                length-append v note.asset_type,
                z.diversifier,
                length-to_le_bytes 8 note.value,
                z.asset.0,
              ))
              (length-rseed_bytes note.rseed z.rseed)

      pub length-fields : length fields ≡ compact_note_size + length post
      length-fields =
          let v = to_le_bytes 8 note.value in
          let r = rseed_bytes c note.rseed in
          omega (
            arith,
            length-append to.diversifier (v ++ (note.asset_type ++ (r ++ post))),
            length-append v (note.asset_type ++ (r ++ post)),
            length-append note.asset_type (r ++ post),
            length-append r post,
            z.diversifier,
            length-to_le_bytes 8 note.value,
            z.asset.0,
            length-rseed_bytes note.rseed z.rseed,
          )

      pub parse_fields :
          (validated : Bytes → Option c.Point)
          → plaintext_version_is_valid domain.params domain.height (rseed_lead c note.rseed) ≡ true
          → validated to.diversifier ≡ some to.pk_d
          → from_parts c to.diversifier to.pk_d ≡ some to
          → create_note c to note.asset_type note.value note.rseed ≡ some note
          → sapling_parse_note_plaintext_without_memo c domain fields validated ≡ some (note, to)
      parse_fields validated version key address made =
          let long : leb compact_note_size (length fields) ≡ true = ground (arith, length-fields) in
          parse_text domain fields validated (rseed_lead c note.rseed) to.diversifier
            note.asset_type (rseed_bytes c note.rseed) note.value note.rseed to.pk_d to note long
            refl at_diversifier at_value at_asset at_rseed version
            (from_identifier_lem c note.asset_type z.asset) (parse_rseed_lem note.rseed) key address
            made
