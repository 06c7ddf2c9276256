-- ===== src/Sapling/Codec/RoundTrip.antt =====
-- What is written is read back.
use masp.Base.{
  ◌^◌, ◌<◌, ◌≡◌, ◌≢◌, refl, ap, sym, ◌∙◌, arith, false, none, some, [], ◌∷◌, ◌++◌, append_assoc,
}
use masp.Base.{
  length, length-append, take-append, drop-append, take, drop, append-nil, Option-cases, inl, inr,
}
use masp.Base.Bytes.{
  Bytes, to_le_bytes, length-to_le_bytes, from_le_bytes-to_le_bytes, read_exact-append,
  read_array-append,
}
use masp.Base.Result.{ok}
use masp.Base.Encoding.{Reads}
use masp.AssetType.{hash_to_point}
use masp.Sapling.{
  SaplingCrypto, PaymentAddress, Rseed, Note, before_zip212, after_zip212, g_d, from_parts,
  cm_full_point,
}
use masp.Sapling.Codec.{
  address_to_bytes, address_from_bytes, deserialize_address, serialize_rseed, deserialize_rseed,
  serialize_note, deserialize_note, ViewingKey, write_viewing_key, read_viewing_key,
  ProofGenerationKey, serialize_proof_generation_key, deserialize_proof_generation_key,
}

module _ (c : SaplingCrypto) where
  -- An address that the code can build.
  pub record IsAddress (a : PaymentAddress c) : Type 0 where
    pub size : length a.diversifier ≡ 11
    pub has_base : g_d c a.diversifier ≢ none
    pub proper : c.is_identity a.pk_d ≡ false

  address_of :
      (bytes d k : Bytes) (pk_d : c.Point) (g : c.Point)
      → take 11 bytes ≡ d
      → take 32 (drop 11 bytes) ≡ k
      → g_d c d ≡ some g
      → c.from_bytes k ≡ some pk_d
      → c.is_identity pk_d ≡ false
      → address_from_bytes c bytes ≡ some (record { pk_d = pk_d; diversifier = d })
  unfolding address_from_bytes from_parts
  address_of bytes d k pk_d g front back base known proper =
      ground (arith, front, back, base, known, proper)

  address_from-to :
      (a : PaymentAddress c) → IsAddress a → address_from_bytes c (address_to_bytes c a) ≡ some a
  unfolding address_to_bytes
  address_from-to a h =
      let k = c.to_bytes a.pk_d in
      let front = take-append a.diversifier k 11 h.size in
      let back : take 32 (drop 11 (a.diversifier ++ k)) ≡ k =
        ap (take 32) (drop-append a.diversifier k 11 h.size ∙ sym (append-nil k))
        ∙ take-append k [] 32 (c.length-to_bytes a.pk_d) in
      elim (Option-cases (g_d c a.diversifier)) [
        | inl n ↦ absurd (h.has_base n)
        | inr (g, e) ↦
            address_of (a.diversifier ++ k) a.diversifier k a.pk_d g front back e
              (c.from_bytes-to_bytes a.pk_d) h.proper
      ]

  -- A payment address with an 11-byte diversifier that has a base, and with a key that is not the
  -- identity, is read back from its 43 bytes, and what follows is left.
  pub deserialize_address-Reads :
      (a : PaymentAddress c) → IsAddress a → Reads (address_to_bytes c) (deserialize_address c) a
  unfolding deserialize_address
  deserialize_address-Reads a h rest =
      let size : length (address_to_bytes c a) ≡ 43 =
        unfold address_to_bytes in
        omega (
          arith,
          length-append a.diversifier (c.to_bytes a.pk_d),
          h.size,
          c.length-to_bytes a.pk_d,
        ) in
      let taken = read_exact-append (address_to_bytes c a) rest 43 size in
      let back = address_from-to a h in rw taken (rw back refl)

  abbrev IsSeed : Rseed c → Type 0
  IsSeed r = (s : Bytes) → r ≡ after_zip212 s → length s ≡ 32

  rseed-Reads : (r : Rseed c) → IsSeed r → Reads (serialize_rseed c) (deserialize_rseed c) r
  unfolding serialize_rseed deserialize_rseed
  rseed-Reads (before_zip212 rcm) h rest =
      let lead = read_exact-append (1 ∷ []) (c.to_repr rcm ++ rest) 1 refl in
      let body = read_array-append (c.to_repr rcm) rest 32 (c.length-to_repr rcm) in
      rw lead (rw body (rw (c.from_repr-to_repr rcm) refl))
  rseed-Reads (after_zip212 s) h rest =
      let lead = read_exact-append (2 ∷ []) (s ++ rest) 1 refl in
      let body = read_array-append s rest 32 (h s refl) in rw lead (rw body refl)

  pub record IsStored (note : Note c) : Type 0 where
    pub asset : length note.asset_type ≡ 32
    pub value : note.value < 2 ^ 64
    pub rseed : IsSeed note.rseed

  pub deserialize_note-Reads :
      (note : Note c) → IsStored note → Reads (serialize_note c) (deserialize_note c) note
  unfolding serialize_note deserialize_note
  deserialize_note-Reads note h rest =
      let v = to_le_bytes 8 note.value in
      let g = c.to_bytes note.g_d in
      let k = c.to_bytes note.pk_d in
      let r = serialize_rseed c note.rseed in
      let split : (note.asset_type ++ (v ++ (g ++ (k ++ r)))) ++ rest
          ≡ note.asset_type ++ (v ++ (g ++ (k ++ (r ++ rest)))) =
        simp append_assoc in
      let e₁ = read_array-append note.asset_type (v ++ (g ++ (k ++ (r ++ rest)))) 32 h.asset in
      let e₂ = read_exact-append v (g ++ (k ++ (r ++ rest))) 8 (length-to_le_bytes 8 note.value) in
      let e₃ = read_array-append g (k ++ (r ++ rest)) 32 (c.length-to_bytes note.g_d) in
      let e₄ = read_array-append k (r ++ rest) 32 (c.length-to_bytes note.pk_d) in
      let e₅ = rseed-Reads note.rseed h.rseed rest in
      let number = from_le_bytes-to_le_bytes 8 note.value (omega (arith, h.value)) in
      rw split (
        rw e₁ (
          rw e₂ (
            rw e₃ (
              rw (c.from_bytes-to_bytes note.g_d)
                (rw e₄ (rw (c.from_bytes-to_bytes note.pk_d) (rw e₅ (rw number refl))))))))

  -- A note whose asset identifier has 32 bytes and hashes to no point, and whose other parts have
  -- their sizes, is read back from its bytes, what follows is left, and the commitment of the note
  -- that is read panics.
  pub deserialize_note-cm_full_point :
      (note : Note c) (rest : Bytes)
      → IsStored note
      → hash_to_point c.assets note.asset_type ≡ none
      → (deserialize_note c (serialize_note c note ++ rest) ≡ ok (note, rest))
        × (cm_full_point c note ≡ none)
  unfolding cm_full_point
  deserialize_note-cm_full_point note rest h bad = (deserialize_note-Reads note h rest, rw bad refl)

  pub viewing_key-Reads :
      (key : ViewingKey c)
      → c.is_identity key.ak ≡ false
      → Reads (write_viewing_key c) (read_viewing_key c) key
  unfolding write_viewing_key read_viewing_key
  viewing_key-Reads key proper rest =
      let a = c.to_bytes key.ak in
      let n = c.to_bytes key.nk in
      let e₁ = read_exact-append a (n ++ rest) 32 (c.length-to_bytes key.ak) in
      let e₂ = read_exact-append n rest 32 (c.length-to_bytes key.nk) in
      rw (append_assoc a n rest) (
        rw e₁ (
          rw e₂ (
            rw (c.from_bytes-to_bytes key.ak)
              (rw proper (rw (c.from_bytes-to_bytes key.nk) refl)))))

  pub proof_generation_key-Reads :
      (key : ProofGenerationKey c)
      → Reads (serialize_proof_generation_key c) (deserialize_proof_generation_key c) key
  unfolding serialize_proof_generation_key deserialize_proof_generation_key
  proof_generation_key-Reads key rest =
      let a = c.to_bytes key.ak in
      let s = c.to_repr key.nsk in
      let e₁ = read_exact-append a (s ++ rest) 32 (c.length-to_bytes key.ak) in
      let e₂ = read_array-append s rest 32 (c.length-to_repr key.nsk) in
      rw (append_assoc a s rest)
        (rw e₁ (rw (c.from_bytes-to_bytes key.ak) (rw e₂ (rw (c.from_repr-to_repr key.nsk) refl))))
