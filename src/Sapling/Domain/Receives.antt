-- ===== src/Sapling/Domain/Receives.antt =====
-- A note to an address is received by the address's viewing key, and recovered by its sender.
use masp.Base.{
  ℕ, ◌^◌, ◌<◌, ◌≡◌, refl, ap, sym, ◌∙◌, arith, true, none, some, [], ◌∷◌, ◌++◌, append_assoc,
  append-nil,
}
use masp.Base.{
  length, length-append, take, take-append, drop-append, Option-cases, inl, inr, if◌then◌else◌,
}
use masp.Base.Bytes.{Bytes}
use masp.Base.Maybe.{◌>>=◌}
use masp.Consensus.{masp_upgrade, is_nu_active}
use masp.Memo
use masp.Memo.{MemoBytes, pad}
use masp.Amount.Codec.RoundTrip.{IsAsset}
use masp.NoteEncryption.{compact_note_size, out_plaintext_size, bytes_eq}
use masp.NoteEncryption.Opens.{IsReceived, bytes_eq_iff}
use masp.NoteEncryption.Recovery.{IsSent}
use masp.Sapling.{
  SaplingCrypto, PaymentAddress, Note, from_parts, create_note, g_d, after_zip212,
  to_payment_address, derive_esk, prf_expand,
}
use masp.Sapling.Domain.{
  SaplingDomain, slice, plaintext_version_is_valid, rseed_lead, sapling_ka_agree, ka_derive_public,
  extract_memo, parse_note_plaintext_without_memo_ivk, parse_note_plaintext_without_memo_ovk,
  sapling_domain, note_plaintext_bytes, outgoing_plaintext_bytes,
}
use masp.Sapling.Domain.Plaintext.{fields, IsSized, parse_fields, length-fields}

take_whole : (xs : Bytes) (n : ℕ) → length xs ≡ n → take n xs ≡ xs
take_whole xs n h = ap (take n) (sym (append-nil xs)) ∙ take-append xs [] n h

module _ (c : SaplingCrypto) where
  address_parts :
      (ivk : c.Scalar) (d : Bytes) (to : PaymentAddress c)
      → to_payment_address c ivk d ≡ some to
      → (g : c.Point) × (g_d c d ≡ some g)
        × (to ≡ record { pk_d = c.mul g ivk; diversifier = d })
        × (from_parts c d (c.mul g ivk) ≡ some to)
  unfolding to_payment_address from_parts
  address_parts ivk d to e = elim (Option-cases (g_d c d)) [
    | inl n ↦ absurd (ground (arith, n, e))
    | inr (g, p) ↦ (g, p, ground (arith, p, e), ground (arith, p, e))
  ]

  -- What a wallet does to pay an address: a note of an asset, with a random seed.
  pub record IsPaid (domain : SaplingDomain) (ivk : c.Scalar) (note : Note c)
      (to : PaymentAddress c) (memo : MemoBytes) (seed : Bytes) : Type 0 where
    pub active : is_nu_active domain.params masp_upgrade domain.height ≡ true
    pub address : to_payment_address c ivk to.diversifier ≡ some to
    pub made : create_note c to note.asset_type note.value (after_zip212 seed) ≡ some note
    pub diversifier : length to.diversifier ≡ 11
    pub asset : IsAsset c.assets note.asset_type
    pub value : note.value < 2 ^ 64
    pub seed_size : length seed ≡ 32
    pub memo_size : length memo.bytes ≡ 512

  -- The secret of the ephemeral key.
  abbrev pub esk_of : Bytes → c.Scalar
  esk_of seed = c.from_bytes_wide (prf_expand c seed (5 ∷ []))

  module _ (domain : SaplingDomain) (ivk : c.Scalar) (note : Note c) (to : PaymentAddress c)
      (memo : MemoBytes) (seed : Bytes) (p : IsPaid domain ivk note to memo seed) where
    note_parts :
        (g : c.Point) × (g_d c to.diversifier ≡ some g)
        × (to.pk_d ≡ c.mul g ivk)
        × (note.g_d ≡ g)
        × (note.pk_d ≡ to.pk_d)
        × (note.rseed ≡ after_zip212 seed)
        × (from_parts c to.diversifier to.pk_d ≡ some to)
    unfolding create_note
    note_parts =
        let (g, found, is, parts) = address_parts ivk to.diversifier to p.address in
        let key : to.pk_d ≡ c.mul g ivk = ap (λ (a : PaymentAddress c). a.pk_d) is in
        (
          g,
          found,
          key,
          ground (arith, found, p.made),
          ground (arith, found, p.made),
          ground (arith, found, p.made),
          ap (from_parts c to.diversifier) key ∙ parts,
        )

    seeded : note.rseed ≡ after_zip212 seed
    seeded = let (g, found, key, base, sent, is, parts) = note_parts in is

    same_seed : (s : Bytes) → note.rseed ≡ after_zip212 s → length s ≡ 32
    same_seed s e = let same : seed ≡ s = cc (seeded, e) in ap length (sym same) ∙ p.seed_size

    sized : (post : Bytes) → IsSized c domain note to post
    sized post = record {
      diversifier = p.diversifier;
      asset = p.asset;
      value = p.value;
      rseed = same_seed;
    }

    version :
        plaintext_version_is_valid domain.params domain.height (rseed_lead c note.rseed) ≡ true
    unfolding plaintext_version_is_valid rseed_lead
    version = ground (arith, p.active, seeded)

    derived : derive_esk c note ≡ some (esk_of seed)
    unfolding derive_esk
    derived = ground (arith, seeded)

    made_again : create_note c to note.asset_type note.value note.rseed ≡ some note
    made_again = ap (create_note c to note.asset_type note.value) seeded ∙ p.made

    plaintext : note_plaintext_bytes c note to memo ≡ fields c domain note to memo.bytes
    plaintext = unfold note_plaintext_bytes in refl

    split_fields :
        (post : Bytes) → fields c domain note to post ≡ fields c domain note to [] ++ post
    split_fields post = simp (append_assoc, append-nil)

    compact_plaintext :
        take compact_note_size (note_plaintext_bytes c note to memo) ≡ fields c domain note to []
    compact_plaintext =
        ap (take compact_note_size) (plaintext ∙ split_fields memo.bytes)
        ∙ take-append (fields c domain note to []) memo.bytes compact_note_size
            (length-fields c domain note to [] (sized []))

    memo_back : extract_memo c domain (note_plaintext_bytes c note to memo) ≡ memo
    unfolding extract_memo Memo.from_bytes pad
    memo_back =
        let front = fields c domain note to [] in
        let cut : slice compact_note_size 512 (note_plaintext_bytes c note to memo) ≡ memo.bytes =
          ap (slice compact_note_size 512) (plaintext ∙ split_fields memo.bytes)
          ∙ ap (take 512) (
              drop-append front memo.bytes compact_note_size
                (length-fields c domain note to [] (sized [])))
          ∙ take_whole memo.bytes 512 p.memo_size in
        ground (arith, cut, p.memo_size, append-nil memo.bytes)

    agrees :
        sapling_ka_agree c ivk (ka_derive_public c note (esk_of seed))
        ≡ sapling_ka_agree c (esk_of seed) (c.extend note.pk_d)
    unfolding sapling_ka_agree ka_derive_public
    agrees =
        let (g, found, key, base, sent, is, parts) = note_parts in
        let esk = esk_of seed in
        ap c.clear_cofactor (
          c.mul_extended-extend (c.mul note.g_d esk) ivk
          ∙ ap c.extend (
              ap (λ x. c.mul (c.mul x esk) ivk) base
              ∙ c.mul_comm g esk ivk
              ∙ ap (λ x. c.mul x esk) (sym (sent ∙ key)))
          ∙ sym (c.mul_extended-extend note.pk_d esk))

    parses_ivk :
        (post : Bytes)
        → parse_note_plaintext_without_memo_ivk c domain ivk (fields c domain note to post)
          ≡ some (note, to)
    unfolding parse_note_plaintext_without_memo_ivk
    parses_ivk post =
        let (g, found, key, base, sent, is, parts) = note_parts in
        let validated : (g_d c to.diversifier >>= λ g'. some (c.mul g' ivk)) ≡ some to.pk_d =
          ground (arith, found, key) in
        parse_fields c domain note to post (sized post) (λ d. g_d c d >>= λ g'. some (c.mul g' ivk))
          version validated parts made_again

    pub receives : IsReceived (sapling_domain c) domain ivk note to memo (esk_of seed)
    receives = record {
      derived = derived;
      agrees = agrees;
      epk_back = c.from_extended_bytes (ka_derive_public c note (esk_of seed));
      size =
          ap length plaintext
          ∙ length-fields c domain note to memo.bytes (sized memo.bytes)
          ∙ omega (arith, p.memo_size);
      parses =
          ap (parse_note_plaintext_without_memo_ivk c domain ivk) plaintext ∙ parses_ivk memo.bytes;
      parses_compact =
          ap (parse_note_plaintext_without_memo_ivk c domain ivk) compact_plaintext ∙ parses_ivk [];
      memo_back = memo_back;
    }

    parses_ovk :
        parse_note_plaintext_without_memo_ovk c domain note.pk_d
          (esk_of seed)
          (c.extended_bytes (ka_derive_public c note (esk_of seed)))
          (fields c domain note to memo.bytes)
        ≡ some (note, to)
    unfolding parse_note_plaintext_without_memo_ovk ka_derive_public
    parses_ovk =
        let (g, found, key, base, sent, is, parts) = note_parts in
        let esk = esk_of seed in
        let epk = c.extended_bytes (c.extend (c.mul note.g_d esk)) in
        let same : bytes_eq (c.to_bytes (c.mul g esk)) epk ≡ true =
          (bytes_eq_iff (c.to_bytes (c.mul g esk)) epk).1 (
            ap (λ x. c.to_bytes (c.mul x esk)) (sym base)
            ∙ sym (c.extended_bytes-extend (c.mul note.g_d esk))) in
        let validated : (g_d c to.diversifier >>= λ g'.
        if bytes_eq (c.to_bytes (c.mul g' esk)) epk then some note.pk_d else none)
            ≡ some to.pk_d =
          ground (arith, found, same, sent) in
        parse_fields c domain note to memo.bytes (sized memo.bytes)
          (λ d. g_d c d >>= λ g'.
            if bytes_eq (c.to_bytes (c.mul g' esk)) epk then some note.pk_d else none)
          version validated parts made_again

    outgoing_back :
        (c.from_bytes (slice 0 32 (outgoing_plaintext_bytes c note (esk_of seed))) ≡ some note.pk_d)
        × (c.from_repr (slice 32 32 (outgoing_plaintext_bytes c note (esk_of seed)))
            ≡ some (esk_of seed))
        × (length (outgoing_plaintext_bytes c note (esk_of seed)) ≡ out_plaintext_size)
    unfolding outgoing_plaintext_bytes
    outgoing_back =
        let key = c.to_bytes note.pk_d in
        let esk = c.to_repr (esk_of seed) in
        let key_size = c.length-to_bytes note.pk_d in
        let esk_size = c.length-to_repr (esk_of seed) in
        (
          ap c.from_bytes (take-append key esk 32 key_size) ∙ c.from_bytes-to_bytes note.pk_d,
          ap (λ b. c.from_repr (take 32 b)) (drop-append key esk 32 key_size)
              ∙ ap c.from_repr (take_whole esk 32 esk_size)
              ∙ c.from_repr-to_repr (esk_of seed),
          omega (arith, length-append key esk, key_size, esk_size),
        )

    pub sends : IsSent (sapling_domain c) domain note to memo (esk_of seed)
    sends =
        let (pk_d, esk, size) = outgoing_back in
        record {
          derived = derived;
          size =
              ap length plaintext
              ∙ length-fields c domain note to memo.bytes (sized memo.bytes)
              ∙ omega (arith, p.memo_size);
          out_size = size;
          pk_d_back = pk_d;
          esk_back = esk;
          parses =
              ap
                (parse_note_plaintext_without_memo_ovk c domain note.pk_d (esk_of seed)
                  (c.extended_bytes (ka_derive_public c note (esk_of seed))))
                plaintext
              ∙ parses_ovk;
          memo_back = memo_back;
        }
