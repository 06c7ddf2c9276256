-- ===== src/NoteEncryption/Batch/Each.antt =====
-- A batch gives, for every output, what trial decryption of the keys in turn gives.
use masp.Base.{
  ℕ, zero, suc, ◌≤◌, ◌≡◌, refl, ap, ap₂, ◌∙◌, arith, Option, none, some, List, [], ◌∷◌, ◌++◌, map,
  map-append,
}
use masp.Base.{
  length, take-append, drop-append, length-append, length-map, All, Option-cases, inl, inr,
}
use masp.Base.Bytes.{Bytes}
use masp.NoteEncryption
use masp.NoteEncryption.{
  Cipher, Domain, ShieldedOutput, try_note_decryption_inner, try_compact_note_decryption_inner,
}
use masp.NoteEncryption.Batch
use masp.NoteEncryption.Batch.{
  map_option, and_then, flat_map, zip, chunks, chunks_within, BatchDomain, derive_key, parse_epk,
  first_decrypted, secrets, batch_note_decryption,
}

module _ {A : Type 0} where
  abbrev pub flat : List (List A) → List A
  flat xss = flat_map (λ xs. xs) xss

  chunk_step :
      (fuel n : ℕ) (xs rest : List A)
      → length xs ≡ suc n
      → chunks_within (suc fuel) (suc n) (xs ++ rest) ≡ xs ∷ chunks_within fuel (suc n) rest
  unfolding chunks_within
  chunk_step fuel n [] rest h = absurd (omega arith)
  chunk_step fuel n (x ∷ xs) rest h =
      ap₂ (λ c r. c ∷ chunks_within fuel (suc n) r) (take-append (x ∷ xs) rest (suc n) h)
        (drop-append (x ∷ xs) rest (suc n) h)

  -- Pieces of one positive size are cut apart again.
  chunks_within-flat :
      (fuel n : ℕ) (xss : List (List A))
      → All (λ xs. length xs ≡ suc n) xss
      → length xss ≤ fuel
      → chunks_within fuel (suc n) (flat xss) ≡ xss
  chunks_within-flat zero n [] sizes h = unfold chunks_within in refl
  chunks_within-flat zero n (xs ∷ xss) sizes h = absurd (omega arith)
  chunks_within-flat (suc fuel) n [] sizes h = unfold chunks_within in refl
  chunks_within-flat (suc fuel) n (xs ∷ xss) (here, more) h =
      chunk_step fuel n xs (flat xss) here
      ∙ ap (◌∷◌ xs) (chunks_within-flat fuel n xss more (omega arith))

  length-le-flat :
      (n : ℕ) (xss : List (List A))
      → All (λ xs. length xs ≡ suc n) xss
      → length xss ≤ length (flat xss)
  length-le-flat n [] sizes = omega arith
  length-le-flat n (xs ∷ xss) (here, more) =
      omega (arith, length-append xs (flat xss), length-le-flat n xss more)

  pub chunks-flat :
      (n : ℕ) (xss : List (List A))
      → All (λ xs. length xs ≡ suc n) xss
      → chunks (suc n) (flat xss) ≡ xss
  unfolding chunks
  chunks-flat n xss sizes =
      chunks_within-flat (length (flat xss)) n xss sizes (length-le-flat n xss sizes)

module _ (D : Domain) where
  -- The first key, in the order given, that decrypts, with its index.
  unfoldable pub first_ivk :
      {R : Type 0}
      → (D.IncomingViewingKey → Option R)
      → ℕ
      → List D.IncomingViewingKey
      → Option (R × ℕ)
  first_ivk decrypt i [] = none
  first_ivk decrypt i (ivk ∷ ivks) =
      let later = first_ivk decrypt (suc i) ivks in
      elim (decrypt ivk) [ some out ↦ some (out, i) | none ↦ later ]

  -- A batch whose methods agree with those that the trait provides.
  pub record IsProvided (B : BatchDomain D) : Type 0 where
    pub kdf :
        (items : List (Option D.SharedSecret × Bytes))
        → B.batch_kdf items ≡ map (derive_key D) items
    pub epk : (keys : List Bytes) → B.batch_epk keys ≡ map (parse_epk D) keys

  module _ {R : Type 0}
      (decrypt_inner : D.State
        → D.IncomingViewingKey
        → Bytes
        → ShieldedOutput D
        → D.SymmetricKey
        → Option R) where
    -- One key on one output, as the single trial decryptions do it.
    abbrev pub try_one : D.State → D.IncomingViewingKey → ShieldedOutput D → Option R
    try_one domain ivk output = elim (D.epk output.ephemeral_key) [
      | none ↦ none
      | some epk ↦
          decrypt_inner domain ivk output.ephemeral_key output
            (D.kdf (D.ka_agree_dec ivk (D.prepare_epk epk)) output.ephemeral_key)
    ]

    -- The keys of one output.
    abbrev keys_of : List D.IncomingViewingKey → ShieldedOutput D → List (Option D.SymmetricKey)
    keys_of ivks output = map (derive_key D) (
        map
          (λ ivk. (
            map_option (D.ka_agree_dec ivk) (parse_epk D output.ephemeral_key).0,
            output.ephemeral_key,
          ))
          ivks)

    abbrev decrypt_with :
        D.State → ShieldedOutput D → D.IncomingViewingKey → D.SymmetricKey → Option R
    decrypt_with domain output ivk key = decrypt_inner domain ivk output.ephemeral_key output key

    one_key :
        (domain : D.State) (output : ShieldedOutput D) (ivk : D.IncomingViewingKey)
        → and_then
            (derive_key D (
              map_option (D.ka_agree_dec ivk) (parse_epk D output.ephemeral_key).0,
              output.ephemeral_key,
            ))
            (decrypt_with domain output ivk)
          ≡ try_one domain ivk output
    one_key domain output ivk = elim (Option-cases (D.epk output.ephemeral_key)) [
      | inl n ↦ ground (arith, n)
      | inr (epk, p) ↦ ground (arith, p)
    ]

    first_decrypted-step :
        (decrypt : D.IncomingViewingKey → D.SymmetricKey → Option R)
        (single : D.IncomingViewingKey → Option R) (i : ℕ) (key : Option D.SymmetricKey)
        (keys : List (Option D.SymmetricKey)) (ivk : D.IncomingViewingKey)
        (ivks : List D.IncomingViewingKey)
        → and_then key (decrypt ivk) ≡ single ivk
        → first_decrypted D decrypt (suc i) keys ivks ≡ first_ivk single (suc i) ivks
        → first_decrypted D decrypt i (key ∷ keys) (ivk ∷ ivks) ≡ first_ivk single i (ivk ∷ ivks)
    unfolding first_decrypted first_ivk
    first_decrypted-step decrypt single i key keys ivk ivks e f = ground (arith, e, f)

    first_decrypted_lem :
        (domain : D.State) (output : ShieldedOutput D) (i : ℕ) (ivks : List D.IncomingViewingKey)
        → first_decrypted D (decrypt_with domain output) i (keys_of ivks output) ivks
          ≡ first_ivk (λ ivk. try_one domain ivk output) i ivks
    first_decrypted_lem domain output i [] = unfold first_decrypted first_ivk in refl
    first_decrypted_lem domain output i (ivk ∷ ivks) =
        first_decrypted-step (decrypt_with domain output) (λ k. try_one domain k output) i _
          (keys_of ivks output) ivk ivks (one_key domain output ivk)
          (first_decrypted_lem domain output (suc i) ivks)

    -- The keys of all outputs, in pieces.
    keys_flat :
        (ivks : List D.IncomingViewingKey) (outputs : List (D.State × ShieldedOutput D))
        → map
            (derive_key D)
            (secrets D ivks (map (parse_epk D) (map (λ o. o.1.ephemeral_key) outputs)))
          ≡ flat (map (λ o. keys_of ivks o.1) outputs)
    unfolding secrets
    keys_flat ivks [] = refl
    keys_flat ivks ((domain, output) ∷ outputs) =
        map-append (derive_key D)
          (map
            (λ ivk. (
              map_option (D.ka_agree_dec ivk) (parse_epk D output.ephemeral_key).0,
              output.ephemeral_key,
            ))
            ivks)
          (secrets D ivks (map (parse_epk D) (map (λ o. o.1.ephemeral_key) outputs)))
        ∙ ap (λ r. keys_of ivks output ++ r) (keys_flat ivks outputs)

    keys_sizes :
        (ivks : List D.IncomingViewingKey) (outputs : List (D.State × ShieldedOutput D))
        → All (λ xs. length xs ≡ length ivks) (map (λ o. keys_of ivks o.1) outputs)
    keys_sizes ivks [] = tt
    keys_sizes ivks ((domain, output) ∷ outputs) =
        let items =
          map
            (λ ivk. (
              map_option (D.ka_agree_dec ivk) (parse_epk D output.ephemeral_key).0,
              output.ephemeral_key,
            ))
            ivks in
        (length-map items (derive_key D) ∙ length-map ivks _, keys_sizes ivks outputs)

    abbrev decrypt_item :
        List D.IncomingViewingKey
        → List (Option D.SymmetricKey)
          × ((Option D.PreparedEphemeralPublicKey × Bytes) × (D.State × ShieldedOutput D))
        → Option (R × ℕ)
    decrypt_item ivks (key_chunk, (e, o)) =
        first_decrypted D (λ k. decrypt_inner o.0 k e.1 o.1) 0 key_chunk ivks

    -- Piece by piece, each output meets its own keys.
    pieces_meet :
        (ivks : List D.IncomingViewingKey) (outputs : List (D.State × ShieldedOutput D))
        → map (decrypt_item ivks) (
            zip
              (map (λ o. keys_of ivks o.1) outputs)
              (zip (map (parse_epk D) (map (λ o. o.1.ephemeral_key) outputs)) outputs))
          ≡ map (λ o. first_ivk (λ ivk. try_one o.0 ivk o.1) 0 ivks) outputs
    pieces_meet ivks [] = refl
    pieces_meet ivks ((domain, output) ∷ outputs) =
        ap₂ (λ x xs. x ∷ xs) (first_decrypted_lem domain output 0 ivks) (pieces_meet ivks outputs)

    no_keys :
        (outputs : List (D.State × ShieldedOutput D))
        → map (λ _. none) outputs ≡ map (λ o. first_ivk (λ ivk. try_one o.0 ivk o.1) 0 []) outputs
    unfolding first_ivk
    no_keys [] = refl
    no_keys (o ∷ outputs) = ap (◌∷◌ none) (no_keys outputs)

    pub batch_note_decryption_lem :
        (B : BatchDomain D) (ivks : List D.IncomingViewingKey)
        (outputs : List (D.State × ShieldedOutput D))
        → IsProvided B
        → batch_note_decryption D B decrypt_inner ivks outputs
          ≡ map (λ o. first_ivk (λ ivk. try_one o.0 ivk o.1) 0 ivks) outputs
    unfolding batch_note_decryption
    batch_note_decryption_lem B [] outputs p = no_keys outputs
    batch_note_decryption_lem B (ivk ∷ ivks) outputs p =
        let all = ivk ∷ ivks in
        let ephemeral = map (λ o. o.1.ephemeral_key) outputs in
        let epks = p.epk ephemeral in
        let pieces = map (λ o. keys_of all o.1) outputs in
        let cut : chunks (length all) (B.batch_kdf (secrets D all (B.batch_epk ephemeral)))
            ≡ pieces =
          ap (λ e. chunks (length all) (B.batch_kdf (secrets D all e))) epks
          ∙ ap (chunks (length all))
              (p.kdf (secrets D all (map (parse_epk D) ephemeral)) ∙ keys_flat all outputs)
          ∙ chunks-flat (length ivks) pieces (keys_sizes all outputs) in
        ap₂ (λ c e. map (decrypt_item all) (zip c (zip e outputs))) cut epks
        ∙ pieces_meet all outputs

  module _ (C : Cipher) (B : BatchDomain D) (p : IsProvided B) where
    -- If the batched methods agree with those that the trait provides, the batched trial
    -- decryption of outputs with keys gives, for every output in order, what the first of the keys
    -- that decrypts it gives alone, with the index of that key.
    pub try_note_decryption-each :
        (ivks : List D.IncomingViewingKey) (outputs : List (D.State × ShieldedOutput D))
        → Batch.try_note_decryption D C B ivks outputs
          ≡ map
              (λ o. first_ivk (λ ivk. NoteEncryption.try_note_decryption C D o.0 ivk o.1) 0 ivks)
              outputs
    unfolding Batch.try_note_decryption NoteEncryption.try_note_decryption
    try_note_decryption-each ivks outputs =
        batch_note_decryption_lem (try_note_decryption_inner C D) B ivks outputs p

    pub try_compact_note_decryption-each :
        (ivks : List D.IncomingViewingKey) (outputs : List (D.State × ShieldedOutput D))
        → Batch.try_compact_note_decryption D C B ivks outputs
          ≡ map
              (λ o.
                first_ivk
                  (λ ivk. NoteEncryption.try_compact_note_decryption C D o.0 ivk o.1)
                  0
                  ivks)
              outputs
    unfolding Batch.try_compact_note_decryption NoteEncryption.try_compact_note_decryption
    try_compact_note_decryption-each ivks outputs =
        batch_note_decryption_lem (try_compact_note_decryption_inner C D) B ivks outputs p
