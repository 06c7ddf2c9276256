-- ===== src/NoteEncryption/Batch.antt =====
-- masp_note_encryption/src/batch.rs and the trait `BatchDomain`: trial decryption of many outputs
-- with many keys.
pub mod Each
use masp.Base.{ℕ, zero, suc, Option, none, some, List, [], ◌∷◌, ◌++◌, map}
use masp.Base.{length, take, drop}
use masp.Base.Bytes.{Bytes}
use masp.NoteEncryption.{
  Cipher, Domain, ShieldedOutput, try_note_decryption_inner, try_compact_note_decryption_inner,
}

module _ {A B : Type 0} where
  -- `Option::map` and `Option::and_then`
  abbrev pub map_option : (A → B) → Option A → Option B
  map_option f none = none
  map_option f (some a) = some (f a)

  abbrev pub and_then : Option A → (A → Option B) → Option B
  and_then none f = none
  and_then (some a) f = f a

  abbrev pub flat_map : (A → List B) → List A → List B
  flat_map f [] = []
  flat_map f (x ∷ xs) = f x ++ flat_map f xs

  abbrev pub zip : List A → List B → List (A × B)
  zip [] bs = []
  zip (a ∷ as') [] = []
  zip (a ∷ as') (b ∷ bs) = (a, b) ∷ zip as' bs

module _ {A : Type 0} where
  -- `chunks` of a positive size: at most as many as there are elements, which bounds the fuel.
  unfoldable pub chunks_within : ℕ → ℕ → List A → List (List A)
  chunks_within zero n xs = []
  chunks_within (suc fuel) n [] = []
  chunks_within (suc fuel) n (x ∷ xs) = take n (x ∷ xs) ∷ chunks_within fuel n (drop n (x ∷ xs))

  unfoldable pub chunks : ℕ → List A → List (List A)
  unfolding chunks_within
  chunks n xs = chunks_within (length xs) n xs

pub record BatchDomain (D : Domain) : Type 0 where
  pub batch_kdf : List (Option D.SharedSecret × Bytes) → List (Option D.SymmetricKey)
  pub batch_epk : List Bytes → List (Option D.PreparedEphemeralPublicKey × Bytes)

module _ (D : Domain) where
  abbrev pub derive_key : Option D.SharedSecret × Bytes → Option D.SymmetricKey
  derive_key (secret, ephemeral_key) = map_option (λ s. D.kdf s ephemeral_key) secret

  abbrev pub parse_epk : Bytes → Option D.PreparedEphemeralPublicKey × Bytes
  parse_epk ephemeral_key = (map_option D.prepare_epk (D.epk ephemeral_key), ephemeral_key)

  -- The methods that the trait provides.
  unfoldable pub provided : BatchDomain D
  provided = record { batch_kdf = map derive_key; batch_epk = map parse_epk }

  -- The closure of `filter_map` and `next`, over the keys of one output from index `i` on.
  unfoldable pub first_decrypted :
      {R : Type 0}
      → (D.IncomingViewingKey → D.SymmetricKey → Option R)
      → ℕ
      → List (Option D.SymmetricKey)
      → List D.IncomingViewingKey
      → Option (R × ℕ)
  first_decrypted decrypt i [] ivks = none
  first_decrypted decrypt i (key ∷ keys) [] = none
  first_decrypted decrypt i (key ∷ keys) (ivk ∷ ivks) =
      let later = first_decrypted decrypt (suc i) keys ivks in
      elim (and_then key (decrypt ivk)) [ some out ↦ some (out, i) | none ↦ later ]

  -- The items of the batched key derivation.
  unfoldable pub secrets :
      List D.IncomingViewingKey
      → List (Option D.PreparedEphemeralPublicKey × Bytes)
      → List (Option D.SharedSecret × Bytes)
  secrets ivks ephemeral_keys =
      flat_map (λ e. map (λ ivk. (map_option (D.ka_agree_dec ivk) e.0, e.1)) ivks) ephemeral_keys

  unfoldable pub batch_note_decryption :
      {R : Type 0}
      → BatchDomain D
      → (D.State → D.IncomingViewingKey → Bytes → ShieldedOutput D → D.SymmetricKey → Option R)
      → List D.IncomingViewingKey
      → List (D.State × ShieldedOutput D)
      → List (Option (R × ℕ))
  unfolding secrets chunks first_decrypted
  batch_note_decryption B decrypt_inner [] outputs = map (λ _. none) outputs
  batch_note_decryption B decrypt_inner (ivk ∷ ivks) outputs =
      let ephemeral_keys = B.batch_epk (map (λ o. o.1.ephemeral_key) outputs) in
      let keys = B.batch_kdf (secrets (ivk ∷ ivks) ephemeral_keys) in
      map
        (λ item.
          let (key_chunk, (e, o)) = item in
          first_decrypted (λ k. decrypt_inner o.0 k e.1 o.1) 0 key_chunk (ivk ∷ ivks))
        (zip (chunks (length (ivk ∷ ivks)) keys) (zip ephemeral_keys outputs))

  module _ (C : Cipher) (B : BatchDomain D) where
    unfoldable pub try_note_decryption :
        List D.IncomingViewingKey
        → List (D.State × ShieldedOutput D)
        → List (Option ((D.Note × D.Recipient × D.Memo) × ℕ))
    unfolding batch_note_decryption
    try_note_decryption ivks outputs =
        batch_note_decryption B (try_note_decryption_inner C D) ivks outputs

    unfoldable pub try_compact_note_decryption :
        List D.IncomingViewingKey
        → List (D.State × ShieldedOutput D)
        → List (Option ((D.Note × D.Recipient) × ℕ))
    unfolding batch_note_decryption
    try_compact_note_decryption ivks outputs =
        batch_note_decryption B (try_compact_note_decryption_inner C D) ivks outputs
