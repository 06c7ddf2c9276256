-- ===== src/Sapling/Domain/Payment.antt =====
-- A payment: the recipient decrypts the note, a light client finds it, and the sender recovers it.
use masp.Base.{◌≡◌, Option, some}
use masp.Base.Bytes.{Bytes}
use masp.Memo.{MemoBytes}
use masp.NoteEncryption.{Cipher, NoteEncryption, encrypt_outgoing_plaintext}
use masp.NoteEncryption.Opens.{output_of, try_note_decryption-new}
use masp.NoteEncryption.Compact.{compact_of, try_compact_note_decryption-new}
use masp.NoteEncryption.Recovery.{try_output_recovery_with_ovk-new}
use masp.Sapling.{SaplingCrypto, PaymentAddress, Note, cmu}
use masp.Sapling.Domain.{
  SaplingDomain, sapling_domain, sapling_note_encryption, try_sapling_note_decryption,
  try_sapling_compact_note_decryption, try_sapling_output_recovery,
}
use masp.Sapling.Domain.Receives.{IsPaid, receives, sends}

module _ (C : Cipher) (c : SaplingCrypto) (domain : SaplingDomain) (ivk : c.Scalar) (note : Note c)
    (to : PaymentAddress c) (memo : MemoBytes) (seed : Bytes) where
  -- A note to an address, made under the conditions of a payment (MASP is active, the address is
  -- one of the viewing key, the asset type is known and the parts have their sizes), is decrypted
  -- from its output by the viewing key, with its recipient and memo, and without the memo from the
  -- first bytes of the ciphertext.
  pub try_sapling_note_decryption-encryption :
      (ovk : Option Bytes) (e : NoteEncryption (sapling_domain c))
      → IsPaid c domain ivk note to memo seed
      → sapling_note_encryption c ovk note to memo ≡ some e
      → (try_sapling_note_decryption c C domain.params domain.height ivk
            (output_of C (sapling_domain c) e)
          ≡ some (note, to, memo))
        × (try_sapling_compact_note_decryption c C domain.params domain.height ivk
              (compact_of C (sapling_domain c) e)
            ≡ some (note, to))
  unfolding sapling_note_encryption try_sapling_note_decryption try_sapling_compact_note_decryption
  try_sapling_note_decryption-encryption ovk e p made =
      let r = receives c domain ivk note to memo seed p in
      (
        try_note_decryption-new C (sapling_domain c) ovk e r made,
        try_compact_note_decryption-new C (sapling_domain c) ovk e r made,
      )

  -- Under the same conditions the sender recovers the note, its recipient and its memo from the
  -- output and the outgoing ciphertext by the outgoing viewing key.
  pub try_sapling_output_recovery-encryption :
      (ovk : Bytes) (cv : c.assets.Point) (random_ock random_input : Bytes)
      (e : NoteEncryption (sapling_domain c))
      → IsPaid c domain ivk note to memo seed
      → sapling_note_encryption c (some ovk) note to memo ≡ some e
      → try_sapling_output_recovery c C domain.params domain.height ovk
          (output_of C (sapling_domain c) e)
          cv
          (encrypt_outgoing_plaintext C
            (sapling_domain c)
            e
            cv
            (cmu c note)
            random_ock
            random_input)
        ≡ some (note, to, memo)
  unfolding sapling_note_encryption try_sapling_output_recovery
  try_sapling_output_recovery-encryption ovk cv random_ock random_input e p made =
      try_output_recovery_with_ovk-new C (sapling_domain c) ovk cv random_ock random_input
        (sends c domain ivk note to memo seed p) e made
