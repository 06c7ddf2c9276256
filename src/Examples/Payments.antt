-- ===== src/Examples/Payments.antt =====
-- Payments over the group with two elements, with a cipher that changes the parity of each byte.
use masp.Base.{
  ℕ, ◌+◌, ◌-◌, ◌%◌, ◌≡◌, refl, sym, ap, ap₂, ◌∙◌, Bool, true, false, ◌&&◌, Option, none, some, [],
  ◌∷◌, ◌++◌, arith,
}
use masp.Base.{if◌then◌else◌, length, replicate, take, ◌==◌}
use masp.Base.Bytes.{Bytes}
use masp.Base.Result.{ok}
use masp.AssetType.{AssetCrypto, hash_to_point}
use masp.Consensus.{Parameters, BlockHeight, main_network, activation_height, is_nu_active}
use masp.Memo.{MemoBytes}
use masp.NoteEncryption.{
  Cipher, NoteEncryption, bytes_eq, new, new_with_esk, encrypt_outgoing_plaintext,
  try_note_decryption,
}
use masp.NoteEncryption.Opens.{output_of, try_note_decryption-new}
use masp.NoteEncryption.Compact.{compact_of}
use masp.NoteEncryption.Checked.{IsChecked, by_ivk, Finds-IsChecked}
use masp.NoteEncryption.Batch
use masp.NoteEncryption.Batch.{provided}
use masp.NoteEncryption.Batch.Each.{first_ivk, IsProvided, try_note_decryption-each}
use masp.Sapling.{
  SaplingCrypto, PaymentAddress, Note, Rseed, after_zip212, before_zip212, group_hash, g_d,
  from_parts, to_payment_address, create_note, derive_esk, cmu, cm_full_point,
}
use masp.Sapling.Domain.{
  SaplingDomain, sapling_domain, sapling_note_encryption, try_sapling_note_decryption,
  try_sapling_compact_note_decryption, try_sapling_output_recovery,
}
use masp.Sapling.Domain.Receives.{IsPaid, receives}
use masp.Sapling.Domain.Payment.{
  try_sapling_note_decryption-encryption, try_sapling_output_recovery-encryption,
}
use masp.Sapling.Codec.{serialize_note, deserialize_note, deserialize_address, address_to_bytes}
use masp.Sapling.Codec.RoundTrip.{
  IsStored, IsAddress, deserialize_address-Reads, deserialize_note-cm_full_point,
}
use masp.Examples.Conversions.{two, gold, gold_point, point_of, xor, invert, two_bytes}

abbrev flip : ℕ → ℕ
flip b = if b % 2 == 0 then b + 1 else b - 1

abbrev flip_all : Bytes → Bytes
flip_all [] = []
flip_all (b ∷ bs) = flip b ∷ flip_all bs

flip_all_twice : (bs : Bytes) → flip_all (flip_all bs) ≡ bs
flip_all_twice [] = refl
flip_all_twice (b ∷ bs) = ap₂ (λ x xs. x ∷ xs) (ground arith) (flip_all_twice bs)

length-flip_all : (bs : Bytes) → length (flip_all bs) ≡ length bs
length-flip_all [] = refl
length-flip_all (b ∷ bs) = omega (arith, length-flip_all bs)

flip_all-take : (bs : Bytes) (n : ℕ) → flip_all (take n bs) ≡ take n (flip_all bs)
flip_all-take [] ℕ.zero = refl
flip_all-take [] (ℕ.suc n) = refl
flip_all-take (b ∷ bs) ℕ.zero = refl
flip_all-take (b ∷ bs) (ℕ.suc n) = ap (◌∷◌ (flip b)) (flip_all-take bs n)

abbrev open_flipped : Bytes → Bytes → Bytes → Option Bytes
open_flipped key text tag = if bytes_eq tag (replicate 16 7) then some (flip_all text) else none

open_flipped_back :
    (key text : Bytes) → open_flipped key (flip_all text) (replicate 16 7) ≡ some text
open_flipped_back key text = ap some (flip_all_twice text)

abbrev flipping : Cipher
flipping = record {
  seal = λ key text. (flip_all text, replicate 16 7);
  open_sealed = open_flipped;
  apply_keystream = λ key text. flip_all text;
  open-seal = open_flipped_back;
  length-tag = λ key text. refl;
  seal_keystream = λ key text. refl;
  length-apply_keystream = λ key text. length-flip_all text;
  apply_keystream-take = λ key text n. flip_all-take text n;
  apply_keystream_twice = λ key text. flip_all_twice text;
}

pub point_back : (p : Bool) → point_of (two_bytes p) ≡ some p
point_back p = ground arith

pub same_iff :
    (a b : Bool) → ((invert (xor a b) ≡ true → a ≡ b) × (a ≡ b → invert (xor a b) ≡ true))
same_iff a b = (λ e. ground (arith, e), λ e. ground (arith, e))

pub times_comm : (p a b : Bool) → (p && a) && b ≡ (p && b) && a
times_comm p a b = ground arith

abbrev pub toy : SaplingCrypto
toy = record {
  assets = two;
  Point = Bool;
  Scalar = Bool;
  Coordinate = Bool;
  blake2b = λ n p m. replicate n 1;
  extend = λ p. p;
  clear_cofactor = λ p. p;
  plus = xor;
  mul = λ p s. p && s;
  mul_extended = λ p s. p && s;
  is_identity = invert;
  to_bytes = two_bytes;
  from_bytes = point_of;
  extended_bytes = two_bytes;
  to_repr = two_bytes;
  from_repr = point_of;
  from_bytes_wide = λ b. true;
  scalar_eq = λ a b. invert (xor a b);
  u_coordinate = λ p. p;
  coordinate_bytes = two_bytes;
  pedersen_hash = λ bits. true;
  commitment_randomness_generator = true;
  length-to_bytes = λ p. refl;
  from_bytes-to_bytes = point_back;
  length-extended_bytes = λ p. refl;
  from_extended_bytes = point_back;
  extended_bytes-extend = λ p. refl;
  length-to_repr = λ s. refl;
  from_repr-to_repr = point_back;
  scalar_eq_iff = same_iff;
  mul_extended-extend = λ p s. refl;
  mul_comm = times_comm;
}

abbrev domain : SaplingDomain
domain = record { params = activation_height main_network; height = record { height = 5 } }

abbrev pub seed : Bytes
seed = replicate 32 9

abbrev pub memo : MemoBytes
memo = record { bytes = replicate 512 0 }

abbrev pub payee : PaymentAddress toy
payee = record { pk_d = true; diversifier = replicate 11 3 }

abbrev pub note : Note toy
note = record { asset_type = gold; value = 7; g_d = true; pk_d = true; rseed = after_zip212 seed }

active : is_nu_active domain.params masp.Consensus.masp_upgrade domain.height ≡ true
unfolding is_nu_active activation_height
active = refl

address_made : to_payment_address toy true payee.diversifier ≡ some payee
unfolding to_payment_address g_d group_hash from_parts
address_made = refl

note_made : create_note toy payee gold 7 (after_zip212 seed) ≡ some note
unfolding create_note g_d group_hash
note_made = refl

note-IsPaid : IsPaid toy domain true note payee memo seed
note-IsPaid = record {
  active = active;
  address = address_made;
  made = note_made;
  diversifier = refl;
  asset = (refl, λ n. cc (n, gold_point));
  value = omega arith;
  seed_size = refl;
  memo_size = refl;
}

abbrev sender : Bytes
sender = replicate 32 4

abbrev sent : NoteEncryption (sapling_domain toy)
sent = record { epk = true; esk = true; note = note; to = payee; memo = memo; ovk = some sender }

encryption_made : sapling_note_encryption toy (some sender) note payee memo ≡ some sent
unfolding sapling_note_encryption new new_with_esk derive_esk masp.Sapling.Domain.ka_derive_public
encryption_made = refl

new_made : new (sapling_domain toy) (some sender) note payee memo ≡ some sent
new_made = unfold sapling_note_encryption in encryption_made

decrypted :
    try_note_decryption flipping
      (sapling_domain toy)
      domain
      true
      (output_of flipping (sapling_domain toy) sent)
    ≡ some (note, payee, memo)
decrypted =
    try_note_decryption-new flipping (sapling_domain toy) (some sender) sent
      (receives toy domain true note payee memo seed note-IsPaid) new_made

Finds-IsChecked_example :
    IsChecked (sapling_domain toy) (output_of flipping (sapling_domain toy) sent) note
Finds-IsChecked_example =
    Finds-IsChecked flipping (sapling_domain toy) {domain = domain}
      (by_ivk true payee memo decrypted)

try_sapling_note_decryption-encryption_example :
    (try_sapling_note_decryption toy flipping domain.params domain.height true
        (output_of flipping (sapling_domain toy) sent)
      ≡ some (note, payee, memo))
    × (try_sapling_compact_note_decryption toy flipping domain.params domain.height true
          (compact_of flipping (sapling_domain toy) sent)
        ≡ some (note, payee))
try_sapling_note_decryption-encryption_example =
    try_sapling_note_decryption-encryption flipping toy domain true note payee memo seed
      (some sender) sent note-IsPaid encryption_made

try_sapling_output_recovery-encryption_example :
    try_sapling_output_recovery toy flipping domain.params domain.height sender
      (output_of flipping (sapling_domain toy) sent)
      true
      (encrypt_outgoing_plaintext flipping (sapling_domain toy) sent true (cmu toy note) [] [])
    ≡ some (note, payee, memo)
try_sapling_output_recovery-encryption_example =
    try_sapling_output_recovery-encryption flipping toy domain true note payee memo seed sender true
      [] [] sent note-IsPaid encryption_made

provided-IsProvided : IsProvided (sapling_domain toy) (provided (sapling_domain toy))
unfolding provided
provided-IsProvided = record { kdf = λ items. refl; epk = λ keys. refl }

-- Two keys and one output.
try_note_decryption-each_example :
    Batch.try_note_decryption
      (sapling_domain toy)
      flipping
      (provided (sapling_domain toy))
      (false ∷ true ∷ [])
      ((domain, output_of flipping (sapling_domain toy) sent) ∷ [])
    ≡ first_ivk
        (sapling_domain toy)
        (λ ivk.
          try_note_decryption flipping
            (sapling_domain toy)
            domain
            ivk
            (output_of flipping (sapling_domain toy) sent))
        0
        (false ∷ true ∷ [])
      ∷ []
try_note_decryption-each_example =
    try_note_decryption-each (sapling_domain toy) flipping (provided (sapling_domain toy))
      provided-IsProvided (false ∷ true ∷ [])
      ((domain, output_of flipping (sapling_domain toy) sent) ∷ [])

same_size :
    (r s : Bytes)
    → ◌≡◌ {A = Rseed toy} (after_zip212 r) (after_zip212 s)
    → length r ≡ 32
    → length s ≡ 32
same_size r s e h = let same : r ≡ s = cc e in ap length (sym same) ∙ h

note-IsStored : IsStored toy note
note-IsStored = record { asset = refl; value = omega arith; rseed = λ s e. same_size seed s e refl }

payee-IsAddress : IsAddress toy payee
unfolding g_d group_hash
payee-IsAddress = record { size = refl; has_base = λ n. cc n; proper = refl }

deserialize_address-Reads_example :
    deserialize_address toy (address_to_bytes toy payee ++ 9 ∷ []) ≡ ok (payee, 9 ∷ [])
deserialize_address-Reads_example = deserialize_address-Reads toy payee payee-IsAddress (9 ∷ [])

-- A hash that is no point, for messages that begin with 2.
abbrev picky_hash : Bytes → Bytes
picky_hash [] = two_bytes true
picky_hash (b ∷ bs) = if b == 2 then replicate 32 5 else two_bytes true

length-picky_hash : (m : Bytes) → length (picky_hash m) ≡ 32
length-picky_hash [] = refl
length-picky_hash (b ∷ bs) = ground arith

abbrev picky_assets : AssetCrypto
picky_assets = record two {
  blake2s = λ p m. picky_hash m;
  length-blake2s = λ p m. length-picky_hash m;
}

abbrev picky : SaplingCrypto
picky = record toy { assets = picky_assets }

abbrev unknown : Note picky
unknown = record {
  asset_type = replicate 32 2;
  value = 7;
  g_d = true;
  pk_d = true;
  rseed = before_zip212 true;
}

unknown-IsStored : IsStored picky unknown
unknown-IsStored = record { asset = refl; value = omega arith; rseed = λ s e. cc e }

unknown_point : hash_to_point picky_assets (replicate 32 2) ≡ none
unfolding hash_to_point
unknown_point = refl

deserialize_note-cm_full_point_example :
    (deserialize_note picky (serialize_note picky unknown ++ []) ≡ ok (unknown, []))
    × (cm_full_point picky unknown ≡ none)
deserialize_note-cm_full_point_example =
    deserialize_note-cm_full_point picky unknown [] unknown-IsStored unknown_point
