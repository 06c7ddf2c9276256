-- ===== src/SaplingBuilder/Totals.antt =====
-- What the parts of a builder are worth, asset by asset, as mathematical integers.
use masp.Base.{◌≡◌, ◌≢◌, ap, sym, ◌∙◌, List, [], ◌∷◌, ◌++◌, All}
use masp.Base.Int.{ℤ, pos, ◌+ℤ◌, ◌-ℤ◌, ◌*ℤ◌, +ℤ_assoc, int_laws}
use masp.Base.Bytes.{Bytes}
use masp.AssetType.Bits.{bytes_ord}
use masp.Amount.{get}
use masp.Amount.Single.{only}
use masp.Sapling.{SaplingCrypto}
use masp.SaplingBuilder.{
  SpendDescriptionInfo, ConvertDescriptionInfo, SaplingOutputInfo, SaplingBuilder,
}

abbrev pub total_of : {A : Type 0} → (A → ℤ) → List A → ℤ
total_of f [] = pos 0
total_of f (x ∷ xs) = f x +ℤ total_of f xs

pub total_of-snoc :
    {A : Type 0} (f : A → ℤ) (xs : List A) (x : A)
    → total_of f (xs ++ x ∷ []) ≡ total_of f xs +ℤ f x
total_of-snoc f [] x = omega int_laws
total_of-snoc f (y ∷ xs) x =
    ap (λ z. f y +ℤ z) (total_of-snoc f xs x) ∙ sym (+ℤ_assoc (f y) (total_of f xs) (f x))

pub All-snoc :
    {A : Type 0} (P : A → Type 0) (xs : List A) (x : A) → All P xs → P x → All P (xs ++ x ∷ [])
All-snoc P [] x h p = (p, tt)
All-snoc P (y ∷ xs) x (q, h) p = (q, All-snoc P xs x h p)

pub snoc-nonempty : {A : Type 0} (xs : List A) (x : A) → xs ++ x ∷ [] ≢ []
snoc-nonempty [] x e = cc e
snoc-nonempty (y ∷ xs) x e = cc e

abbrev pub spent : {c : SaplingCrypto} {Key : Type 0} → Bytes → SpendDescriptionInfo c Key → ℤ
spent k s = only s.note.asset_type (pos s.note.value) k

abbrev pub paid : {c : SaplingCrypto} → Bytes → SaplingOutputInfo c → ℤ
paid k o = only o.note.asset_type (pos o.note.value) k

abbrev pub converted : {c : SaplingCrypto} → Bytes → ConvertDescriptionInfo c → ℤ
converted k d = get d.allowed.assets k *ℤ pos d.value

-- Spends and conversions, less outputs.
abbrev pub net : {c : SaplingCrypto} {P Key : Type 0} → SaplingBuilder c P Key → Bytes → ℤ
net b k =
    total_of (spent k) b.spends +ℤ total_of (converted k) b.converts -ℤ total_of (paid k) b.outputs
