-- ===== src/Words.antt =====
-- Rust's integer types and their checked operations, which the `Checked…` traits of num_traits name.
-- A value is the integer that it stands for; `none` is an overflow.
use masp.Base.{ℕ, ◌-◌, ◌^◌, ◌≡◌, ◌≢◌, Bool, true, false, ◌&&◌, Option, none, some, arith}
use masp.Base.Bytes.{Bytes, to_le_bytes, from_le_bytes, from_le_bytes-to_le_bytes}
use masp.Base.{if◌then◌else◌, ltb, ◌*◌, Bool-cases, inl, inr}
use masp.Base.Int.{ℤ, pos, negsuc, leb_ℤ, ◌+ℤ◌, ◌-ℤ◌, ◌*ℤ◌}

pub data IntType : Type 0 where
  signed : ℕ → IntType
  unsigned : ℕ → IntType

abbrev pub i32 : IntType
i32 = signed 32

abbrev pub i64 : IntType
i64 = signed 64

abbrev pub i128 : IntType
i128 = signed 128

abbrev pub u64 : IntType
u64 = unsigned 64

unfoldable pub min_value : IntType → ℤ
min_value (signed w) = negsuc (2 ^ (w - 1) - 1)
min_value (unsigned w) = pos 0

unfoldable pub max_value : IntType → ℤ
max_value (signed w) = pos (2 ^ (w - 1) - 1)
max_value (unsigned w) = pos (2 ^ w - 1)

unfoldable pub in_range : IntType → ℤ → Bool
unfolding min_value max_value
in_range t a = leb_ℤ (min_value t) a && leb_ℤ a (max_value t)

-- A mathematical result, if the type holds it.
unfoldable pub checked : IntType → ℤ → Option ℤ
unfolding in_range
checked t a = if in_range t a then some a else none

unfoldable pub checked_add : IntType → ℤ → ℤ → Option ℤ
unfolding checked ◌+ℤ◌
checked_add t a b = checked t (a +ℤ b)

unfoldable pub checked_sub : IntType → ℤ → ℤ → Option ℤ
unfolding checked ◌-ℤ◌
checked_sub t a b = checked t (a -ℤ b)

unfoldable pub checked_mul : IntType → ℤ → ℤ → Option ℤ
unfolding checked ◌*ℤ◌
checked_mul t a b = checked t (a *ℤ b)

unfoldable pub checked_neg : IntType → ℤ → Option ℤ
unfolding checked ◌-ℤ◌
checked_neg t a = checked t (pos 0 -ℤ a)

-- `TryFrom` between integer types.
unfoldable pub try_into : IntType → ℤ → Option ℤ
unfolding checked
try_into t a = checked t a

-- Two's complement in `n` bytes: `to_le_bytes` and `from_le_bytes` of a signed type.
unfoldable pub int_to_le_bytes : ℕ → ℤ → Bytes
int_to_le_bytes n (pos a) = to_le_bytes n a
int_to_le_bytes n (negsuc a) = to_le_bytes n (256 ^ n - 1 - a)

unfoldable pub int_from_le_bytes : ℕ → Bytes → ℤ
int_from_le_bytes n bs =
    let v = from_le_bytes bs in if ltb v (2 ^ (8 * n - 1)) then pos v else negsuc (256 ^ n - 1 - v)

pub in_range-zero : (t : IntType) → in_range t (pos 0) ≡ true
unfolding in_range min_value max_value
in_range-zero (signed w) = ground arith
in_range-zero (unsigned w) = ground arith

-- `checked` is shut in these statements, so that proofs need not see the range.
module _ (t : IntType) (a : ℤ) where
  pub checked-some : in_range t a ≡ true → checked t a ≡ some a
  checked-some h = unfold checked in rw h

  pub checked_result : {b : ℤ} → checked t a ≡ some b → (b ≡ a) × (in_range t b ≡ true)
  checked_result {b} e = elim (Bool-cases (in_range t a)) [
    | inl h ↦ ground (arith, checked-some h)
    | inr h ↦ absurd (ground (arith, checked-none h))
  ]
    where
      checked-none : in_range t a ≡ false → checked t a ≡ none
      checked-none h = unfold checked in rw h

  pub checked_defined : checked t a ≢ none → checked t a ≡ some a
  checked_defined h = elim (Bool-cases (in_range t a)) [
    | inl r ↦ checked-some r
    | inr r ↦ absurd (h (unfold checked in rw r))
  ]

-- The width in bytes of the signed types that are written.
pub int_from_le_bytes-int_to_le_bytes :
    (a : ℤ)
    → (in_range (signed 32) a ≡ true → int_from_le_bytes 4 (int_to_le_bytes 4 a) ≡ a)
      × (in_range (signed 64) a ≡ true → int_from_le_bytes 8 (int_to_le_bytes 8 a) ≡ a)
      × (in_range (signed 128) a ≡ true → int_from_le_bytes 16 (int_to_le_bytes 16 a) ≡ a)
unfolding int_from_le_bytes int_to_le_bytes in_range
int_from_le_bytes-int_to_le_bytes (pos a) = (
  λ h. ground (arith, from_le_bytes-to_le_bytes 4 a),
  λ h. ground (arith, from_le_bytes-to_le_bytes 8 a),
  λ h. ground (arith, from_le_bytes-to_le_bytes 16 a),
)
int_from_le_bytes-int_to_le_bytes (negsuc a) = (
  λ h. ground (arith, from_le_bytes-to_le_bytes 4 (256 ^ 4 - 1 - a)),
  λ h. ground (arith, from_le_bytes-to_le_bytes 8 (256 ^ 8 - 1 - a)),
  λ h. ground (arith, from_le_bytes-to_le_bytes 16 (256 ^ 16 - 1 - a)),
)
