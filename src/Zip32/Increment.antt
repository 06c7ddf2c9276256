-- ===== src/Zip32/Increment.antt =====
-- `increment` is addition of one to an 88-bit number.
use masp.Base.{
  ℕ, zero, suc, ◌+◌, ◌/◌, ◌%◌, ◌^◌, ◌<◌, ◌≡◌, refl, true, arith, Bool-cases, inl, inr, subst,
}
use masp.Base.{length, ltb, All, if◌then◌else◌, ◌==◌}
use native.Mathlib.Nat.{pow-suc}
use masp.Base.Bytes.{
  IsByte, to_le_bytes, from_le_bytes, to_le_bytes-from_le_bytes, from_le_bytes-lt,
}
use masp.Base.Result.{ok, err}
use masp.Zip32.{DiversifierIndex, increment_bytes, increment}

-- The index of a number below 256 ^ 11.
abbrev pub index_of : ℕ → DiversifierIndex
index_of v = record { bytes = to_le_bytes 11 v }

abbrev pub number : DiversifierIndex → ℕ
number j = from_le_bytes j.bytes

increment_bytes_lem :
    (n v : ℕ)
    → v < 256 ^ n
    → increment_bytes (to_le_bytes n v) ≡ (to_le_bytes n (v + 1), ltb (v + 1) (256 ^ n))
unfolding increment_bytes to_le_bytes
increment_bytes_lem zero v h = ground arith
increment_bytes_lem (suc n) v h =
    let rest = increment_bytes_lem n (v / 256) (omega (arith, pow-suc 256 n)) in
    elim (Bool-cases ((v % 256 + 1) % 256 == 0)) [
      | inl wraps ↦
          let low : (v + 1) % 256 ≡ (v % 256 + 1) % 256 = omega arith in
          let high : (v + 1) / 256 ≡ v / 256 + 1 = ground arith in
          let fits : ltb (v / 256 + 1) (256 ^ n) ≡ ltb (v + 1) (256 ^ suc n) =
            ground (arith, pow-suc 256 n) in
          rw (rest, wraps, low, high, fits) refl
      | inr stays ↦
          let low : (v + 1) % 256 ≡ (v % 256 + 1) % 256 = omega arith in
          let high : (v + 1) / 256 ≡ v / 256 = ground arith in
          let fits : ltb (v + 1) (256 ^ suc n) ≡ true = ground (arith, pow-suc 256 n) in
          rw (rest, stays, low, high, fits) refl
    ]

-- On the little-endian bytes of a number below 2 ^ 88, increment leaves the bytes of the next
-- number, and fails exactly where that number is 2 ^ 88.
pub increment-index_of :
    (v : ℕ)
    → v < 256 ^ 11
    → increment (index_of v) ≡ (index_of (v + 1), if ltb (v + 1) (256 ^ 11) then ok tt else err tt)
unfolding increment
increment-index_of v h = rw (increment_bytes_lem 11 v h) refl

pub index_of-number :
    (j : DiversifierIndex) → length j.bytes ≡ 11 → All IsByte j.bytes → index_of (number j) ≡ j
index_of-number j l h =
    let same : to_le_bytes 11 (number j) ≡ j.bytes =
      rw (← l) (to_le_bytes-from_le_bytes j.bytes h) in
    λ i. record { bytes = same i }

pub number-lt :
    (j : DiversifierIndex) → length j.bytes ≡ 11 → All IsByte j.bytes → number j < 256 ^ 11
number-lt j l h = subst (λ n. number j < 256 ^ n) l (from_le_bytes-lt j.bytes h)
