-- ===== src/Memo/Padding.antt =====
-- Null padding: `as_slice` takes off exactly what `pad` puts on.
use masp.Base.{ℕ, zero, suc, ◌-◌, ◌≡◌, ◌≢◌, ◌⊎◌, inl, inr, refl, sym, ap, arith}
use masp.Base.{[], ◌∷◌, ◌++◌, length, take, replicate, take-append}
use native.Mathlib.Decide.{ℕ_discrete}
use masp.Base.Bytes.{Bytes}
use masp.Memo.{pad, first_null}

-- The text is empty or ends in a byte that is not null.
abbrev pub IsTrimmed : Bytes → Type 0
IsTrimmed [] = Unit
IsTrimmed (b ∷ []) = b ≢ 0
IsTrimmed (b ∷ c ∷ bs) = IsTrimmed (c ∷ bs)

pad-nil : (n : ℕ) → pad n [] ≡ replicate n 0
pad-nil n = let e : n - 0 ≡ n = omega arith in unfold pad in rw e refl

pad-cons : (n b : ℕ) (s : Bytes) → pad (suc n) (b ∷ s) ≡ b ∷ pad n s
pad-cons n b s =
    let e : suc n - suc (length s) ≡ n - length s = omega arith in unfold pad in rw e refl

first_null-zeros : (n : ℕ) → first_null (replicate n 0) ≡ 0
unfolding first_null
first_null-zeros zero = refl
first_null-zeros (suc n) = ground (arith, first_null-zeros n)

first_null-append : (s : Bytes) (n : ℕ) → IsTrimmed s → first_null (s ++ replicate n 0) ≡ length s
unfolding first_null
first_null-append [] n h = first_null-zeros n
first_null-append (b ∷ []) n h = ground (arith, first_null-zeros n, h)
first_null-append (b ∷ c ∷ bs) n h = ground (arith, first_null-append (c ∷ bs) n h)

-- Stripping the padding of a trimmed text gives the text.
pub take-pad : (n : ℕ) (s : Bytes) → IsTrimmed s → take (first_null (pad n s)) (pad n s) ≡ s
unfolding pad
take-pad n s h =
    rw (first_null-append s (n - length s) h)
      (take-append s (replicate (n - length s) 0) (length s) refl)

zeros_of_first_null : (bs : Bytes) → first_null bs ≡ 0 → bs ≡ replicate (length bs) 0
unfolding first_null
zeros_of_first_null [] h = refl
zeros_of_first_null (b ∷ bs) h = ground (arith, zeros_of_first_null bs)

-- What `first_null` is at a byte and the rest.
first_null-cons :
    (b : ℕ) (bs : Bytes)
    → ((first_null bs ≡ 0) × (b ≡ 0) × (first_null (b ∷ bs) ≡ 0))
      ⊎ ((first_null bs ≡ 0) × (b ≢ 0) × (first_null (b ∷ bs) ≡ 1))
      ⊎ ((first_null bs ≢ 0) × (first_null (b ∷ bs) ≡ suc (first_null bs)))
first_null-cons b bs = elim (ℕ_discrete (first_null bs) 0) [
  | yes z ↦ elim (ℕ_discrete b 0) [
    | yes y ↦ inl (z, y, unfold first_null in ground (arith, z, y))
    | no n ↦ inr (inl (z, n, unfold first_null in ground (arith, z, n)))
  ]
  | no m ↦ inr (inr (m, unfold first_null in ground (arith, m)))
]

IsTrimmed-cons : (b : ℕ) (s : Bytes) → s ≢ [] → IsTrimmed s → IsTrimmed (b ∷ s)
IsTrimmed-cons b [] h t = absurd (h refl)
IsTrimmed-cons b (c ∷ s) h t = t

take-ne-nil : (n : ℕ) (bs : Bytes) → n ≢ 0 → bs ≢ [] → take n bs ≢ []
take-ne-nil zero bs h k = absurd (h refl)
take-ne-nil (suc n) [] h k = absurd (k refl)
take-ne-nil (suc n) (b ∷ bs) h k = λ e. cc

first_null-nil : (bs : Bytes) → first_null bs ≢ 0 → bs ≢ []
first_null-nil [] h = absurd (h (unfold first_null in refl))
first_null-nil (b ∷ bs) h = λ e. cc

-- What is left of a text without its padding is trimmed, and padding it again gives the text back.
pub take-IsTrimmed : (bs : Bytes) → IsTrimmed (take (first_null bs) bs)
take-IsTrimmed [] = unfold first_null in tt
take-IsTrimmed (b ∷ bs) = elim (first_null-cons b bs) [
  | inl (z, y, e) ↦ rw e tt
  | inr (inl (z, n, e)) ↦ rw e n
  | inr (inr (m, e)) ↦ rw e (
      IsTrimmed-cons b (take (first_null bs) bs)
        (take-ne-nil (first_null bs) bs m (first_null-nil bs m)) (take-IsTrimmed bs))
]

pub pad-take : (bs : Bytes) → pad (length bs) (take (first_null bs) bs) ≡ bs
pad-take [] = unfold pad first_null in refl
pad-take (b ∷ bs) = elim (first_null-cons b bs) [
  | inl (z, y, e) ↦
      rw (e, pad-nil (suc (length bs)), y) (ap (◌∷◌ 0) (sym (zeros_of_first_null bs z)))
  | inr (inl (z, n, e)) ↦
      rw (e, pad-cons (length bs) b [], pad-nil (length bs))
        (ap (◌∷◌ b) (sym (zeros_of_first_null bs z)))
  | inr (inr (m, e)) ↦
      rw (e, pad-cons (length bs) b (take (first_null bs) bs)) (ap (◌∷◌ b) (pad-take bs))
]
