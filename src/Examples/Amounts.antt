-- ===== src/Examples/Amounts.antt =====
-- Sums over assets that are numbers.
use Prim.Native.Nat.Ordering.{lt}
use masp.Base.{ℕ, ◌≡◌, ◌↔◌, refl, true, none, some, [], ◌∷◌, arith}
use masp.Base.Int.{pos, negsuc, ◌+ℤ◌, ◌≤ℤ◌}
use masp.Base.Ord.{nat_ord}
use masp.BTreeMap
use masp.BTreeMap.{retain}
use masp.Words
use masp.Words.{i64, i128, in_range, min_value, max_value, checked}
use masp.Amount.{ValueSum, get, checked_add, checked_sub, sum, neg, mul, try_from_sum, partial_cmp}
use masp.Amount.Valid.{IsValid}
use masp.Amount.Add.{checked_add_sound, sum_sound, total}
use masp.Amount.Order.{is_le, partial_cmp-le}

abbrev left : ValueSum ℕ
left = (1, pos 5) ∷ (2, negsuc 2) ∷ []

abbrev right : ValueSum ℕ
right = (2, pos 3) ∷ (7, pos 1) ∷ []

abbrev both : ValueSum ℕ
both = (1, pos 5) ∷ (7, pos 1) ∷ []

abbrev difference : ValueSum ℕ
difference = (1, pos 5) ∷ (2, negsuc 5) ∷ (7, negsuc 0) ∷ []

abbrev negated : ValueSum ℕ
negated = (1, negsuc 4) ∷ (2, pos 3) ∷ []

abbrev largest : ValueSum ℕ
largest = (2, pos 9223372036854775807) ∷ []

abbrev twice : ValueSum ℕ
twice = (2, pos 6) ∷ (7, pos 2) ∷ []

left-IsValid : IsValid i64 left
left-IsValid = record {
  sorted = unfold nat_ord in ground arith;
  nonzero = λ k. unfold BTreeMap.get nat_ord in ground arith;
  ranged = λ k v e. unfold BTreeMap.get nat_ord in_range in ground arith;
}

right-IsValid : IsValid i64 right
right-IsValid = record {
  sorted = unfold nat_ord in ground arith;
  nonzero = λ k. unfold BTreeMap.get nat_ord in ground arith;
  ranged = λ k v e. unfold BTreeMap.get nat_ord in_range in ground arith;
}

difference-IsValid : IsValid i64 difference
difference-IsValid = record {
  sorted = unfold nat_ord in ground arith;
  nonzero = λ k. unfold BTreeMap.get nat_ord in ground arith;
  ranged = λ k v e. unfold BTreeMap.get nat_ord in_range in ground arith;
}

add_runs : checked_add i64 left right ≡ some both
unfolding checked_add Words.checked_add nat_ord BTreeMap.insert
add_runs = refl

sub_runs : checked_sub i64 left right ≡ some difference
unfolding checked_sub Words.checked_sub nat_ord BTreeMap.insert
sub_runs = refl

back_runs : checked_add i64 difference right ≡ some left
unfolding checked_add Words.checked_add nat_ord BTreeMap.insert
back_runs = refl

twice_runs : checked_add i64 right right ≡ some twice
unfolding checked_add Words.checked_add nat_ord BTreeMap.insert
twice_runs = refl

neg_runs : neg i64 left ≡ some negated
unfolding neg Words.checked_neg nat_ord BTreeMap.insert
neg_runs = refl

mul_runs : mul i64 left (negsuc 0) ≡ some negated
unfolding mul Words.checked_mul nat_ord BTreeMap.insert
mul_runs = refl

sum_runs : sum i64 (left ∷ right ∷ []) ≡ some both
unfolding sum nat_ord BTreeMap.insert
sum_runs = refl

widen_runs : try_from_sum i128 left ≡ some left
unfolding try_from_sum Words.try_into nat_ord BTreeMap.insert
widen_runs = refl

-- One more than the largest amount overflows, and -2 is not an amount of an unsigned sum.
overflows : (checked_add i64 largest right ≡ none) × (try_from_sum Words.u64 left ≡ none)
unfolding checked_add try_from_sum Words.checked_add Words.try_into nat_ord BTreeMap.insert
overflows = (refl, refl)

-- The two sums hold more of one asset each.
incomparable : (partial_cmp left right ≡ none) × (partial_cmp left both ≡ some lt)
unfolding partial_cmp nat_ord BTreeMap.insert
incomparable = (refl, refl)

checked_add_sound_example : IsValid i64 both × ((k : ℕ) → get both k ≡ get left k +ℤ get right k)
checked_add_sound_example =
    checked_add_sound i64 left right left-IsValid right-IsValid {s = both} add_runs

sum_sound_example : IsValid i64 both × ((k : ℕ) → get both k ≡ total i64 (left ∷ right ∷ []) k)
sum_sound_example =
    sum_sound i64 (left ∷ right ∷ []) {s = both} (left-IsValid, (right-IsValid, tt)) sum_runs

partial_cmp-le_example :
    (is_le (partial_cmp left right) ≡ true) ↔ ((k : ℕ) → get left k ≤ℤ get right k)
partial_cmp-le_example = partial_cmp-le left right
