-- ===== src/Examples/Conversions.antt =====
-- Conversions over the group with two elements.
use masp.Base.{
  ℕ, zero, suc, ◌≤◌, ◌≡◌, ◌≢◌, refl, Bool, true, false, Option, none, some, [], ◌∷◌, ◌++◌, All,
  arith,
}
use masp.Base.{length, if◌then◌else◌, ◌==◌, replicate}
use masp.Base.Int.{pos, negsuc}
use masp.Base.Bytes.{Bytes}
use masp.Base.Encoding.{small}
use masp.Base.Result.{ok}
use masp.BTreeMap
use masp.Words.{i128, in_range}
use masp.AssetType.{AssetCrypto, hash_to_point, cmp_bytes}
use masp.AssetType.Bits.{bytes_ord}
use masp.Amount
use masp.Amount.Valid.{IsValid}
use masp.Amount.Codec.RoundTrip.{IsAsset}
use masp.Convert.{
  Group, AllowedConversion, from, generator_loop, value_balance, add, sub, serialize, deserialize,
}
use masp.Convert.Codec.{IsFaithful, deserialize-serialize_conversion, deserialize-IsFaithful}
use masp.Convert.Additive.{add-IsFaithful}

abbrev pub point_of : Bytes → Option Bool
point_of [] = none
point_of (b ∷ bs) = if b == 0 then some false else (if b == 1 then some true else none)

abbrev pub xor : Bool → Bool → Bool
xor false q = q
xor true false = true
xor true true = false

abbrev pub invert : Bool → Bool
invert true = false
invert false = true

abbrev toggle : ℕ → Bool → Bool
toggle zero p = false
toggle (suc n) p = xor p (toggle n p)

abbrev pub two_bytes : Bool → Bytes
two_bytes b = (if b then 1 else 0) ∷ replicate 31 0

-- The hash is the first byte of the message.
abbrev pub two : AssetCrypto
two = record {
  Point = Bool;
  blake2s = λ p m. two_bytes true;
  from_bytes = point_of;
  clear_cofactor = λ p. p;
  is_identity = invert;
  length-blake2s = λ p m. refl;
}

abbrev group : Group two
group = record {
  identity = false;
  plus = xor;
  negate = λ p. p;
  scale = toggle;
  is_same = λ p q. invert (xor p q);
  to_bytes = two_bytes;
  plus_comm = λ p q. ground arith;
  plus_assoc = λ p q r. ground arith;
  plus_identity = λ p. ground arith;
  plus_negate = λ p. ground arith;
  scale_zero = λ p. refl;
  scale_suc = λ n p. refl;
  same_refl = λ p. ground arith;
  eq_of_same = λ p q. ground arith;
  length-to_bytes = λ p. refl;
  from_bytes-to_bytes = λ p. ground arith;
}

abbrev pub gold : Bytes
gold = replicate 32 1

abbrev pub wood : Bytes
wood = replicate 32 2

-- Three gold for one wood, and three gold more.
abbrev trade : AllowedConversion two
trade = record { assets = (gold, pos 3) ∷ (wood, negsuc 0) ∷ []; generator = false }

abbrev gift : AllowedConversion two
gift = record { assets = (gold, pos 3) ∷ []; generator = true }

abbrev both : AllowedConversion two
both = record { assets = (gold, pos 6) ∷ (wood, negsuc 0) ∷ []; generator = true }

gift-IsFaithful : IsFaithful two group gift
unfolding from generator_loop value_balance
gift-IsFaithful = refl

trade-IsFaithful : IsFaithful two group trade
unfolding from generator_loop value_balance
trade-IsFaithful = refl

both_runs : add two group trade gift ≡ some both
unfolding add Amount.add bytes_ord cmp_bytes BTreeMap.insert
both_runs = refl

back_runs : sub two group both gift ≡ some trade
unfolding sub Amount.sub bytes_ord cmp_bytes BTreeMap.insert
back_runs = refl

gift-IsValid : IsValid i128 gift.assets
gift-IsValid = record {
  sorted = ground arith;
  nonzero = λ k. unfold BTreeMap.get in ground arith;
  ranged = λ k v e. unfold BTreeMap.get in_range in ground arith;
}

trade-IsValid : IsValid i128 trade.assets
trade-IsValid = record {
  sorted = ((unfold bytes_ord cmp_bytes in refl, tt), (tt, tt));
  nonzero = λ k. unfold BTreeMap.get in ground arith;
  ranged = λ k v e. unfold BTreeMap.get in_range in ground arith;
}

both-IsValid : IsValid i128 both.assets
both-IsValid = record {
  sorted = ((unfold bytes_ord cmp_bytes in refl, tt), (tt, tt));
  nonzero = λ k. unfold BTreeMap.get in ground arith;
  ranged = λ k v e. unfold BTreeMap.get in_range in ground arith;
}

both_runs_through : from two group both.assets ≢ none
unfolding from generator_loop value_balance
both_runs_through = λ n. cc n

trade_runs_through : from two group trade.assets ≢ none
unfolding from generator_loop value_balance
trade_runs_through = λ n. cc n

both-IsFaithful : IsFaithful two group both
unfolding from generator_loop value_balance
both-IsFaithful = refl

add-IsFaithful_example : IsFaithful two group both
add-IsFaithful_example =
    add-IsFaithful two group trade gift both trade-IsValid gift-IsValid (ground arith)
      (ground arith) (ground arith) trade-IsFaithful gift-IsFaithful both_runs_through both_runs

pub gold_point : hash_to_point two gold ≡ some true
unfolding hash_to_point
gold_point = refl

gift_assets : All (λ p. IsAsset two p.0) gift.assets
gift_assets = ((refl, λ n. cc (n, gold_point)), tt)

short : length gift.assets ≤ small.max_size
unfolding small
short = ground arith

deserialize-serialize_conversion_example :
    deserialize two group small (serialize two group small gift ++ 9 ∷ [])
    ≡ some (ok (gift, 9 ∷ []))
deserialize-serialize_conversion_example =
    deserialize-serialize_conversion two group small gift (9 ∷ []) gift-IsValid gift_assets short
      gift-IsFaithful

gift_back :
    deserialize two group small (serialize two group small gift ++ 9 ∷ [])
    ≡ some (ok (gift, 9 ∷ []))
gift_back =
    deserialize-serialize_conversion two group small gift (9 ∷ []) gift-IsValid gift_assets short
      gift-IsFaithful

deserialize-IsFaithful_example : IsFaithful two group gift
deserialize-IsFaithful_example =
    deserialize-IsFaithful two group small (serialize two group small gift ++ 9 ∷ []) (9 ∷ []) gift
      gift_back
