-- ===== src/Transparent/Balance.antt =====
-- The value balance of a bundle never overflows, and is inputs less outputs, asset by asset.
use Prim.Native.Nat.Ordering.{eq}
use masp.Base.{
  ℕ, ◌+◌, ◌*◌, ◌^◌, ◌<◌, ◌≤◌, ◌≡◌, refl, ap, ap₂, sym, ◌∙◌, subst, true, arith, some, List, [], ◌∷◌,
  map, All,
}
use masp.Base.{length, length-map}
use masp.Base.Int.{pos, ◌+ℤ◌, ◌-ℤ◌}
use masp.Base.Bytes.{Bytes}
use masp.Words.{i128, in_range}
use masp.AssetType.Bits.{bytes_ord}
use masp.Amount
use masp.Amount.{ValueSum, get, from_pair, zero_sum}
use masp.Amount.Valid.{IsValid, zero-IsValid, get-zero}
use masp.Amount.Add.{checked_add_sound, checked_add_total, checked_sub_sound, checked_sub_total}
use masp.Amount.Single.{from_pair-IsValid, get-from_pair}
use masp.Transparent.{
  TxIn, TxOut, Bundle, TransparentBuilder, balance, value_balance, builder_balance, to_input, build,
}

-- An amount of an asset.
abbrev pub Coin : Type 0
Coin = Bytes × ℕ

abbrev pub one : Coin → Bytes → ℕ
one (asset, value) k = elim (bytes_ord.cmp k asset) [ eq ↦ value | _ ↦ 0 ]

-- The mathematical total of an asset.
abbrev pub held : List Coin → Bytes → ℕ
held [] k = 0
held (c ∷ cs) k = one c k + held cs k

abbrev single : Coin → ValueSum Bytes
single (asset, value) = from_pair asset (pos value)

pos-+ℤ : (a b : ℕ) → pos a +ℤ pos b ≡ pos (a + b)
unfolding ◌+ℤ◌
pos-+ℤ a b = ground arith

fits_i128 : (a : ℕ) → a < 2 ^ 127 → in_range i128 (pos a) ≡ true
unfolding in_range
fits_i128 a h = ground arith

difference_fits : (a b : ℕ) → a < 2 ^ 127 → b < 2 ^ 127 → in_range i128 (pos a -ℤ pos b) ≡ true
unfolding in_range ◌-ℤ◌
difference_fits a b h h' = ground arith

get-single : (c : Coin) (k : Bytes) → get (single c) k ≡ pos (one c k)
get-single (asset, value) k = ground (arith, get-from_pair asset (pos value) k)

one_le : (c : Coin) (k : Bytes) → one c k ≤ c.1
one_le (asset, value) k = ground arith

sum_step :
    (acc acc' m : ValueSum Bytes) (ms : List (ValueSum Bytes))
    → Amount.add i128 acc m ≡ some acc'
    → Amount.sum_from i128 acc (m ∷ ms) ≡ Amount.sum_from i128 acc' ms
sum_step acc acc' m ms e = unfold Amount.sum_from in ground (arith, e)

sum_coins :
    (cs : List Coin) (acc : ValueSum Bytes) (f : Bytes → ℕ) (bound : ℕ)
    → IsValid i128 acc
    → ((k : Bytes) → get acc k ≡ pos (f k))
    → ((k : Bytes) → f k ≤ bound)
    → All (λ c. c.1 < 2 ^ 64) cs
    → bound + 2 ^ 64 * length cs < 2 ^ 127
    → (s : ValueSum Bytes) × (Amount.sum_from i128 acc (map single cs) ≡ some s)
      × IsValid i128 s
      × ((k : Bytes) → (get s k ≡ pos (f k + held cs k)) × (f k + held cs k < 2 ^ 127))
sum_coins [] acc f bound v h low small fits = (
  acc,
  unfold Amount.sum_from in refl,
  v,
  λ k. let e : f k + 0 ≡ f k = omega arith in (h k ∙ ap pos (sym e), omega (arith, low k)),
)
sum_coins (c ∷ cs) acc f bound v h low (here, small) fits =
    let vc = from_pair-IsValid i128 c.0 (pos c.1) (fits_i128 c.1 (omega arith)) in
    let added : (k : Bytes) → get acc k +ℤ get (single c) k ≡ pos (f k + one c k) = λ k.
      ap (λ x. x +ℤ get (single c) k) (h k)
      ∙ ap (λ x. pos (f k) +ℤ x) (get-single c k)
      ∙ pos-+ℤ (f k) (one c k) in
    let in_bounds : (k : Bytes) → in_range i128 (get acc k +ℤ get (single c) k) ≡ true = λ k.
      subst (λ x. in_range i128 x ≡ true) (sym (added k))
        (fits_i128 (f k + one c k) (omega (arith, low k, one_le c k))) in
    let (acc', e) = checked_add_total i128 acc (single c) v vc in_bounds in
    let (v', h') = checked_add_sound i128 acc (single c) v vc e in
    let (s, es, vs, hs) =
      sum_coins cs acc' (λ k. f k + one c k) (bound + 2 ^ 64) v' (λ k. h' k ∙ added k)
        (λ k. omega (arith, low k, one_le c k)) small (omega arith) in
    let same : (k : Bytes) → f k + one c k + held cs k ≡ f k + held (c ∷ cs) k = λ k. omega arith in
    (
      s,
      sum_step acc acc' (single c) (map single cs) (unfold Amount.add in e) ∙ es,
      vs,
      λ k. ((hs k).0 ∙ ap pos (same k), omega (arith, (hs k).1)),
    )

sum_of_coins :
    (cs : List Coin)
    → All (λ c. c.1 < 2 ^ 64) cs
    → length cs < 2 ^ 63
    → (s : ValueSum Bytes) × (Amount.sum i128 (map single cs) ≡ some s)
      × IsValid i128 s
      × ((k : Bytes) → (get s k ≡ pos (held cs k)) × (held cs k < 2 ^ 127))
sum_of_coins cs small fits =
    let (s, e, v, h) =
      sum_coins cs zero_sum (λ k. 0) 0 (zero-IsValid i128) get-zero (λ k. omega arith) small
        (omega arith) in
    let same : (k : Bytes) → 0 + held cs k ≡ held cs k = λ k. omega arith in
    (s, unfold Amount.sum in e, v, λ k. ((h k).0 ∙ ap pos (same k), omega (arith, (h k).1)))

balance_lem :
    (ins outs : List Coin)
    → All (λ c. c.1 < 2 ^ 64) ins
    → All (λ c. c.1 < 2 ^ 64) outs
    → length ins < 2 ^ 63
    → length outs < 2 ^ 63
    → (s : ValueSum Bytes) × (balance (map single ins) (map single outs) ≡ some s)
      × IsValid i128 s
      × ((k : Bytes) → get s k ≡ pos (held ins k) -ℤ pos (held outs k))
balance_lem ins outs si so li lo =
    let (a, ea, va, ha) = sum_of_coins ins si li in
    let (b, eb, vb, hb) = sum_of_coins outs so lo in
    let values : (k : Bytes) → get a k -ℤ get b k ≡ pos (held ins k) -ℤ pos (held outs k) =
      λ k. ap (λ x. x -ℤ get b k) (ha k).0 ∙ ap (λ x. pos (held ins k) -ℤ x) (hb k).0 in
    let in_bounds : (k : Bytes) → in_range i128 (get a k -ℤ get b k) ≡ true = λ k.
      subst (λ x. in_range i128 x ≡ true) (sym (values k))
        (difference_fits (held ins k) (held outs k) (ha k).1 (hb k).1) in
    let (s, e) = checked_sub_total i128 a b va vb in_bounds in
    let (v, h) = checked_sub_sound i128 a b va vb e in
    let closed : Amount.sub i128 a b ≡ some s = unfold Amount.sub in e in
    (s, unfold balance in ground (arith, ea, eb, closed), v, λ k. h k ∙ values k)

abbrev pub coin_of_in : TxIn → Coin
coin_of_in p = (p.asset_type, p.value)

abbrev pub coin_of_out : TxOut → Coin
coin_of_out p = (p.asset_type, p.value)

map-single :
    {A : Type 0} (coin : A → Coin) (xs : List A)
    → map (λ p. from_pair (coin p).0 (pos (coin p).1)) xs ≡ map single (map coin xs)
map-single coin [] = refl
map-single coin (x ∷ xs) = ap (◌∷◌ (single (coin x))) (map-single coin xs)

-- For a bundle with fewer than 2 ^ 63 inputs and as many outputs, each of a value below 2 ^ 64,
-- value_balance does not panic, and its result is valid and holds, of every asset, the total of
-- the inputs less the total of the outputs.
pub value_balance_lem :
    (b : Bundle)
    → All (λ c. c.1 < 2 ^ 64) (map coin_of_in b.vin)
    → All (λ c. c.1 < 2 ^ 64) (map coin_of_out b.vout)
    → length b.vin < 2 ^ 63
    → length b.vout < 2 ^ 63
    → (s : ValueSum Bytes) × (value_balance b ≡ some s)
      × IsValid i128 s
      × ((k : Bytes)
          → get s k ≡ pos (held (map coin_of_in b.vin) k) -ℤ pos (held (map coin_of_out b.vout) k))
value_balance_lem b si so li lo =
    let ins = map coin_of_in b.vin in
    let outs = map coin_of_out b.vout in
    let (s, e, v, h) =
      balance_lem ins outs si so (omega (arith, length-map b.vin coin_of_in))
        (omega (arith, length-map b.vout coin_of_out)) in
    let opened : value_balance b ≡ balance (map single ins) (map single outs) =
      unfold value_balance in
      ap₂ balance (map-single coin_of_in b.vin) (map-single coin_of_out b.vout) in
    (s, opened ∙ e, v, h)

same_inputs :
    (cs : List TxOut)
    → map (λ p. from_pair p.asset_type (pos p.value)) (map to_input cs)
      ≡ map (λ c. from_pair c.asset_type (pos c.value)) cs
same_inputs [] = refl
same_inputs (c ∷ cs) =
    let here : from_pair (to_input c).asset_type (pos (to_input c).value)
        ≡ from_pair c.asset_type (pos c.value) =
      unfold to_input in refl in
    ap₂ (λ x xs. x ∷ xs) here (same_inputs cs)

-- Where build returns a bundle, the value balance of the bundle is the value balance of the
-- builder.
pub build-builder_balance :
    (b : TransparentBuilder) (bundle : Bundle)
    → build b ≡ some bundle
    → value_balance bundle ≡ builder_balance b
build-builder_balance b bundle e =
    let made : record { vin = map to_input b.inputs; vout = b.vout } ≡ bundle =
      unfold build in ground (arith, e) in
    ap value_balance (sym made)
    ∙ (unfold value_balance builder_balance in
        ap (λ l. balance l (map (λ c. from_pair c.asset_type (pos c.value)) b.vout))
          (same_inputs b.inputs))
