-- ===== src/Memo/RoundTrip.antt =====
-- Encoding and parsing memos.
use masp.Base.{
  ℕ, zero, suc, ◌-◌, ◌≤◌, ◌<◌, ◌≡◌, ◌≢◌, ◌↔◌, inl, inr, refl, sym, ap, ◌∙◌, true, false, arith,
}
use masp.Base.{
  [], ◌∷◌, ◌++◌, length, length-append, length-replicate, replicate, all, length-take, ◌==◌, ◌&&◌,
  leb, Bool-cases,
}
use masp.Base.Bytes.{Bytes}
use masp.Base.Result.{ok, err}
use masp.Memo.{
  Memo, MemoBytes, empty, text, future, arbitrary, memo_size, pad, empty_bytes, as_slice, parse,
  first_null, too_long, try_from, encode, from_str,
}
use masp.Memo.Utf8.{valid_utf8, valid_utf8_head}
use masp.Memo.Padding.{IsTrimmed, take-pad, take-IsTrimmed, pad-take}

-- The encodings of an unknown format: F5, F7 to FE, or F6 with more behind it.
abbrev pub IsFuture : Bytes → Type 0
IsFuture [] = ⊥
IsFuture (b ∷ rest) = (0xF4 < b) × (b ≢ 0xFF) × ((b == 0xF6 && all (λ x. x == 0) rest) ≡ false)

-- The memos that have an encoding of their own.
abbrev pub IsCanonical : Memo → Type 0
IsCanonical empty = Unit
IsCanonical (text s) = (valid_utf8 s ≡ true) × (length s ≤ memo_size) × IsTrimmed s
IsCanonical (future m) = (length m.bytes ≡ memo_size) × IsFuture m.bytes
IsCanonical (arbitrary arb) = length arb ≡ 511

all-zeros : (n : ℕ) → all (λ x. x == 0) (replicate n 0) ≡ true
all-zeros zero = refl
all-zeros (suc n) = all-zeros n

zeros_of_all : (bs : Bytes) → all (λ x. x == 0) bs ≡ true → bs ≡ replicate (length bs) 0
zeros_of_all [] h = refl
zeros_of_all (b ∷ bs) h = ground (arith, zeros_of_all bs)

length-pad : (n : ℕ) (s : Bytes) → length s ≤ n → length (pad n s) ≡ n
unfolding pad
length-pad n s h =
    omega (
      arith,
      length-append s (replicate (n - length s) 0),
      length-replicate {A = ℕ} (n - length s) 0,
    )

parse-low :
    (m : MemoBytes) (b : ℕ) (rest s : Bytes)
    → b ≤ 0xF4
    → as_slice m ≡ s
    → valid_utf8 s ≡ true
    → parse m (b ∷ rest) ≡ ok (text s)
parse-low m b rest s h e v =
    let v' : valid_utf8 (as_slice m) ≡ true = ap valid_utf8 e ∙ v in
    unfold parse in ground (arith, v', e)

parse-future : (m : MemoBytes) (bs : Bytes) → IsFuture bs → parse m bs ≡ ok (future m)
parse-future m [] h = absurd h
parse-future m (b ∷ rest) h = unfold parse in ground (arith, h)

-- A padded text begins with a byte of the text, or with the padding.
parse-text :
    (s : Bytes)
    → valid_utf8 s ≡ true
    → IsTrimmed s
    → try_from (record { bytes = pad memo_size s }) ≡ ok (text s)
parse-text [] v t =
    let m : MemoBytes = record { bytes = pad memo_size [] } in
    let stripped : as_slice m ≡ [] = unfold as_slice in take-pad memo_size [] t in
    let low = parse-low m 0 (replicate 511 0) [] (omega arith) stripped v in
    unfold try_from pad in low
parse-text (b ∷ s) v t =
    let m : MemoBytes = record { bytes = pad memo_size (b ∷ s) } in
    let stripped : as_slice m ≡ b ∷ s = unfold as_slice in take-pad memo_size (b ∷ s) t in
    let low =
      parse-low m b (s ++ replicate (memo_size - length (b ∷ s)) 0) (b ∷ s) (valid_utf8_head b s v)
        stripped v in
    unfold try_from pad in low

-- Every canonical memo is parsed back from its encoding: the empty memo, valid text of at most 512
-- bytes that does not end in a null character, 511 arbitrary bytes, and 512 bytes of a future
-- format.
pub try_from-encode : (m : Memo) → IsCanonical m → try_from (encode m) ≡ ok m
try_from-encode empty h = unfold try_from encode empty_bytes parse in refl
try_from-encode (text s) (v, l, t) = unfold encode in parse-text s v t
try_from-encode (future m) (l, f) = unfold encode try_from in parse-future m m.bytes f
try_from-encode (arbitrary arb) h = unfold try_from encode parse in refl

of_bytes : (b : MemoBytes) (bs : Bytes) → bs ≡ b.bytes → record { bytes = bs } ≡ b
of_bytes b bs e = λ i. record { bytes = e i }

-- The three kinds of encoding that are rebuilt from a part of the bytes.
restore-empty :
    (b : MemoBytes) (x : ℕ) (rest : Bytes)
    → b.bytes ≡ x ∷ rest
    → length rest ≡ 511
    → (x == 0xF6 && all (λ y. y == 0) rest) ≡ true
    → encode empty ≡ b
restore-empty b x rest e size h =
    let first : x ≡ 0xF6 = ground (arith, h) in
    let zero_all : all (λ y. y == 0) rest ≡ true = ground (arith, h) in
    let zeros : rest ≡ replicate 511 0 =
      zeros_of_all rest zero_all ∙ ap (λ n. replicate n 0) size in
    let whole : 0xF6 ∷ replicate 511 0 ≡ b.bytes = cc (e, first, zeros) in
    unfold encode empty_bytes in of_bytes b _ whole

restore-text :
    (b : MemoBytes)
    → length b.bytes ≡ memo_size
    → valid_utf8 (as_slice b) ≡ true
    → (encode (text (as_slice b)) ≡ b) × IsCanonical (text (as_slice b))
restore-text b size v =
    let padded : pad memo_size (as_slice b) ≡ b.bytes =
      unfold as_slice in rw (← size) (pad-take b.bytes) in
    let short : length (as_slice b) ≤ memo_size =
      unfold as_slice in omega (arith, length-take (first_null b.bytes) b.bytes) in
    (unfold encode in of_bytes b _ padded, (v, short, unfold as_slice in take-IsTrimmed b.bytes))

module _ (b : MemoBytes) (m : Memo) where
  parsed :
      (x : ℕ) (rest : Bytes)
      → length b.bytes ≡ memo_size
      → b.bytes ≡ x ∷ rest
      → parse b (x ∷ rest) ≡ ok m
      → (encode m ≡ b) × IsCanonical m
  parsed x rest size e p =
      let size_rest : length rest ≡ 511 = omega (arith, ap length e) in
      elim (Bool-cases (x == 0xF6 && all (λ y. y == 0) rest)) [
        | inl h ↦
            let made : empty ≡ m = unfold parse in ground (arith, h, p) in
            rw (← made) (restore-empty b x rest e size_rest h, tt)
        | inr n ↦ elim (Bool-cases (x == 0xFF)) [
          | inl h ↦
              let made : arbitrary rest ≡ m = unfold parse in ground (arith, n, h, p) in
              let first : x ≡ 0xFF = ground (arith, h) in
              rw (← made) (unfold encode in of_bytes b _ (cc (e, first)), size_rest)
          | inr n' ↦ elim (Bool-cases (leb x 0xF4)) [
            | inl h ↦ elim (Bool-cases (valid_utf8 (as_slice b))) [
              | inl v ↦
                  let made : text (as_slice b) ≡ m =
                    unfold parse in ground (arith, n, n', h, v, p) in
                  rw (← made) (restore-text b size v)
              | inr bad ↦ absurd (unfold parse in ground (arith, n, n', h, bad, p))
            ]
            | inr high ↦
                let made : future b ≡ m = unfold parse in ground (arith, n, n', high, p) in
                rw (← made) (unfold encode in refl, (size, rw e (ground arith, ground arith, n)))
          ]
        ]
      ]

-- Whatever memo 512 bytes are parsed to encodes to the same bytes, and is canonical; so no two
-- encodings are parsed as one memo.
pub encode-try_from :
    (b : MemoBytes) (m : Memo)
    → length b.bytes ≡ memo_size
    → try_from b ≡ ok m
    → (encode m ≡ b) × IsCanonical m
encode-try_from b m h e = by_bytes b.bytes refl
  where
    by_bytes : (bs : Bytes) → b.bytes ≡ bs → (encode m ≡ b) × IsCanonical m
    by_bytes [] f = absurd (omega (arith, h, ap length f))
    by_bytes (x ∷ rest) f = parsed b m x rest h f (ap (parse b) (sym f) ∙ (unfold try_from in e))

pub from_str-too_long :
    (s : Bytes) → (from_str s ≡ err (too_long (length s))) ↔ (memo_size < length s)
unfolding from_str
from_str-too_long [] = ground arith
from_str-too_long (b ∷ s) = ground arith

-- Valid text of at most 512 bytes that does not end in a null character makes a memo, which is
-- parsed back from its encoding.
pub from_str_back :
    (s : Bytes)
    → length s ≤ memo_size
    → valid_utf8 s ≡ true
    → IsTrimmed s
    → (m : Memo) × (from_str s ≡ ok m) × (try_from (encode m) ≡ ok m)
from_str_back [] l v t = (empty, unfold from_str in refl, try_from-encode empty tt)
from_str_back (b ∷ s) l v t =
    (text (b ∷ s), unfold from_str in ground arith, try_from-encode (text (b ∷ s)) (v, l, t))
