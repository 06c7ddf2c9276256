-- ===== src/Memo.antt =====
-- masp_primitives/src/memo.rs: memos and their 512-byte encoding of ZIP 302.
pub mod Utf8
pub mod Padding
pub mod RoundTrip
use masp.Base.{
  ℕ, zero, suc, ◌-◌, Bool, true, false, not, ◌&&◌, ◌||◌, List, [], ◌∷◌, ◌++◌, Option, none, some,
}
use masp.Base.{if◌then◌else◌, length, take, replicate, all, ltb, leb, ◌==◌}
use masp.Base.Bytes.{Bytes}
use masp.Base.Result.{Result, ok, err}
use Utf8.{valid_utf8}

pub data Error : Type 0 where
  invalid_utf8 : Error
  too_long : ℕ → Error

-- `struct MemoBytes(Box<[u8; 512]>)`: a list of 512 bytes.
pub record MemoBytes : Type 0 where
  pub bytes : Bytes

-- `TextMemo` is a `String`: bytes that are valid UTF-8.
pub data Memo : Type 0 where
  empty : Memo
  text : Bytes → Memo
  future : MemoBytes → Memo
  arbitrary : Bytes → Memo

abbrev pub memo_size : ℕ
memo_size = 512

-- A zeroed array with the given bytes copied to its front.
unfoldable pub pad : ℕ → Bytes → Bytes
pad n bytes = bytes ++ replicate (n - length bytes) 0

unfoldable pub empty_bytes : MemoBytes
empty_bytes = record { bytes = 0xF6 ∷ replicate 511 0 }

-- `MemoBytes::from_bytes`
unfoldable pub from_bytes : Bytes → Result Error MemoBytes
from_bytes bytes =
    if ltb memo_size (length bytes)
    then err (too_long (length bytes))
    else ok (record { bytes = pad memo_size bytes })

-- One more than the index of the last byte that is not null, or 0.
unfoldable pub first_null : Bytes → ℕ
first_null [] = 0
first_null (b ∷ bs) = let n = first_null bs in if n == 0 then (if b == 0 then 0 else 1) else suc n

unfoldable pub as_slice : MemoBytes → Bytes
as_slice m = take (first_null m.bytes) m.bytes

-- The match on the first byte, over the bytes of the memo.
unfoldable pub parse : MemoBytes → Bytes → Result Error Memo
parse m [] = ok (future m)
parse m (b ∷ rest) =
    if b == 0xF6 && all (λ x. x == 0) rest
    then ok empty
    else if b == 0xFF
    then ok (arbitrary rest)
    else if leb b 0xF4
    then (if valid_utf8 (as_slice m) then ok (text (as_slice m)) else err invalid_utf8)
    else ok (future m)

-- `Memo::try_from(MemoBytes)`; the array is never empty.
unfoldable pub try_from : MemoBytes → Result Error Memo
try_from m = parse m m.bytes

-- `MemoBytes::from(Memo)`, and `encode`.
unfoldable pub encode : Memo → MemoBytes
encode empty = empty_bytes
encode (text s) = record { bytes = pad memo_size s }
encode (future memo) = memo
encode (arbitrary arb) = record { bytes = 0xFF ∷ arb }

-- `Memo::from_bytes`
unfoldable pub memo_from_bytes : Bytes → Result Error Memo
memo_from_bytes bytes = elim (from_bytes bytes) [ err e ↦ err e | ok m ↦ try_from m ]

unfoldable pub from_str : Bytes → Result Error Memo
from_str [] = ok empty
from_str (b ∷ memo) =
    if leb (length (b ∷ memo)) memo_size
    then ok (text (b ∷ memo))
    else err (too_long (length (b ∷ memo)))
