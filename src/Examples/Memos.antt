-- ===== src/Examples/Memos.antt =====
-- Memos.
use masp.Base.{◌≡◌, refl, [], ◌∷◌, ◌++◌, arith, replicate}
use masp.Base.Bytes.{Bytes}
use masp.Base.Result.{ok}
use masp.Memo.{MemoBytes, text, first_null, as_slice, try_from, encode, parse}
use masp.Memo.Utf8.{valid_utf8}
use masp.Memo.RoundTrip.{IsCanonical, try_from-encode, encode-try_from}

-- "hé", with a two-byte character.
abbrev greeting : Bytes
greeting = b'h' ∷ 0xC3 ∷ 0xA9 ∷ []

abbrev padded : MemoBytes
padded = record { bytes = greeting ++ replicate 509 0 }

parse_runs : try_from padded ≡ ok (text greeting)
unfolding try_from valid_utf8 parse as_slice first_null
parse_runs = refl

try_from-encode_example : try_from (encode (text greeting)) ≡ ok (text greeting)
try_from-encode_example =
    try_from-encode (text greeting) (unfold valid_utf8 in refl, omega arith, λ e. ground arith)

encode-try_from_example : (encode (text greeting) ≡ padded) × IsCanonical (text greeting)
encode-try_from_example = encode-try_from padded (text greeting) refl parse_runs
