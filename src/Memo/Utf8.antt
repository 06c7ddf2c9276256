-- ===== src/Memo/Utf8.antt =====
-- `str::from_utf8` of the standard library, as a test: the well-formed byte sequences of UTF-8.
use masp.Base.{ℕ, ◌≤◌, ◌≡◌, Bool, true, false, ◌&&◌, [], ◌∷◌, if◌then◌else◌, ltb, leb, ◌==◌, arith}
use masp.Base.Bytes.{Bytes}

abbrev between : ℕ → ℕ → ℕ → Bool
between lo hi b = leb lo b && leb b hi

abbrev trail : ℕ → Bool
trail b = between 0x80 0xBF b

-- The second byte of a sequence of three or four is bounded by the first.
unfoldable pub second : ℕ → ℕ → Bool
second b c =
    if b == 0xE0
    then between 0xA0 0xBF c
    else if b == 0xED
    then between 0x80 0x9F c
    else if b == 0xF0
    then between 0x90 0xBF c
    else if b == 0xF4
    then between 0x80 0x8F c
    else trail c

-- Each call gives the bytes that are left behind one sequence, so that one call recurs.
unfoldable pub valid_utf8 : Bytes → Bool
valid_utf8 [] = true
valid_utf8 (b ∷ []) = ltb b 0x80
valid_utf8 (b ∷ c ∷ []) = if ltb b 0x80 then ltb c 0x80 else between 0xC2 0xDF b && trail c
valid_utf8 (b ∷ c ∷ d ∷ []) =
    if ltb b 0x80
    then valid_utf8 (c ∷ d ∷ [])
    else if between 0xC2 0xDF b
    then trail c && ltb d 0x80
    else between 0xE0 0xEF b && second b c && trail d
valid_utf8 (b ∷ c ∷ d ∷ e ∷ rest) =
    let one = valid_utf8 (c ∷ d ∷ e ∷ rest) in
    let two = trail c && valid_utf8 (d ∷ e ∷ rest) in
    let three = second b c && trail d && valid_utf8 (e ∷ rest) in
    let four = second b c && trail d && trail e && valid_utf8 rest in
    if ltb b 0x80
    then one
    else if between 0xC2 0xDF b
    then two
    else if between 0xE0 0xEF b
    then three
    else if between 0xF0 0xF4 b
    then four
    else false

-- No well-formed text begins with a byte above 0xF4.
pub valid_utf8_head : (b : ℕ) (rest : Bytes) → valid_utf8 (b ∷ rest) ≡ true → b ≤ 0xF4
unfolding valid_utf8
valid_utf8_head b [] h = ground arith
valid_utf8_head b (c ∷ []) h = ground arith
valid_utf8_head b (c ∷ d ∷ []) h = ground arith
valid_utf8_head b (c ∷ d ∷ e ∷ rest) h = ground arith
