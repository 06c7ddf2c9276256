-- ===== src/Base/Bytes.antt =====
-- Little-endian bytes of unsigned numbers: `to_le_bytes`, `from_le_bytes` and `read_exact`.
use masp.Base.Result.{Io, ok, err, unexpected_eof, invalid_data}
use masp.Base.Tests.{leb, if◌then◌else◌}
use masp.Base.Lists.{length, take, drop, take-append, drop-append, length-append, All}
use Prim.Native.Nat.{ℕ, zero, suc, ◌+◌, ◌*◌, ◌/◌, ◌%◌, ◌^◌, ◌<◌}
use mathlib.Core.Path.{◌≡◌, refl, ap}
use mathlib.Core.List.{List, [], ◌∷◌, ◌++◌}
use native.Mathlib.Nat.{pow-suc}
use native.Mathlib.Omega.{arith}

abbrev pub Bytes : Type 0
Bytes = List ℕ

abbrev pub IsByte : ℕ → Type 0
IsByte b = b < 256

-- `n` bytes of `v`, the lowest first.
unfoldable pub to_le_bytes : ℕ → ℕ → Bytes
to_le_bytes zero v = []
to_le_bytes (suc n) v = v % 256 ∷ to_le_bytes n (v / 256)

unfoldable pub from_le_bytes : Bytes → ℕ
from_le_bytes [] = 0
from_le_bytes (b ∷ bs) = b + 256 * from_le_bytes bs

-- `reader.read_exact` into a buffer of `n` bytes: the bytes, and what is left.
unfoldable pub read_exact : ℕ → Bytes → Io (Bytes × Bytes)
read_exact n src = if leb n (length src) then ok (take n src, drop n src) else err unexpected_eof

-- The same in the crate borsh, which reports a short input as invalid data.
unfoldable pub read_array : ℕ → Bytes → Io (Bytes × Bytes)
read_array n src = if leb n (length src) then ok (take n src, drop n src) else err invalid_data

pub length-to_le_bytes : (n v : ℕ) → length (to_le_bytes n v) ≡ n
unfolding to_le_bytes
length-to_le_bytes zero v = refl
length-to_le_bytes (suc n) v = ap suc (length-to_le_bytes n (v / 256))

pub to_le_bytes-IsByte : (n v : ℕ) → All IsByte (to_le_bytes n v)
unfolding to_le_bytes
to_le_bytes-IsByte zero v = tt
to_le_bytes-IsByte (suc n) v = (omega arith, to_le_bytes-IsByte n (v / 256))

pub from_le_bytes-to_le_bytes : (n v : ℕ) → v < 256 ^ n → from_le_bytes (to_le_bytes n v) ≡ v
unfolding to_le_bytes from_le_bytes
from_le_bytes-to_le_bytes zero v h = omega arith
from_le_bytes-to_le_bytes (suc n) v h =
    omega
      (arith, pow-suc 256 n, from_le_bytes-to_le_bytes n (v / 256) (omega (arith, pow-suc 256 n)))

pub to_le_bytes-from_le_bytes :
    (bs : Bytes) → All IsByte bs → to_le_bytes (length bs) (from_le_bytes bs) ≡ bs
unfolding to_le_bytes from_le_bytes
to_le_bytes-from_le_bytes [] h = refl
to_le_bytes-from_le_bytes (b ∷ bs) (hb, hbs) = ground (arith, to_le_bytes-from_le_bytes bs hbs)

pub from_le_bytes-lt : (bs : Bytes) → All IsByte bs → from_le_bytes bs < 256 ^ length bs
unfolding from_le_bytes
from_le_bytes-lt [] h = omega arith
from_le_bytes-lt (b ∷ bs) (hb, hbs) =
    omega (arith, pow-suc 256 (length bs), from_le_bytes-lt bs hbs)

pub read_exact-append :
    (bs rest : Bytes) (n : ℕ) → length bs ≡ n → read_exact n (bs ++ rest) ≡ ok (bs, rest)
unfolding read_exact
read_exact-append bs rest n h =
    ground (arith, take-append bs rest n h, drop-append bs rest n h, length-append bs rest)

pub read_array-append :
    (bs rest : Bytes) (n : ℕ) → length bs ≡ n → read_array n (bs ++ rest) ≡ ok (bs, rest)
unfolding read_array
read_array-append bs rest n h =
    ground (arith, take-append bs rest n h, drop-append bs rest n h, length-append bs rest)
