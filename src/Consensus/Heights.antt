-- ===== src/Consensus/Heights.antt =====
-- Arithmetic and conversions of block heights.
use masp.Base.{ℕ, ◌^◌, ◌<◌, ◌≡◌, ◌↔◌, some, arith}
use masp.Base.Int.{ℤ, pos, negsuc}
use masp.Consensus.{BlockHeight, add, sub, try_from_int, to_int}

-- For block heights of 32 bits, adding a number to one gives another exactly where subtracting the
-- number from the other gives the one.
pub sub-add :
    (h h' : BlockHeight) (n : ℕ)
    → h.height < 2 ^ 32
    → h'.height < 2 ^ 32
    → (add h n ≡ some h') ↔ (sub h' n ≡ some h)
unfolding add sub
sub-add h h' n small small' = ground arith

-- A signed integer converts to a block height exactly where it is that height as an integer and
-- the height has 32 bits.
pub try_from-to_int :
    (v : ℤ) (h : BlockHeight) → (try_from_int v ≡ some h) ↔ ((to_int h ≡ v) × (h.height < 2 ^ 32))
unfolding try_from_int to_int
try_from-to_int (pos n) h = ground arith
try_from-to_int (negsuc n) h = ground arith
