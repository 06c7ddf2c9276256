-- ===== src/Convert/Truncated.antt =====
-- The cast of an absolute value to an `u64`.
use masp.Base.Bytes.{Bytes}
use masp.AssetType.Bits.{bytes_ord}
