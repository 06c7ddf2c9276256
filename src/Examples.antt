-- ===== src/Examples.antt =====
-- Tests of the definitions, and the theorems at concrete inputs.
pub mod Amounts
pub mod Assets
pub mod Conversions
pub mod Coins
pub mod Trees
pub mod Forests
pub mod Witnesses
pub mod Codecs
pub mod Paths
pub mod Memos
pub mod Payments
pub mod Builders
pub mod Keys
pub mod Heights
