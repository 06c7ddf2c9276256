-- ===== src/Merkle.antt =====
-- masp_primitives/src/merkle_tree.rs, and the tree nodes of masp_primitives/src/sapling.rs.
pub mod Hash
pub mod Tree
pub mod Path
pub mod Witness
pub mod Frozen
pub mod Codec
