-- ===== src/Lib.antt =====
-- The Multi-Asset Shielded Pool library: amounts of many assets, asset types, note commitment
-- trees, transparent bundles, memos, encrypted notes, key indices and consensus parameters, as the
-- crates masp_primitives and masp_note_encryption implement them.
--
-- The parts and their files. Paths are relative to masp_primitives/src.
--   Base        Names that all modules share: Boolean tests, lists, results and io errors,
--               integers, little-endian bytes, ordered keys, and the encodings of the crate
--               zcash_encoding as a record of functions with the laws that the codecs rely on.
--   BTreeMap    The map of the standard library as a sorted association list, with the laws of
--               lookup, insertion, removal, `retain` and a loop of insertions.
--   Words       The integer types with their checked operations: a value is the integer that it
--               stands for, and `none` is an overflow.
--   Amount      transaction/components/amount.rs. `ValueSum` is the map of an asset to its amount.
--               Arithmetic is `combine` (the two loops of `checked_add` and of `checked_sub`) and
--               `map_components` (the loop of `mul`, `neg` and the conversions). The children hold
--               the invariant (Valid), the loops in general (Combine), addition and subtraction
--               (Add), functions of every amount (Scale), single assets (Single), the partial
--               order (Order) and the encodings (Codec). An asset type is a key by its identifier,
--               as its `Eq` and `Ord` have it.
--   AssetType   asset_type.rs and its constants. BLAKE2s and the Jubjub curve are the record
--               `AssetCrypto`; the only law taken of them is the length of a hash. `new` runs the
--               nonce loop on a fuel of 256, one round for each value of the `u8`.
--   Convert     convert.rs: `AllowedConversion`, a sum with a memorized generator. The Jubjub group is
--               the record `Group`: an abelian group with encodings, and multiples by a number, of
--               which the code takes those by an `u64`. Worth adds points along sums of sums.
--   Transparent transaction/components/transparent.rs and its builder.rs, with the feature
--               `transparent-inputs`: inputs and outputs with their codec, the value balance of a
--               bundle and the builder. Balance measures the sums against totals in ℕ.
--   Merkle      merkle_tree.rs and the nodes of sapling.rs. Hash holds the trait `Hashable`, the
--               nodes with the Pedersen hash as a parameter, and the root of a list of leaves row
--               by row, which is the reference. Tree is `CommitmentTree` with `PathFiller`;
--               Represents says which leaves a tree stands for. Witness is `IncrementalWitness`:
--               Holes are the subtrees that further leaves fill, Rows what a subtree adds to the
--               rows above it, and Tracks the leaves that a witness has taken. Codec is the encoding
--               of both; a witness is read with its next depth for a cursor depth. Path is
--               `MerklePath` and its bytes.
--               Frozen is `FrozenCommitmentTree`: Rows are its vector row by row, Path its paths,
--               and Merge what `merge` does. The loop of `merge` halves a `usize` and has 64 rounds
--               as fuel.
--   Memo        memo.rs: `MemoBytes`, `Memo`, and UTF-8 validity as the language defines it.
--   NoteEncryption
--               masp_note_encryption/src/lib.rs and batch.rs, from the repository's root. The trait
--               `Domain` is a record of types and functions; ChaCha20Poly1305 and ChaCha20 are the
--               record `Cipher`, of which the laws are that a sealed text opens, and that sealing is
--               the key stream of ChaCha20 from block 1 on. Random bytes are arguments.
--   Sapling     sapling.rs, sapling/group_hash.rs and `prf_expand` of keys.rs. The group, the field,
--               BLAKE2b and the Pedersen hash are the record `SaplingCrypto`. Codec has the
--               encodings, and Domain is `SaplingDomain` of sapling/note_encryption.rs.
--   SaplingBuilder
--               masp_primitives/src/transaction/components/sapling/builder.rs: the builder of the
--               shielded part. Cases says what a method did, Invariant is what the methods keep,
--               Consistent the builders that they make, and
--               Accepts which spends it takes. Build is the part of `build` that makes the spends
--               and the conversions: the shuffle, the prover and the keys are parameters. Params has
--               the random parameters that a build takes, and Replay how those are stored.
--   Builder     transaction/builder.rs and fees/fixed.rs: the builder of a transaction up to the
--               consistency check of `build_internal`. Balance says what the check ensures.
--   Zip32       zip32.rs and the diversifier search of zip32/sapling.rs. FF1 and the group hash of
--               a diversifier are parameters. The search runs on a fuel of 2 ^ 88, the number of
--               indices, so it cannot run out before the increment overflows.
--   Consensus   consensus.rs: heights, upgrades, branch identifiers and their height ranges.
--   Examples    Tests at concrete inputs, with a toy hash and a toy group for the parameters.
--
-- How the parts interact: `Amount.Codec` reads asset types by `AssetType.read` and orders sums by
-- the identifiers; the panicking operators of sums are their checked operations, with `none` for
-- the panic, and a bundle sums its coins by them; the builder of a transaction calls those of the
-- two pools and adds their balances; the anchors of the shielded builder are roots of `Merkle.Path`; the nodes of the trees are 32-byte strings that
-- the codec of a path reads back.
--
-- Conventions. `none` stands for `None`, or for a panic where the Rust function returns a plain
-- value; `err` is an `Err`. An overflow of integers is the panic of a build with overflow checks. A `Vec` is a list, an array a list of the length that the lemmas state,
-- a reader a function of the bytes that are left. Where the code mutates, a function returns the
-- new value; no model depends on sharing.
--
-- What is not modelled: the frontiers of merkle_tree.rs, the Pedersen hash, signatures, the batched
-- methods of `SaplingDomain`, the outputs and the signatures of the builders, transactions and
-- their digests, extended keys, circuits, provers and verifiers; schemas for Borsh, output for
-- display and debugging, memory accounting, and test vectors.
pub mod Base
pub mod BTreeMap
pub mod Words
pub mod AssetType
pub mod Amount
pub mod Convert
pub mod Transparent
pub mod Merkle
pub mod Memo
pub mod NoteEncryption
pub mod Sapling
pub mod SaplingBuilder
pub mod Builder
pub mod Zip32
pub mod Consensus
pub mod Examples
