-- ===== src/Merkle/Path/RoundTrip.antt =====
-- Reading back a serialized path.
use masp.Base.{
  ℕ, suc, ◌+◌, ◌*◌, ◌/◌, ◌%◌, ◌^◌, ◌≤◌, ◌<◌, ◌≡◌, ◌↔◌, refl, sym, ap, ◌∙◌, Bool, true, false, arith,
}
use masp.Base.{List, [], ◌∷◌, ◌++◌, map, reverse, append-nil, All}
use masp.Base.{if◌then◌else◌, length, length-append, take-append, drop-append, ◌==◌}
use masp.Base.Bytes.{
  Bytes, to_le_bytes, read_exact, read_exact-append, length-to_le_bytes, from_le_bytes-to_le_bytes,
}
use masp.Base.Result.{ok}
use native.Mathlib.Nat.{pow-suc}
use mathlib.Core.List.{reverse-append}
use masp.Base.Powers.{two_pow_mono, two_pow_lt}
use masp.Merkle.Path.Chunks.{concat, concat-append, chunks-concat, All-append}
use masp.Merkle.Hash.{Hashable}
use masp.Merkle.Path.{
  MerklePath, position_bits, set_bits, chunks, read_u64, collect, write_node, write_entries,
  serialize, read_entry, read_body, deserialize, from_slice_with_depth,
}

module _ {Node : Type 0} (H : Hashable Node) where
  -- A node that is written in 32 bytes and read back from them.
  abbrev pub IsStored : Node → Type 0
  IsStored node = (length (H.write node) ≡ 32) × (H.read (H.write node) ≡ ok (node, []))

  abbrev pub AllStored : List (Node × Bool) → Type 0
  AllStored path = All (λ e. IsStored e.0) path

  length-write_node : (node : Node) → IsStored node → length (write_node H node) ≡ 33
  unfolding write_node
  length-write_node node h = omega (arith, h.0)

  length-write_entries :
      (path : List (Node × Bool))
      → AllStored path
      → length (write_entries H path) ≡ 33 * length path
  unfolding write_entries
  length-write_entries [] h = refl
  length-write_entries ((node, b) ∷ path) (h, hs) = omega (
    arith,
    length-append (write_entries H path) (write_node H node),
    length-write_entries path hs,
    length-write_node node h,
  )

  -- The nodes with the bit not yet set.
  abbrev unset : List (Node × Bool) → List (Node × Bool)
  unset [] = []
  unset ((node, b) ∷ path) = (node, false) ∷ unset path

  read_entry-write_node :
      (node : Node) → IsStored node → read_entry H (write_node H node) ≡ ok (node, false)
  unfolding read_entry write_node
  read_entry-write_node node (len, back) = rw (len, back) refl

module _ {Node : Type 0} (H : Hashable Node) where
  -- The chunks that a path is written in.
  abbrev blocks : List (Node × Bool) → List Bytes
  blocks [] = []
  blocks ((node, b) ∷ path) = blocks path ++ write_node H node ∷ []

  write_entries-blocks : (path : List (Node × Bool)) → write_entries H path ≡ concat (blocks path)
  unfolding write_entries
  write_entries-blocks [] = refl
  write_entries-blocks ((node, b) ∷ path) =
      rw (concat-append (blocks path) (write_node H node), write_entries-blocks path) refl

  blocks_sized :
      (path : List (Node × Bool)) → AllStored H path → All (λ b. length b ≡ 33) (blocks path)
  blocks_sized [] h = tt
  blocks_sized ((node, b) ∷ path) (h, hs) =
      All-append (λ b. length b ≡ 33) (blocks path) (write_node H node) (blocks_sized path hs)
        (length-write_node H node h)

  length-blocks : (path : List (Node × Bool)) → length (blocks path) ≡ length path
  length-blocks [] = refl
  length-blocks ((node, b) ∷ path) =
      omega (arith, length-append (blocks path) (write_node H node ∷ []), length-blocks path)

  collect-blocks :
      (path : List (Node × Bool))
      → AllStored H path
      → collect (map (read_entry H) (reverse (blocks path))) ≡ ok (unset H path)
  unfolding collect
  collect-blocks [] h = refl
  collect-blocks ((node, b) ∷ path) (h, hs) =
      rw
        (
          reverse-append (blocks path) (write_node H node ∷ []),
          read_entry-write_node H node h,
          collect-blocks path hs,
        )
        refl

  -- The number whose bits, from the lowest on, are the sides of the entries.
  abbrev pub sides : List (Node × Bool) → ℕ
  sides [] = 0
  sides ((node, b) ∷ path) = (if b then 1 else 0) + 2 * sides path

  sides-lt : (path : List (Node × Bool)) → sides path < 2 ^ length path
  sides-lt [] = omega arith
  sides-lt ((node, true) ∷ path) = omega (arith, sides-lt path, pow-suc 2 (length path))
  sides-lt ((node, false) ∷ path) = omega (arith, sides-lt path, pow-suc 2 (length path))

  position_bits-sides :
      (i : ℕ) (path : List (Node × Bool))
      → i + length path ≤ 64
      → position_bits i path ≡ 2 ^ i * sides path
  unfolding position_bits
  position_bits-sides i [] l = omega arith
  position_bits-sides i ((node, b) ∷ path) l = ground (
    arith,
    two_pow_lt 64 i (omega arith),
    position_bits-sides (suc i) path (omega arith),
    ap (λ (n : ℕ). n * sides path) (pow-suc 2 i),
  )

  set_bits-sides : (path : List (Node × Bool)) → set_bits (sides path) (unset H path) ≡ path
  unfolding set_bits
  set_bits-sides [] = refl
  set_bits-sides ((node, true) ∷ path) =
      let half : (1 + 2 * sides path) / 2 ≡ sides path = omega arith in
      let bit : ((1 + 2 * sides path) % 2 == 1) ≡ true = ground arith in
      rw (half, bit, set_bits-sides path) refl
  set_bits-sides ((node, false) ∷ path) =
      let half : (0 + 2 * sides path) / 2 ≡ sides path = omega arith in
      let bit : ((0 + 2 * sides path) % 2 == 1) ≡ false = ground arith in
      rw (half, bit, set_bits-sides path) refl

  length-unset : (path : List (Node × Bool)) → length (unset H path) ≡ length path
  length-unset [] = refl
  length-unset ((node, b) ∷ path) = ap suc (length-unset path)

  module _ (path : List (Node × Bool)) (stored : AllStored H path) (short : length path ≤ 64) where
    abbrev position : ℕ
    position = position_bits 0 path

    position_lem : position ≡ sides path
    position_lem = omega (arith, position_bits-sides 0 path (omega arith))

    abbrev tail_bytes : Bytes
    tail_bytes = to_le_bytes 8 position

    read_position : read_u64 tail_bytes ≡ ok position
    read_position =
        let whole = read_exact-append tail_bytes [] 8 (length-to_le_bytes 8 position) in
        let read : read_exact 8 tail_bytes ≡ ok (tail_bytes, []) =
          ap (read_exact 8) (sym (append-nil tail_bytes)) ∙ whole in
        let fits : position < 256 ^ 8 =
          omega (arith, position_lem, sides-lt path, two_pow_mono (length path) 64 short) in
        unfold read_u64 in rw (read, from_le_bytes-to_le_bytes 8 position fits) refl

    -- The bytes behind the depth are taken whole, and split into the chunks and the position.
    read_written :
        read_body H (length path) (write_entries H path ++ tail_bytes)
        ≡ ok (record { auth_path = path; position = position })
    read_written =
        let size = length-write_entries H path stored in
        let count : length (write_entries H path ++ tail_bytes) / 33 ≡ length path = omega (
          arith,
          length-append (write_entries H path) tail_bytes,
          size,
          length-to_le_bytes 8 position,
        ) in
        let cut : chunks (length path) (write_entries H path ++ tail_bytes) ≡ blocks path =
          rw (write_entries-blocks path, ← length-blocks path)
            (chunks-concat (blocks path) tail_bytes (blocks_sized path stored)) in
        let same : (length (unset H path) == length path) ≡ true =
          ground (arith, length-unset path) in
        let bits : set_bits position (unset H path) ≡ path =
          ap (λ n. set_bits n (unset H path)) position_lem ∙ set_bits-sides path in
        unfold read_body in
        rw
          (
            count,
            drop-append (write_entries H path) tail_bytes (33 * length path) size,
            read_position,
            cut,
            collect-blocks path stored,
            same,
            bits,
          )
          refl

  -- A path of at most 64 stored nodes, whose position has the sides of its entries as its bits, is
  -- read back from what was written, and what follows is left.
  pub deserialize-serialize :
      (p : MerklePath Node) (rest : Bytes)
      → AllStored H p.auth_path
      → length p.auth_path ≤ 64
      → p.position ≡ sides p.auth_path
      → deserialize H (serialize H p ++ rest) ≡ ok (p, rest)
  deserialize-serialize p rest h l e =
      let path = p.auth_path in
      let n = length path in
      let body = write_entries H path ++ tail_bytes path h l in
      let depth : n % 256 ≡ n = omega arith in
      let size : length body ≡ 33 * n + 8 = omega (
        arith,
        length-append (write_entries H path) (tail_bytes path h l),
        length-write_entries H path h,
        length-to_le_bytes 8 (position path h l),
      ) in
      let at : position path h l ≡ p.position = position_lem path h l ∙ sym e in
      unfold deserialize serialize in
      rw
        (
          depth,
          take-append body rest (33 * n + 8) size,
          drop-append body rest (33 * n + 8) size,
          read_written path h l,
          at,
        )
        refl

  -- For a path that is read back from its bytes, from_slice_with_depth returns the path from these
  -- bytes and further ones exactly where there are no further bytes and the path has the asked
  -- depth.
  pub from_slice_with_depth-serialize :
      (p : MerklePath Node) (extra : Bytes) (depth : ℕ)
      → AllStored H p.auth_path
      → length p.auth_path ≤ 64
      → p.position ≡ sides p.auth_path
      → (from_slice_with_depth H (serialize H p ++ extra) depth ≡ ok p)
        ↔ ((extra ≡ []) × (length p.auth_path ≡ depth))
  from_slice_with_depth-serialize p [] depth h l e =
      let back = deserialize-serialize p [] h l e in
      unfold from_slice_with_depth in ground (arith, back)
  from_slice_with_depth-serialize p (b ∷ extra) depth h l e =
      let back = deserialize-serialize p (b ∷ extra) h l e in
      unfold from_slice_with_depth in ground (arith, back)
