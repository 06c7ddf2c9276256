-- ===== src/Merkle/Codec/RoundTrip.antt =====
-- Reading back written trees and witnesses.
use masp.Base.{ℕ, suc, ◌≤◌, ◌≡◌, refl, Option, none, some, List, [], ◌∷◌, ◌++◌, All, arith}
use masp.Base.{length, append_assoc, get_elem?, subst}
use masp.Base.Bytes.{Bytes}
use masp.Base.Result.{ok}
use masp.Base.Encoding.{Encoding, Reads}
use masp.Merkle.Hash.{Hashable}
use masp.Merkle.Tree.{CommitmentTree}
use masp.Merkle.Witness.{IncrementalWitness, next_depth}
use masp.Merkle.Witness.Holes.{At, holes, next_depth-holes}
use masp.Merkle.Witness.Tracks.{Tracks, Holds}
use masp.Merkle.Codec.{write_node, read_node, write_tree, read_tree, write_witness, read_witness}

module _ (enc : Encoding) {Node : Type 0} (H : Hashable Node) where
  -- What is there is read back by the reader of nodes.
  abbrev pub NodeReads : Option Node → Type 0
  NodeReads none = Unit
  NodeReads (some n) = Reads H.write H.read n

  pub record TreeReads (t : CommitmentTree Node) : Type 0 where
    pub left_reads : NodeReads t.left
    pub right_reads : NodeReads t.right
    pub parents_read : All NodeReads t.parents
    pub parents_fit : length t.parents ≤ enc.max_size

  abbrev pub CursorReads : Option (CommitmentTree Node) → Type 0
  CursorReads none = Unit
  CursorReads (some c) = TreeReads c

  node_back : (n : Option Node) → NodeReads n → Reads (write_node enc H) (read_node enc H) n
  node_back none h rest = unfold write_node read_node in enc.none_reads H.write H.read rest
  node_back (some n) h rest = unfold write_node read_node in enc.some_reads H.write H.read n h rest

  nodes_back :
      (ns : List (Option Node))
      → All NodeReads ns
      → All (Reads (write_node enc H) (read_node enc H)) ns
  nodes_back [] h = tt
  nodes_back (n ∷ ns) (h, hs) = (node_back n h, nodes_back ns hs)

  -- A commitment tree whose nodes are read back each, with no more parents than a vector may have,
  -- is read back from what was written, and what follows is left.
  pub read_tree-write_tree :
      (t : CommitmentTree Node) (rest : Bytes)
      → TreeReads t
      → read_tree enc H (write_tree enc H t ++ rest) ≡ ok (t, rest)
  read_tree-write_tree t rest h =
      let parents = enc.write_vector (write_node enc H) t.parents in
      let l = node_back t.left h.left_reads (write_node enc H t.right ++ (parents ++ rest)) in
      let r = node_back t.right h.right_reads (parents ++ rest) in
      let p =
        enc.vector_reads (write_node enc H) (read_node enc H) t.parents h.parents_fit
          (nodes_back t.parents h.parents_read) rest in
      unfold read_tree write_tree in
      rw
        (
          append_assoc (write_node enc H t.left) (write_node enc H t.right ++ parents) rest,
          append_assoc (write_node enc H t.right) parents rest,
        )
        (ground (arith, l, r, p))

  cursor_back :
      (c : Option (CommitmentTree Node))
      → CursorReads c
      → (rest : Bytes)
      → enc.read_optional (read_tree enc H) (enc.write_optional (write_tree enc H) c ++ rest)
        ≡ ok (c, rest)
  cursor_back none h rest = enc.none_reads (write_tree enc H) (read_tree enc H) rest
  cursor_back (some c) h rest =
      enc.some_reads (write_tree enc H) (read_tree enc H) c (λ more. read_tree-write_tree c more h)
        rest

  pub read_witness-write_witness :
      (w : IncrementalWitness Node) (rest : Bytes)
      → TreeReads w.tree
      → All (Reads H.write H.read) w.filled
      → length w.filled ≤ enc.max_size
      → CursorReads w.cursor
      → read_witness enc H (write_witness enc H w ++ rest)
        ≡ ok (record w { cursor_depth = next_depth w }, rest)
  read_witness-write_witness w rest ht hf fit hc =
      let filled = enc.write_vector H.write w.filled in
      let cursor = enc.write_optional (write_tree enc H) w.cursor in
      let t = read_tree-write_tree w.tree (filled ++ (cursor ++ rest)) ht in
      let f = enc.vector_reads H.write H.read w.filled fit hf (cursor ++ rest) in
      let c = cursor_back w.cursor hc rest in
      let depth : next_depth (record w { cursor_depth = 0 }) ≡ next_depth w =
        unfold next_depth in refl in
      unfold read_witness write_witness in
      rw
        (
          append_assoc (write_tree enc H w.tree) (filled ++ cursor) rest,
          append_assoc filled cursor rest,
        )
        (ground (arith, t, f, c, depth))

  -- The next depth serves a witness as its cursor depth.
  restored-Tracks :
      (d : ℕ) (w : IncrementalWitness Node) (xs ys : List Node)
      → Tracks H d w xs ys
      → Tracks H d (record w { cursor_depth = next_depth w }) xs ys
  restored-Tracks d w xs ys t = record {
    first = t.first;
    at_left = t.at_left;
    below = t.below;
    fits = t.fits;
    rest = t.rest;
    blocks = t.blocks;
    held = by_cursor w.cursor t.held;
  }
    where
      by_cursor :
          (c : Option (CommitmentTree Node))
          → Holds H (get_elem? (holes d w.tree) (length w.filled)) w.cursor_depth c t.rest
          → Holds H (get_elem? (holes d w.tree) (length w.filled)) (next_depth w) c t.rest
      by_cursor none e = e
      by_cursor (some c) (h, e, f, rep, pos, lt) =
          let (at, low) =
            subst (At (next_depth w) (suc d)) e (next_depth-holes w d t.first t.at_left) in
          (h, e, at, rep, pos, lt)

  -- A witness that tracks leaves, whose nodes are read back each and whose lists are no longer
  -- than a vector may be, is read back from what was written as a witness that tracks the same
  -- leaves, and what follows is left.
  pub read_witness-Tracks :
      (w : IncrementalWitness Node) (xs ys : List Node) (d : ℕ) (rest : Bytes)
      → Tracks H d w xs ys
      → TreeReads w.tree
      → All (Reads H.write H.read) w.filled
      → length w.filled ≤ enc.max_size
      → CursorReads w.cursor
      → (w' : IncrementalWitness Node) × (read_witness enc H (write_witness enc H w ++ rest)
          ≡ ok (w', rest))
        × Tracks H d w' xs ys
  read_witness-Tracks w xs ys d rest t ht hf fit hc = (
    record w { cursor_depth = next_depth w },
    read_witness-write_witness w rest ht hf fit hc,
    restored-Tracks d w xs ys t,
  )
