-- ===== src/Amount/Codec/RoundTrip.antt =====
-- What is read back of a written sum.
use Prim.Native.Nat.Ordering.{eq}
use masp.Base.{◌≡◌, ◌≢◌, refl, ap, ◌∙◌, true, none, some, arith, List, [], ◌∷◌, ◌++◌}
use masp.Base.{length, ◌≤◌, All, append_assoc}
use masp.Base.Int.{ℤ, pos, negsuc, ◌+ℤ◌, +ℤ-zero, zero-+ℤ}
use masp.Base.Bytes.{Bytes, read_exact-append, length-to_le_bytes}
use masp.Base.Result.{ok}
use masp.Base.Encoding.{Encoding, Reads}
use masp.BTreeMap
use masp.BTreeMap.Sorted.{IsSorted, Above, get-Above}
use masp.Words.{
  IntType, in_range, int_to_le_bytes, int_from_le_bytes, int_from_le_bytes-int_to_le_bytes,
}
use masp.AssetType.{AssetCrypto, hash_to_point}
use masp.AssetType.Bits.{bytes_ord}
use masp.AssetType.Derive.{read-append}
use masp.Amount.{ValueSum, get, zero_sum, from_pair, add}
use masp.Amount.Valid.{IsValid, Valid-ext, zero-IsValid, get-zero}
use masp.Amount.Add.{checked_add_sound, checked_add_total, get-in_range}
use masp.Amount.Single.{from_pair-IsValid, get-from_pair}
use masp.Amount.Codec.{
  Width, four, eight, sixteen, int_type, byte_count, write_element, write, read_element, accumulate,
  read,
}

length-int_to_le_bytes :
    (w : Width) (a : ℤ) → length (int_to_le_bytes (byte_count w) a) ≡ byte_count w
unfolding int_to_le_bytes
length-int_to_le_bytes w (pos a) = length-to_le_bytes (byte_count w) a
length-int_to_le_bytes w (negsuc a) = length-to_le_bytes (byte_count w) _

int_reads :
    (w : Width) (a : ℤ)
    → in_range (int_type w) a ≡ true
    → int_from_le_bytes (byte_count w) (int_to_le_bytes (byte_count w) a) ≡ a
int_reads four a h = (int_from_le_bytes-int_to_le_bytes a).0 h
int_reads eight a h = (int_from_le_bytes-int_to_le_bytes a).1 h
int_reads sixteen a h = (int_from_le_bytes-int_to_le_bytes a).2 h

-- An asset type whose identifier has 32 bytes and hashes to a point.
abbrev pub IsAsset : AssetCrypto → Bytes → Type 0
IsAsset c k = (length k ≡ 32) × (hash_to_point c k ≢ none)

element-Reads :
    (c : AssetCrypto) (w : Width) (k : Bytes) (v : ℤ)
    → IsAsset c k
    → in_range (int_type w) v ≡ true
    → Reads (write_element w) (read_element c w) (k, v)
unfolding write_element read_element
element-Reads c w k v (len, point) r rest =
    rw
      (
        append_assoc k (int_to_le_bytes (byte_count w) v) rest,
        read-append c k (int_to_le_bytes (byte_count w) v ++ rest) len point,
      )
      (rw
        (
          read_exact-append (int_to_le_bytes (byte_count w) v) rest (byte_count w)
              (length-int_to_le_bytes w v),
          int_reads w v r,
        )
        refl)

get_cons :
    (k : Bytes) (v : ℤ) (m : ValueSum Bytes) (q : Bytes)
    → BTreeMap.get ((k, v) ∷ m) q
      ≡ (elim (bytes_ord.cmp q k) [ eq ↦ some v | _ ↦ BTreeMap.get m q ])
unfolding BTreeMap.get
get_cons k v m q = refl

entry_lookup :
    (m : ValueSum Bytes) (q : Bytes)
    → (elim (BTreeMap.get m q) [ none ↦ get zero_sum q | some u ↦ u ]) ≡ get m q
entry_lookup m q = unfold get zero_sum BTreeMap.get in ground arith

All-ranged :
    (t : IntType) (m : ValueSum Bytes)
    → IsSorted m
    → ((k : Bytes) (v : ℤ) → BTreeMap.get m k ≡ some v → in_range t v ≡ true)
    → All (λ p. in_range t p.1 ≡ true) m
All-ranged t [] s h = tt
All-ranged t ((k, v) ∷ m) (above, s) h = (
  h k v (ground (arith, get_cons k v m k, bytes_ord.cmp_refl k)),
  All-ranged t m s λ j u e.
      h j u (ground (arith, get_cons k v m j, bytes_ord.eq_of_cmp j k, get-Above m k above)),
)

elements :
    (c : AssetCrypto) (w : Width) (m : ValueSum Bytes)
    → All (λ p. IsAsset c p.0) m
    → All (λ p. in_range (int_type w) p.1 ≡ true) m
    → All (Reads (write_element w) (read_element c w)) m
elements c w [] a r = tt
elements c w ((k, v) ∷ m) (a, as') (r, rs) = (element-Reads c w k v a r, elements c w m as' rs)

-- Adding the entries of a sorted list to a sum that holds none of its assets.
module _ (t : IntType) where
  abbrev Fresh : ValueSum Bytes → List (Bytes × ℤ) → Type 0
  Fresh acc m = All (λ p. get acc p.0 ≡ pos 0) m

  single_fits :
      (acc : ValueSum Bytes) (k : Bytes) (v : ℤ)
      → IsValid t acc
      → in_range t v ≡ true
      → get acc k ≡ pos 0
      → (q : Bytes) → in_range t (get acc q +ℤ get (from_pair k v) q) ≡ true
  single_fits acc k v va r new q = ground (
    arith,
    get-from_pair k v q,
    get-in_range t acc q va,
    +ℤ-zero (get acc q),
    zero-+ℤ v,
    bytes_ord.eq_of_cmp q k,
  )

  Fresh-step :
      (acc acc' : ValueSum Bytes) (k : Bytes) (v : ℤ) (m : ValueSum Bytes)
      → ((q : Bytes) → get acc' q ≡ get acc q +ℤ get (from_pair k v) q)
      → Above k m
      → Fresh acc m
      → Fresh acc' m
  Fresh-step acc acc' k v [] h a f = tt
  Fresh-step acc acc' k v ((j, u) ∷ m) h (a, as') (f, fs) = (
    ground (arith, h j, get-from_pair k v j, f, bytes_ord.gt_of_lt k j a, +ℤ-zero (pos 0)),
    Fresh-step acc acc' k v m h as' fs,
  )

  entry_read :
      (acc acc' s : ValueSum Bytes) (k : Bytes) (v : ℤ) (m : ValueSum Bytes) (q : Bytes)
      → Above k m
      → get acc k ≡ pos 0
      → get acc' q ≡ get acc q +ℤ get (from_pair k v) q
      → get s q ≡ (elim (BTreeMap.get m q) [ none ↦ get acc' q | some u ↦ u ])
      → get s q ≡ (elim (BTreeMap.get ((k, v) ∷ m) q) [ none ↦ get acc q | some u ↦ u ])
  entry_read acc acc' s k v m q above new h' hs = ground (
    arith,
    get-from_pair k v q,
    get_cons k v m q,
    bytes_ord.eq_of_cmp q k,
    get-Above m k above,
    zero-+ℤ v,
    +ℤ-zero (get acc q),
  )

  accumulate-cons :
      (acc acc' : ValueSum Bytes) (k : Bytes) (v : ℤ) (m : ValueSum Bytes)
      → add t acc (from_pair k v) ≡ some acc'
      → accumulate t acc ((k, v) ∷ m) ≡ accumulate t acc' m
  accumulate-cons acc acc' k v m e = unfold accumulate in ground (arith, e)

  accumulate_lem :
      (acc m : ValueSum Bytes)
      → IsValid t acc
      → IsSorted m
      → All (λ p. in_range t p.1 ≡ true) m
      → Fresh acc m
      → (s : ValueSum Bytes) × (accumulate t acc m ≡ some s)
        × IsValid t s
        × ((q : Bytes) → get s q ≡ (elim (BTreeMap.get m q) [ none ↦ get acc q | some v ↦ v ]))
  accumulate_lem acc [] va sm rm fresh =
      unfold accumulate BTreeMap.get in (acc, refl, va, λ q. refl)
  accumulate_lem acc ((k, v) ∷ m) va (above, sm) (r, rm) (new, fresh) =
      let vp = from_pair-IsValid t k v r in
      let (acc', e) =
        checked_add_total t acc (from_pair k v) va vp (single_fits acc k v va r new) in
      let (va', h') = checked_add_sound t acc (from_pair k v) va vp e in
      let (s, es, vs, hs) =
        accumulate_lem acc' m va' sm rm (Fresh-step acc acc' k v m h' above fresh) in
      (
        s,
        accumulate-cons acc acc' k v m (unfold add in e) ∙ es,
        vs,
        λ q. entry_read acc acc' s k v m q above new (h' q) (hs q),
      )

  Fresh-zero : (m : ValueSum Bytes) → Fresh zero_sum m
  Fresh-zero [] = tt
  Fresh-zero ((k, v) ∷ m) = (get-zero k, Fresh-zero m)

  pub accumulate-zero : (m : ValueSum Bytes) → IsValid t m → accumulate t zero_sum m ≡ some m
  accumulate-zero m v =
      let (s, e, vs, h) =
        accumulate_lem zero_sum m (zero-IsValid t) v.sorted (All-ranged t m v.sorted v.ranged)
          (Fresh-zero m) in
      let same : s ≡ m = Valid-ext t t s m vs v (λ q. h q ∙ entry_lookup m q) in e ∙ ap some same

-- A valid sum over known 32-byte asset identifiers, with no more entries than a vector may have,
-- is read back from what was written, in each of the three widths; what follows is left, and the
-- reader neither fails nor panics.
pub read-write :
    (enc : Encoding) (c : AssetCrypto) (w : Width) (m : ValueSum Bytes) (rest : Bytes)
    → IsValid (int_type w) m
    → All (λ p. IsAsset c p.0) m
    → length m ≤ enc.max_size
    → read enc c w (write enc w m ++ rest) ≡ some (ok (m, rest))
read-write enc c w m rest v assets fits =
    let ranged = All-ranged (int_type w) m v.sorted v.ranged in
    let vec =
      enc.vector_reads (write_element w) (read_element c w) m fits (elements c w m assets ranged)
        rest in
    unfold read write in ground (arith, vec, accumulate-zero (int_type w) m v)
