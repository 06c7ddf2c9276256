-- ===== src/Base/Encoding.antt =====
-- What the code uses of the crate zcash_encoding: vectors behind a CompactSize count, and optional
-- values behind a presence byte. An `Encoding` is a parameter of the codecs.
use Prim.Native.Nat.{ℕ, zero, suc, ◌≤◌}
use mathlib.Core.Path.{◌≡◌, refl}
use mathlib.Core.Option.{Option, none, some}
use mathlib.Core.List.{List, [], ◌∷◌, ◌++◌, append_assoc}
use masp.Base.Lists.{length, All}
use masp.Base.Bytes.{Bytes}
use masp.Base.Result.{Io, ok, err, ◌>>=◌, unexpected_eof, invalid_data}

-- A reader takes what the writer wrote, and leaves what follows.
abbrev pub Reads : {A : Type 0} → (A → Bytes) → (Bytes → Io (A × Bytes)) → A → Type 0
Reads write read x = (rest : Bytes) → read (write x ++ rest) ≡ ok (x, rest)

pub record Encoding : Type 1 where
  pub max_size : ℕ
  pub write_vector : {A : Type 0} → (A → Bytes) → List A → Bytes
  pub read_vector : {A : Type 0} → (Bytes → Io (A × Bytes)) → Bytes → Io (List A × Bytes)
  pub write_optional : {A : Type 0} → (A → Bytes) → Option A → Bytes
  pub read_optional : {A : Type 0} → (Bytes → Io (A × Bytes)) → Bytes → Io (Option A × Bytes)
  -- A vector of at most `max_size` elements is read back, if each element is.
  pub vector_reads :
      {A : Type 0} (write : A → Bytes) (read : Bytes → Io (A × Bytes)) (xs : List A)
      → length xs ≤ max_size
      → All (Reads write read) xs
      → Reads (write_vector write) (read_vector read) xs
  pub none_reads :
      {A : Type 0} (write : A → Bytes) (read : Bytes → Io (A × Bytes))
      → Reads (write_optional write) (read_optional read) none
  pub some_reads :
      {A : Type 0} (write : A → Bytes) (read : Bytes → Io (A × Bytes)) (x : A)
      → Reads write read x
      → Reads (write_optional write) (read_optional read) (some x)

-- The one-byte form of a CompactSize, for at most 252 elements: the assumptions can be met.
module _ {A : Type 0} (write : A → Bytes) where
  unfoldable pub write_all : List A → Bytes
  write_all [] = []
  write_all (x ∷ xs) = write x ++ write_all xs

  unfoldable pub write_counted : List A → Bytes
  unfolding write_all
  write_counted xs = length xs ∷ write_all xs

  unfoldable pub write_flagged : Option A → Bytes
  write_flagged none = 0 ∷ []
  write_flagged (some x) = 1 ∷ write x

module _ {A : Type 0} (read : Bytes → Io (A × Bytes)) where
  unfoldable pub read_all : ℕ → Bytes → Io (List A × Bytes)
  read_all zero src = ok ([], src)
  read_all (suc n) src = do (x, rest) ← read src; (xs, rest') ← read_all n rest; ok (x ∷ xs, rest')

  unfoldable pub read_counted : Bytes → Io (List A × Bytes)
  unfolding read_all
  read_counted [] = err unexpected_eof
  read_counted (n ∷ src) = read_all n src

  unfoldable pub read_flagged : Bytes → Io (Option A × Bytes)
  read_flagged [] = err unexpected_eof
  read_flagged (zero ∷ src) = ok (none, src)
  read_flagged (suc zero ∷ src) = do (x, rest) ← read src; ok (some x, rest)
  read_flagged (suc (suc n) ∷ src) = err invalid_data

module _ {A : Type 0} (write : A → Bytes) (read : Bytes → Io (A × Bytes)) where
  read_all-write_all :
      (xs : List A)
      → All (Reads write read) xs
      → (rest : Bytes) → read_all read (length xs) (write_all write xs ++ rest) ≡ ok (xs, rest)
  unfolding read_all write_all
  read_all-write_all [] h rest = refl
  read_all-write_all (x ∷ xs) (h, hs) rest =
      rw (append_assoc (write x) (write_all write xs) rest, h (write_all write xs ++ rest))
        (rw (read_all-write_all xs hs rest) refl)

  pub counted-Reads :
      (xs : List A)
      → length xs ≤ 252
      → All (Reads write read) xs
      → Reads (write_counted write) (read_counted read) xs
  unfolding write_counted read_counted
  counted-Reads xs fits h rest = read_all-write_all xs h rest

  pub flagged_none : Reads (write_flagged write) (read_flagged read) none
  unfolding write_flagged read_flagged
  flagged_none rest = refl

  pub flagged_some :
      (x : A) → Reads write read x → Reads (write_flagged write) (read_flagged read) (some x)
  unfolding write_flagged read_flagged
  flagged_some x h rest = rw (h rest) refl

unfoldable pub small : Encoding
unfolding write_counted read_counted write_flagged read_flagged
small = record {
  max_size = 252;
  write_vector = λ w. write_counted w;
  read_vector = λ r. read_counted r;
  write_optional = λ w. write_flagged w;
  read_optional = λ r. read_flagged r;
  vector_reads = λ w r. counted-Reads w r;
  none_reads = λ w r. flagged_none w r;
  some_reads = λ w r. flagged_some w r;
}
