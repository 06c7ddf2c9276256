-- ===== src/Merkle/Path/Chunks.antt =====
-- A concatenation of chunks of 33 bytes, split again.
use masp.Base.{◌≡◌, refl, List, [], ◌∷◌, ◌++◌, append_assoc, append-nil, All}
use masp.Base.{length, take-append, drop-append}
use masp.Base.Bytes.{Bytes}
use masp.Merkle.Path.{chunks}

abbrev pub concat : List Bytes → Bytes
concat [] = []
concat (b ∷ bs) = b ++ concat bs

pub concat-append : (bs : List Bytes) (last : Bytes) → concat (bs ++ last ∷ []) ≡ concat bs ++ last
concat-append [] last = append-nil last
concat-append (b ∷ bs) last = rw (concat-append bs last, append_assoc b (concat bs) last) refl

pub chunks-concat :
    (bs : List Bytes) (rest : Bytes)
    → All (λ b. length b ≡ 33) bs
    → chunks (length bs) (concat bs ++ rest) ≡ bs
unfolding chunks
chunks-concat [] rest h = refl
chunks-concat (b ∷ bs) rest (h, hs) =
    rw
      (
        append_assoc b (concat bs) rest,
        take-append b (concat bs ++ rest) 33 h,
        drop-append b (concat bs ++ rest) 33 h,
        chunks-concat bs rest hs,
      )
      refl

pub All-append :
    (P : Bytes → Type 0) (bs : List Bytes) (last : Bytes)
    → All P bs
    → P last
    → All P (bs ++ last ∷ [])
All-append P [] last h l = (l, tt)
All-append P (b ∷ bs) last (h, hs) l = (h, All-append P bs last hs l)
