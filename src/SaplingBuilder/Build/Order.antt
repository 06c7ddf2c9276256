-- ===== src/SaplingBuilder/Build/Order.antt =====
-- The shuffled parts: each has its description at the index that the metadata records, and the map
-- runs through where each part can be described.
use masp.Base.{
  ℕ, zero, suc, ◌+◌, ◌<◌, ◌≤◌, ◌≡◌, refl, ap, sym, ◌∙◌, subst, Option, some, inl, inr, ◌⊎◌, List,
  [], ◌∷◌, length, replicate, length-replicate, get_elem?, All, arith,
}
use masp.Base.Result.{Result, ok}
use masp.SaplingBuilder.{Error}
use masp.SaplingBuilder.Build.{write_index, describe_all, enumerate, Shuffle, build_parts}
use masp.SaplingBuilder.Build.Placed.{round, describe_all-Placed}

module _ {A : Type 0} where
  get_elem?-enumerate :
      (xs : List A) (i j : ℕ) (x : A)
      → get_elem? xs j ≡ some x
      → get_elem? (enumerate i xs) j ≡ some (i + j, x)
  unfolding enumerate
  get_elem?-enumerate [] i j x e = cc e
  get_elem?-enumerate (y ∷ xs) i zero x e = ground (arith, e)
  get_elem?-enumerate (y ∷ xs) i (suc j) x e =
      let shift : suc i + j ≡ i + suc j = omega arith in
      get_elem?-enumerate xs (suc i) j x e ∙ ap (λ n. some (n, x)) shift

  enumerate-get_elem? :
      (xs : List A) (i j : ℕ) (p : ℕ) (x : A)
      → get_elem? (enumerate i xs) j ≡ some (p, x)
      → (p ≡ i + j) × (get_elem? xs j ≡ some x)
  unfolding enumerate
  enumerate-get_elem? [] i j p x e = cc e
  enumerate-get_elem? (y ∷ xs) i zero p x e = ground (arith, e)
  enumerate-get_elem? (y ∷ xs) i (suc j) p x e =
      let (n, h) = enumerate-get_elem? xs (suc i) j p x e in (omega arith, h)

  length-enumerate : (xs : List A) (i : ℕ) → length (enumerate i xs) ≡ length xs
  unfolding enumerate
  length-enumerate [] i = refl
  length-enumerate (x ∷ xs) i = ap suc (length-enumerate xs (suc i))

  get_elem?-lt : (xs : List A) (j : ℕ) (x : A) → get_elem? xs j ≡ some x → j < length xs
  get_elem?-lt [] j x e = cc e
  get_elem?-lt (y ∷ xs) zero x e = omega arith
  get_elem?-lt (y ∷ xs) (suc j) x e = omega (arith, get_elem?-lt xs j x e)

  All-of_get :
      (P : A → Type 0) (xs : List A) → ((j : ℕ) (x : A) → get_elem? xs j ≡ some x → P x) → All P xs
  All-of_get P [] h = tt
  All-of_get P (x ∷ xs) h = (h 0 x refl, All-of_get P xs (λ j. h (suc j)))

  pub All-get :
      (P : A → Type 0) (xs : List A) (j : ℕ) (x : A) → All P xs → get_elem? xs j ≡ some x → P x
  All-get P [] j x h e = cc e
  All-get P (y ∷ xs) zero x (p, h) e = let same : y ≡ x = ground (arith, e) in subst P same p
  All-get P (y ∷ xs) (suc j) x (p, h) e = All-get P xs j x h e

pub get_elem?-total :
    {A : Type 0} (xs : List A) (i : ℕ) → i < length xs → (x : A) × (get_elem? xs i ≡ some x)
get_elem?-total [] i h = absurd (omega arith)
get_elem?-total (x ∷ xs) zero h = (x, refl)
get_elem?-total (x ∷ xs) (suc i) h = get_elem?-total xs i (omega arith)

pub list_cases : {A : Type 0} (l : List A) → (l ≡ []) ⊎ ((x : A) × (xs : List A) × (l ≡ x ∷ xs))
list_cases [] = inl refl
list_cases (x ∷ xs) = inr (x, xs, refl)

write_index-total :
    (indices : List ℕ) (pos i : ℕ)
    → pos < length indices
    → (written : List ℕ) × (write_index indices pos i ≡ some written)
      × (length written ≡ length indices)
unfolding write_index
write_index-total [] pos i h = absurd (omega arith)
write_index-total (x ∷ xs) zero i h = (i ∷ xs, refl, refl)
write_index-total (x ∷ xs) (suc pos) i h =
    let (rest, e, n) = write_index-total xs pos i (omega arith) in
    (x ∷ rest, ground (arith, e), ap suc n)

module _ {A D S : Type 0} (describe : ℕ → A → S → Option (Result Error (D × S))) where
  length-describe_all :
      (l : List (ℕ × A)) (i : ℕ) (ctx : S) (indices written : List ℕ) (ds : List D) (last : S)
      → describe_all describe i ctx l indices ≡ some (ok (ds, written, last))
      → length ds ≡ length l
  length-describe_all [] i ctx indices written ds last e =
      let nothing : [] ≡ ds = unfold describe_all in ground (arith, e) in ap length (sym nothing)
  length-describe_all ((p, x) ∷ rest) i ctx indices written ds last e =
      let r = round describe i ctx p x rest indices written ds last e in
      ap length r.all
      ∙ ap suc (length-describe_all rest (suc i) r.next r.marked written r.later last r.tail)

  -- Every part of the kind `Ready` is described at every index below the bound.
  abbrev pub Works : (A → Type 0) → ℕ → Type 0
  Works Ready bound =
      (i : ℕ) (x : A) (ctx : S)
      → i < bound
      → Ready x
      → (d : D) × (next : S) × (describe i x ctx ≡ some (ok (d, next)))

  module _ (Ready : A → Type 0) (bound : ℕ) (works : Works Ready bound) where
    describe_all-total :
        (l : List (ℕ × A)) (i : ℕ) (ctx : S) (indices : List ℕ)
        → All (λ p. Ready p.1 × (p.0 < length indices)) l
        → i + length l ≤ bound
        → (ds : List D) × (written : List ℕ) × (last : S) × (describe_all describe i ctx l indices
            ≡ some (ok (ds, written, last)))
    unfolding describe_all
    describe_all-total [] i ctx indices h fits = ([], indices, ctx, refl)
    describe_all-total ((p, x) ∷ rest) i ctx indices ((ready, small), h) fits =
        let (d, next, ed) = works i x ctx (omega arith) ready in
        let (marked, em, n) = write_index-total indices p i small in
        let later = subst (λ k. All (λ q. Ready q.1 × (q.0 < k)) rest) (sym n) h in
        let (ds, written, last, e) =
          describe_all-total rest (suc i) next marked later (omega arith) in
        (d ∷ ds, written, last, ground (arith, ed, em, e))

-- The description of the n-th part.
pub record At {A D : Type 0} (Describes : A → D → Type 0) (indices : List ℕ) (ds : List D) (n : ℕ)
    (x : A) : Type 0 where
  pub index : ℕ
  pub description : D
  pub recorded : get_elem? indices n ≡ some index
  pub described : get_elem? ds index ≡ some description
  pub describes : Describes x description

module _ {A D S R : Type 0} (sh : Shuffle R) (describe : ℕ → A → S → Option (Result Error (D × S)))
    (xs : List A) (rng : R) (ctx : S) where
  pub build_parts-At :
      (Describes : A → D → Type 0)
      → ((i : ℕ) (x : A) (ctx : S) (d : D) (next : S)
          → describe i x ctx ≡ some (ok (d, next))
          → Describes x d)
      → (ds : List D) (written : List ℕ) (last : S)
      → build_parts sh describe xs rng ctx ≡ some (ok (ds, written, last))
      → (n : ℕ) (x : A) → get_elem? xs n ≡ some x
      → At Describes written ds n x
  build_parts-At Describes describes ds written last e n x at =
      let l = (sh.shuffle (enumerate 0 xs) rng).0 in
      let (j, ej) = sh.kept (enumerate 0 xs) rng n (n, x) (numbered n x at) in
      elim (describe_all-Placed describe Describes describes l 0 ctx (replicate (length xs) 0)
        written ds last n (unfold build_parts in e)) [
          | inr (same, absent) ↦ absurd (absent j x ej)
          | inl h ↦
              let (k, ek) = sh.taken (enumerate 0 xs) rng h.index (n, h.part) h.stands in
              let (nk, found) = enumerate-get_elem? xs 0 k n h.part ek in
              let same_index : n ≡ k = omega (arith, nk) in
              let same : h.part ≡ x = same_part h.part (ap (get_elem? xs) same_index ∙ found) in
              record {
                index = h.index;
                description = h.description;
                recorded = h.recorded ∙ ap some (omega arith);
                described = h.described;
                describes = subst (λ y. Describes y h.description) same h.describes;
              }
        ]
    where
      numbered :
          (n : ℕ) (x : A) → get_elem? xs n ≡ some x → get_elem? (enumerate 0 xs) n ≡ some (n, x)
      numbered n x at =
          let shift : 0 + n ≡ n = omega arith in
          get_elem?-enumerate xs 0 n x at ∙ ap (λ k. some (k, x)) shift

      same_part : (y : A) → get_elem? xs n ≡ some y → y ≡ x
      same_part y f = cc (at, f)

  pub length-build_parts :
      (ds : List D) (written : List ℕ) (last : S)
      → build_parts sh describe xs rng ctx ≡ some (ok (ds, written, last))
      → length ds ≡ length xs
  length-build_parts ds written last e =
      length-describe_all describe (sh.shuffle (enumerate 0 xs) rng).0 0 ctx
        (replicate (length xs) 0) written ds last (unfold build_parts in e)
      ∙ sh.length-shuffle (enumerate 0 xs) rng
      ∙ length-enumerate xs 0

  pub build_parts-total :
      (Ready : A → Type 0)
      → Works describe Ready (length xs)
      → ((j : ℕ) (x : A) → get_elem? xs j ≡ some x → Ready x)
      → (ds : List D) × (written : List ℕ) × (last : S) × (build_parts sh describe xs rng ctx
          ≡ some (ok (ds, written, last)))
  build_parts-total Ready works ready =
      let l = (sh.shuffle (enumerate 0 xs) rng).0 in
      let size : length l ≡ length xs =
        sh.length-shuffle (enumerate 0 xs) rng ∙ length-enumerate xs 0 in
      unfold build_parts in
      describe_all-total describe Ready (length xs) works l 0 ctx (replicate (length xs) 0)
        (All-of_get (λ p. Ready p.1 × (p.0 < length (replicate {A = ℕ} (length xs) 0))) l placed)
        (omega (arith, size))
    where
      placed :
          (j : ℕ) (p : ℕ × A)
          → get_elem? (sh.shuffle (enumerate 0 xs) rng).0 j ≡ some p
          → Ready p.1 × (p.0 < length (replicate {A = ℕ} (length xs) 0))
      placed j (p, x) e =
          let (k, ek) = sh.taken (enumerate 0 xs) rng j (p, x) e in
          let (n, found) = enumerate-get_elem? xs 0 k p x ek in
          (
            ready k x found,
            omega (arith, get_elem?-lt xs k x found, length-replicate {A = ℕ} (length xs) 0),
          )
