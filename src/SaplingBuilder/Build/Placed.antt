-- ===== src/SaplingBuilder/Build/Placed.antt =====
-- Where the map over the shuffled parts puts a part.
use masp.Base.{
  ℕ, zero, suc, ◌+◌, ◌≡◌, ◌≢◌, refl, ap, sym, ◌∙◌, ◌==◌, ==_iff, Bool-cases, Option, some,
  Option-cases, inl, inr, ◌⊎◌, List, [], ◌∷◌, get_elem?, arith,
}
use masp.Base.Result.{Result, ok, Result-cases}
use masp.SaplingBuilder.{Error}
use masp.SaplingBuilder.Build.{write_index, describe_all}

write_index-tail :
    (x : ℕ) (xs : List ℕ) (pos i : ℕ) (written : List ℕ)
    → write_index (x ∷ xs) (suc pos) i ≡ some written
    → (rest : List ℕ) × (write_index xs pos i ≡ some rest) × (written ≡ x ∷ rest)
unfolding write_index
write_index-tail x xs pos i written e = elim (Option-cases (write_index xs pos i)) [
  | inl n ↦ absurd (ground (arith, n, e))
  | inr (rest, er) ↦ (rest, er, ground (arith, er, e))
]

get_elem?-write_index :
    (indices : List ℕ) (pos i : ℕ) (written : List ℕ)
    → write_index indices pos i ≡ some written
    → get_elem? written pos ≡ some i
get_elem?-write_index [] pos i written e = absurd (unfold write_index in ground (arith, e))
get_elem?-write_index (x ∷ xs) zero i written e =
    let same : i ∷ xs ≡ written = unfold write_index in ground (arith, e) in
    ap (λ l. get_elem? l 0) (sym same)
get_elem?-write_index (x ∷ xs) (suc pos) i written e =
    let (rest, er, same) = write_index-tail x xs pos i written e in
    ap (λ l. get_elem? l (suc pos)) same ∙ get_elem?-write_index xs pos i rest er

get_elem?-write_index_other :
    (indices : List ℕ) (pos i : ℕ) (written : List ℕ) (q : ℕ)
    → pos ≢ q
    → write_index indices pos i ≡ some written
    → get_elem? written q ≡ get_elem? indices q
get_elem?-write_index_other [] pos i written q h e =
    absurd (unfold write_index in ground (arith, e))
get_elem?-write_index_other (x ∷ xs) zero i written zero h e = absurd (h refl)
get_elem?-write_index_other (x ∷ xs) zero i written (suc q) h e =
    let same : i ∷ xs ≡ written = unfold write_index in ground (arith, e) in
    ap (λ l. get_elem? l (suc q)) (sym same)
get_elem?-write_index_other (x ∷ xs) (suc pos) i written zero h e =
    let (rest, er, same) = write_index-tail x xs pos i written e in ap (λ l. get_elem? l 0) same
get_elem?-write_index_other (x ∷ xs) (suc pos) i written (suc q) h e =
    let (rest, er, same) = write_index-tail x xs pos i written e in
    ap (λ l. get_elem? l (suc q)) same
    ∙ get_elem?-write_index_other xs pos i rest q (λ p. h (ap suc p)) er

-- The part with the position `pos` stands at some index of the list, which is recorded, and its
-- description stands at the same index.
pub record Placed {A D : Type 0} (Describes : A → D → Type 0) (i : ℕ) (l : List (ℕ × A))
    (written : List ℕ) (ds : List D) (pos : ℕ) : Type 0 where
  pub index : ℕ
  pub part : A
  pub description : D
  pub stands : get_elem? l index ≡ some (pos, part)
  pub recorded : get_elem? written pos ≡ some (i + index)
  pub described : get_elem? ds index ≡ some description
  pub describes : Describes part description

-- One round of the map.
pub record Round {A D S : Type 0} (describe : ℕ → A → S → Option (Result Error (D × S))) (i : ℕ)
    (ctx : S) (pos : ℕ) (x : A) (rest : List (ℕ × A)) (indices written : List ℕ) (ds : List D)
    (last : S) : Type 0 where
  pub d : D
  pub next : S
  pub later : List D
  pub marked : List ℕ
  pub made : describe i x ctx ≡ some (ok (d, next))
  pub marks : write_index indices pos i ≡ some marked
  pub tail : describe_all describe (suc i) next rest marked ≡ some (ok (later, written, last))
  pub all : ds ≡ d ∷ later

module _ {A D S : Type 0} (describe : ℕ → A → S → Option (Result Error (D × S))) where
  pub round :
      (i : ℕ) (ctx : S) (pos : ℕ) (x : A) (rest : List (ℕ × A)) (indices written : List ℕ)
      (ds : List D) (last : S)
      → describe_all describe i ctx ((pos, x) ∷ rest) indices ≡ some (ok (ds, written, last))
      → Round describe i ctx pos x rest indices written ds last
  unfolding describe_all
  round i ctx pos x rest indices written ds last e = elim (Option-cases (describe i x ctx)) [
    | inl n ↦ absurd (ground (arith, n, e))
    | inr (r, er) ↦ elim (Result-cases r) [
      | inl (x', ex) ↦ absurd (ground (arith, er, ex, e))
      | inr ((d, next), ed) ↦ elim (Option-cases (write_index indices pos i)) [
        | inl n ↦ absurd (ground (arith, er, ed, n, e))
        | inr (marked, em) ↦ elim (Option-cases (describe_all describe (suc i) next rest marked)) [
          | inl n ↦ absurd (ground (arith, er, ed, em, n, e))
          | inr (t, et) ↦ elim (Result-cases t) [
            | inl (x', ex) ↦ absurd (ground (arith, er, ed, em, et, ex, e))
            | inr ((later, written', last'), el) ↦ record {
              d = d;
              next = next;
              later = later;
              marked = marked;
              made = cc (er, ed);
              marks = em;
              tail = ground (arith, er, ed, em, et, el, e);
              all = ground (arith, er, ed, em, et, el, e);
            }
          ]
        ]
      ]
    ]
  ]

  module _ (Describes : A → D → Type 0)
      (describes : (i : ℕ) (x : A) (ctx : S) (d : D) (next : S)
        → describe i x ctx ≡ some (ok (d, next))
        → Describes x d) where
    pub describe_all-Placed :
        (l : List (ℕ × A)) (i : ℕ) (ctx : S) (indices written : List ℕ) (ds : List D) (last : S)
        (pos : ℕ)
        → describe_all describe i ctx l indices ≡ some (ok (ds, written, last))
        → Placed Describes i l written ds pos
          ⊎ ((get_elem? written pos ≡ get_elem? indices pos)
              × ((j : ℕ) (x : A) → get_elem? l j ≢ some (pos, x)))
    describe_all-Placed [] i ctx indices written ds last pos e =
        inr (unfold describe_all in ground (arith, e), λ j x n. cc n)
    describe_all-Placed ((p, x) ∷ rest) i ctx indices written ds last pos e =
        let r = round i ctx p x rest indices written ds last e in
        elim (describe_all-Placed rest (suc i) r.next r.marked written r.later last pos r.tail) [
          | inl h ↦ inl (record {
            index = suc h.index;
            part = h.part;
            description = h.description;
            stands = h.stands;
            recorded = h.recorded ∙ ap some (omega arith);
            described = ap (λ l. get_elem? l (suc h.index)) r.all ∙ h.described;
            describes = h.describes;
          })
          | inr (same, absent) ↦ elim (Bool-cases (p == pos)) [
            | inl t ↦
                let here : p ≡ pos = (==_iff p pos).0 t in
                inl (record {
                  index = 0;
                  part = x;
                  description = r.d;
                  stands = cc here;
                  recorded =
                      same
                      ∙ ap (get_elem? r.marked) (sym here)
                      ∙ get_elem?-write_index indices p i r.marked r.marks
                      ∙ ap some (omega arith);
                  described = ap (λ l. get_elem? l 0) r.all;
                  describes = describes i x ctx r.d r.next r.made;
                })
            | inr f ↦
                let other : p ≢ pos = λ q. cc (f, (==_iff p pos).1 q) in
                inr (
                  same ∙ get_elem?-write_index_other indices p i r.marked pos other r.marks,
                  not_here p x rest pos other absent,
                )
          ]
        ]
      where
        not_here :
            (p : ℕ) (x : A) (rest : List (ℕ × A)) (pos : ℕ)
            → p ≢ pos
            → ((j : ℕ) (y : A) → get_elem? rest j ≢ some (pos, y))
            → (j : ℕ) (y : A) → get_elem? ((p, x) ∷ rest) j ≢ some (pos, y)
        not_here p x rest pos other absent zero y n = other (cc n)
        not_here p x rest pos other absent (suc j) y n = absent j y n
