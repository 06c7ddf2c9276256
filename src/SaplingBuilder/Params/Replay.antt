-- ===== src/SaplingBuilder/Params/Replay.antt =====
-- The stored parameters are those that were given out before.
use masp.Base.{
  ℕ, ◌+◌, ◌≡◌, refl, ap, sym, ◌∙◌, subst, some, List, [], ◌∷◌, length, get_elem?, All, arith,
}
use masp.Base.Ord.{nat_ord}
use masp.BTreeMap
use masp.BTreeMap.{BTreeMap}
use masp.BTreeMap.Sorted.{IsSorted}
use masp.Sapling.{SaplingCrypto}
use masp.SaplingBuilder.Params.{
  StoredBuildParams, RngCore, RngBuildParams, SpendBuildParams, ConvertBuildParams,
  OutputBuildParams, or_insert_with, new, spend_params, convert_params, output_params, drain,
  to_stored, random_spend, random_convert, random_output,
}
use masp.SaplingBuilder.Params.Drain.{Dense, drain-Dense, drain-get, or_insert_with_lem}

-- What was asked for, and what was given.
pub data Answer (c : SaplingCrypto) : Type 0 where
  spend : ℕ → SpendBuildParams c → Answer c
  convert : ℕ → ConvertBuildParams c → Answer c
  output : ℕ → OutputBuildParams c → Answer c

-- The stored parameters have the answer.
abbrev pub Replays : {c : SaplingCrypto} → StoredBuildParams c → Answer c → Type 0
Replays st (spend i p) = get_elem? st.spend_params i ≡ some p
Replays st (convert i p) = get_elem? st.convert_params i ≡ some p
Replays st (output i p) = get_elem? st.output_params i ≡ some p

abbrev Held : {c : SaplingCrypto} {Rng : Type 0} → RngBuildParams c Rng → Answer c → Type 0
Held r (spend i p) = BTreeMap.get r.spends i ≡ some p
Held r (convert i p) = BTreeMap.get r.converts i ≡ some p
Held r (output i p) = BTreeMap.get r.outputs i ≡ some p

module _ (c : SaplingCrypto) {Rng : Type 0} (g : RngCore c Rng) where
  -- A new generator of parameters after some calls, with the answers, the last first.
  pub data Run : RngBuildParams c Rng → List (Answer c) → Type 0 where
    start : (rng : Rng) → Run (new c rng) []
    spends :
        (r r' : RngBuildParams c Rng) (log : List (Answer c)) (i : ℕ) (p : SpendBuildParams c)
        → Run r log
        → spend_params c g r i ≡ (p, r')
        → Run r' (spend i p ∷ log)
    converts :
        (r r' : RngBuildParams c Rng) (log : List (Answer c)) (i : ℕ) (p : ConvertBuildParams c)
        → Run r log
        → convert_params c g r i ≡ (p, r')
        → Run r' (convert i p ∷ log)
    outputs :
        (r r' : RngBuildParams c Rng) (log : List (Answer c)) (i : ℕ) (p : OutputBuildParams c)
        → Run r log
        → output_params c g r i ≡ (p, r')
        → Run r' (output i p ∷ log)

  record Holds (r : RngBuildParams c Rng) (log : List (Answer c)) : Type 0 where
    spends : IsSorted r.spends
    converts : IsSorted r.converts
    outputs : IsSorted r.outputs
    answers : All (Held r) log

  All-map :
      (P Q : Answer c → Type 0) (log : List (Answer c))
      → ((a : Answer c) → P a → Q a)
      → All P log
      → All Q log
  All-map P Q [] f h = tt
  All-map P Q (a ∷ log) f (p, h) = (f a p, All-map P Q log f h)

  spend_given :
      (r r' : RngBuildParams c Rng) (i : ℕ) (p : SpendBuildParams c)
      → spend_params c g r i ≡ (p, r')
      → (or_insert_with r.spends i (random_spend c g) r.rng ≡ (p, r'.spends, r'.rng))
        × (r.converts ≡ r'.converts)
        × (r.outputs ≡ r'.outputs)
  unfolding spend_params
  spend_given r r' i p e =
      (ap (λ x. (x.0, x.1.spends, x.1.rng)) e, ap (λ x. x.1.converts) e, ap (λ x. x.1.outputs) e)

  convert_given :
      (r r' : RngBuildParams c Rng) (i : ℕ) (p : ConvertBuildParams c)
      → convert_params c g r i ≡ (p, r')
      → (or_insert_with r.converts i (random_convert c g) r.rng ≡ (p, r'.converts, r'.rng))
        × (r.spends ≡ r'.spends)
        × (r.outputs ≡ r'.outputs)
  unfolding convert_params
  convert_given r r' i p e =
      (ap (λ x. (x.0, x.1.converts, x.1.rng)) e, ap (λ x. x.1.spends) e, ap (λ x. x.1.outputs) e)

  output_given :
      (r r' : RngBuildParams c Rng) (i : ℕ) (p : OutputBuildParams c)
      → output_params c g r i ≡ (p, r')
      → (or_insert_with r.outputs i (random_output c g) r.rng ≡ (p, r'.outputs, r'.rng))
        × (r.spends ≡ r'.spends)
        × (r.converts ≡ r'.converts)
  unfolding output_params
  output_given r r' i p e =
      (ap (λ x. (x.0, x.1.outputs, x.1.rng)) e, ap (λ x. x.1.spends) e, ap (λ x. x.1.converts) e)

  -- What a call keeps.
  keeps :
      (r r' : RngBuildParams c Rng)
      → ((i : ℕ) (p : SpendBuildParams c)
          → BTreeMap.get r.spends i ≡ some p
          → BTreeMap.get r'.spends i ≡ some p)
      → ((i : ℕ) (p : ConvertBuildParams c)
          → BTreeMap.get r.converts i ≡ some p
          → BTreeMap.get r'.converts i ≡ some p)
      → ((i : ℕ) (p : OutputBuildParams c)
          → BTreeMap.get r.outputs i ≡ some p
          → BTreeMap.get r'.outputs i ≡ some p)
      → (a : Answer c) → Held r a
      → Held r' a
  keeps r r' ks kc ko (spend i p) h = ks i p h
  keeps r r' ks kc ko (convert i p) h = kc i p h
  keeps r r' ks kc ko (output i p) h = ko i p h

  Run-Holds : (r : RngBuildParams c Rng) (log : List (Answer c)) → Run r log → Holds r log
  Run-Holds r log (start rng) =
      unfold new in record { spends = tt; converts = tt; outputs = tt; answers = tt }
  Run-Holds r' log' (spends r r'' log i p w e) =
      let h = Run-Holds r log w in
      let (given, same_converts, same_outputs) = spend_given r r' i p e in
      let (s, found, kept) =
        or_insert_with_lem r.spends i (random_spend c g) r.rng p r'.spends r'.rng h.spends given in
      record {
        spends = s;
        converts = subst (λ m. IsSorted m) same_converts h.converts;
        outputs = subst (λ m. IsSorted m) same_outputs h.outputs;
        answers = (
          found,
          All-map (Held r) (Held r') log
              (keeps r r' kept (λ q x f. ap (λ m. BTreeMap.get m q) (sym same_converts) ∙ f)
                (λ q x f. ap (λ m. BTreeMap.get m q) (sym same_outputs) ∙ f))
              h.answers,
        );
      }
  Run-Holds r' log' (converts r r'' log i p w e) =
      let h = Run-Holds r log w in
      let (given, same_spends, same_outputs) = convert_given r r' i p e in
      let (s, found, kept) =
        or_insert_with_lem r.converts i (random_convert c g) r.rng p r'.converts r'.rng h.converts
          given in
      record {
        spends = subst (λ m. IsSorted m) same_spends h.spends;
        converts = s;
        outputs = subst (λ m. IsSorted m) same_outputs h.outputs;
        answers = (
          found,
          All-map (Held r) (Held r') log
              (keeps r r' (λ q x f. ap (λ m. BTreeMap.get m q) (sym same_spends) ∙ f) kept
                (λ q x f. ap (λ m. BTreeMap.get m q) (sym same_outputs) ∙ f))
              h.answers,
        );
      }
  Run-Holds r' log' (outputs r r'' log i p w e) =
      let h = Run-Holds r log w in
      let (given, same_spends, same_converts) = output_given r r' i p e in
      let (s, found, kept) =
        or_insert_with_lem r.outputs i (random_output c g) r.rng p r'.outputs r'.rng h.outputs
          given in
      record {
        spends = subst (λ m. IsSorted m) same_spends h.spends;
        converts = subst (λ m. IsSorted m) same_converts h.converts;
        outputs = s;
        answers = (
          found,
          All-map (Held r) (Held r') log
              (keeps r r' (λ q x f. ap (λ m. BTreeMap.get m q) (sym same_spends) ∙ f)
                (λ q x f. ap (λ m. BTreeMap.get m q) (sym same_converts) ∙ f) kept)
              h.answers,
        );
      }

  drained :
      {V : Type 0} (m : BTreeMap ℕ V) (vs : List V) (i : ℕ) (v : V)
      → IsSorted m
      → drain m 0 (length m) ≡ some vs
      → BTreeMap.get m i ≡ some v
      → get_elem? vs i ≡ some v
  drained m vs i v s e found =
      let same : 0 + i ≡ i = omega arith in
      drain-get (length m) 0 m vs i v s refl e (ap (BTreeMap.get m) same ∙ found)

  -- The indices that were asked for, of each kind, have no gap.
  pub record HasPrefixes (r : RngBuildParams c Rng) : Type 0 where
    pub spends : Dense r.spends
    pub converts : Dense r.converts
    pub outputs : Dense r.outputs

  -- If a new RngBuildParams has been asked for parameters in any order and as often as one likes,
  -- but, of each kind, for indices without a gap, to_stored gives stored parameters, and these
  -- have, at every index that was asked for, exactly the parameters that were given out for it.
  pub to_stored-Replays :
      (r : RngBuildParams c Rng) (log : List (Answer c))
      → Run r log
      → HasPrefixes r
      → (st : StoredBuildParams c) × (to_stored c r ≡ some st) × All (Replays st) log
  to_stored-Replays r log w dense =
      let h = Run-Holds r log w in
      let (ss, es) = drain-Dense r.spends h.spends dense.spends in
      let (cs, ec) = drain-Dense r.converts h.converts dense.converts in
      let (os, eo) = drain-Dense r.outputs h.outputs dense.outputs in
      let st : StoredBuildParams c = record {
        spend_params = ss;
        convert_params = cs;
        output_params = os;
      } in
      (
        st,
        unfold to_stored in ground (arith, es, ec, eo),
        All-map (Held r) (Replays st) log (replay r st h.spends h.converts h.outputs es ec eo)
            h.answers,
      )
    where
      replay :
          (r : RngBuildParams c Rng) (st : StoredBuildParams c)
          → IsSorted r.spends
          → IsSorted r.converts
          → IsSorted r.outputs
          → drain r.spends 0 (length r.spends) ≡ some st.spend_params
          → drain r.converts 0 (length r.converts) ≡ some st.convert_params
          → drain r.outputs 0 (length r.outputs) ≡ some st.output_params
          → (a : Answer c) → Held r a
          → Replays st a
      replay r st ss sc so es ec eo (spend i p) h = drained r.spends st.spend_params i p ss es h
      replay r st ss sc so es ec eo (convert i p) h =
          drained r.converts st.convert_params i p sc ec h
      replay r st ss sc so es ec eo (output i p) h = drained r.outputs st.output_params i p so eo h
