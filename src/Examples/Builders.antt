-- ===== src/Examples/Builders.antt =====
-- Builders over the toy curve, with a hash of nodes that keeps the left one.
use masp.Base.{
  ◌≡◌, ◌≢◌, refl, Bool, true, false, Option, none, some, List, [], ◌∷◌, ◌⊎◌, ◌↔◌, arith, replicate,
  ℕ, ◌+◌, length, get_elem?, All,
}
use masp.Base.Int.{pos, ◌+ℤ◌, ◌-ℤ◌}
use masp.Base.Bytes.{Bytes}
use masp.Base.Result.{Result, ok, err}
use masp.BTreeMap
use masp.Words.{i128, u64, in_range}
use masp.AssetType.{hash_to_point}
use masp.AssetType.Bits.{bytes_ord}
use masp.Amount
use masp.Amount.{ValueSum, get}
use masp.Amount.Valid.{IsValid}
use masp.Merkle.Hash.{Hashable, node_hashable}
use masp.Sapling.{cmu, cm_full_point}
use masp.SaplingBuilder.{
  anchor_mismatch, ScalarField, SpendDescriptionInfo, SaplingBuilder, new, add_spend, root_of,
}
use masp.SaplingBuilder.Totals.{net, spent}
use masp.SaplingBuilder.Cases.{spend_root}
use masp.SaplingBuilder.Consistent.{Reaches, start, spend, Reaches-IsConsistent}
use masp.SaplingBuilder.Invariant.{IsConsistent}
use masp.SaplingBuilder.Params.{StoredBuildParams, RngBuildParams, RngCore, to_stored}
use masp.SaplingBuilder.Params
use masp.SaplingBuilder.Params.Replay.{Answer, Replays, Run, HasPrefixes, to_stored-Replays}
use masp.SaplingBuilder.Params.Replay
use masp.SaplingBuilder.Build.{Shuffle, Generators, TxProver, SpendDescription, build_spends, nf}
use masp.SaplingBuilder.Build.Spends.{IsTotal, Made, build_spends_lem}
use masp.Sapling.Codec.{ProofGenerationKey}
use masp.SaplingBuilder.Accepts.{Takes, add_spend_lem}
use masp.Builder.{Builder, insufficient_funds, check_balance}
use masp.Builder
use masp.Builder.Balance.{IsMade, surplus, check_balance_lem}
use masp.Examples.Conversions.{gold, two_bytes, point_of, xor, invert}
use masp.Examples.Payments.{toy, note, same_iff}

abbrev field : ScalarField toy
field = record { from_repr = point_of; is_same = λ a b. invert (xor a b); is_same_iff = same_iff }

unfoldable hash : Hashable Bytes
unfolding node_hashable
hash = node_hashable (λ d l r. l) (two_bytes true)

abbrev Started : Type 0
Started = SaplingBuilder toy (Unit {0}) (Unit {0})

abbrev fresh : Started
fresh = record {
  params = tt;
  spend_anchor = none;
  target_height = record { height = 5 };
  value_balance = [];
  convert_anchor = none;
  spends = [];
  converts = [];
  outputs = [];
}

abbrev first : SpendDescriptionInfo toy (Unit {0})
first = record {
  extsk = tt;
  diversifier = replicate 11 3;
  note = note;
  merkle_path = record { auth_path = []; position = 0 };
}

abbrev funded : Started
funded = record {
  params = tt;
  spend_anchor = some false;
  target_height = record { height = 5 };
  value_balance = (gold, pos 7) ∷ [];
  convert_anchor = none;
  spends = first ∷ [];
  converts = [];
  outputs = [];
}

first_added :
    add_spend toy field hash fresh tt (replicate 11 3) note first.merkle_path ≡ some (ok tt, funded)
unfolding add_spend Amount.add BTreeMap.insert cmu cm_full_point hash_to_point hash Amount.from_pair
first_added = refl

fresh-Reaches : Reaches toy field hash fresh
unfolding new
fresh-Reaches = start tt (record { height = 5 })

funded-Reaches : Reaches toy field hash funded
funded-Reaches =
    spend fresh funded (ok tt) tt (replicate 11 3) note first.merkle_path fresh-Reaches
      (omega arith) first_added

Reaches-IsConsistent_example : IsConsistent toy field hash funded
Reaches-IsConsistent_example = Reaches-IsConsistent toy field hash funded funded-Reaches

first_root : spend_root toy field hash first ≡ some false
unfolding cmu cm_full_point hash_to_point hash root_of
first_root = refl

add_spend_lem_example :
    ((fresh.spend_anchor ≡ none) ⊎ (fresh.spend_anchor ≡ some false)
      → ((k : Bytes) → in_range i128 (net fresh k +ℤ spent k first) ≡ true)
      → Takes toy field hash fresh first false)
    × ((old : Bool)
        → fresh.spend_anchor ≡ some old
        → old ≢ false
        → add_spend toy field hash fresh tt (replicate 11 3) note first.merkle_path
          ≡ some (err anchor_mismatch, fresh))
add_spend_lem_example =
    add_spend_lem toy field hash fresh first false fresh-Reaches (omega arith) first_root

-- One note, and as much for the fee.
abbrev balanced : Builder toy (Unit {0}) (Unit {0})
balanced = record {
  params = tt;
  target_height = record { height = 5 };
  expiry_height = record { height = 25 };
  transparent_builder = record { inputs = []; vout = [] };
  sapling_builder = funded;
}

abbrev due : ValueSum Bytes
due = (gold, pos 7) ∷ []

balanced-IsMade : IsMade toy field hash balanced
balanced-IsMade = record { inputs = tt; vout = tt; shielded = funded-Reaches }

due-IsValid : IsValid u64 due
due-IsValid = record {
  sorted = ground arith;
  nonzero = λ k. unfold BTreeMap.get in ground arith;
  ranged = λ k v e. unfold BTreeMap.get in_range in ground arith;
}

abbrev Verdict : Type 0
Verdict = Result (masp.Builder.Error (Unit {0})) (Unit {0})

check_passes : check_balance toy {FeeError = Unit {0}} balanced due ≡ some (ok tt)
unfolding check_balance masp.Builder.value_balance masp.Transparent.builder_balance Amount.sum
    Amount.sub Amount.from_sum BTreeMap.insert bytes_ord
check_passes = refl

check_balance_lem_example :
    ((◌≡◌ {A = Verdict} (ok tt) (ok tt))
      ↔ ((k : Bytes) → surplus toy field hash balanced k ≡ get due k))
    × ((missing : ValueSum Bytes)
        → ◌≡◌ {A = Verdict} (ok tt) (err (insufficient_funds missing))
        → (k : Bytes) → get missing k ≡ get due k -ℤ surplus toy field hash balanced k)
check_balance_lem_example =
    check_balance_lem toy field hash balanced due (ok tt) balanced-IsMade due-IsValid check_passes

-- The same note twice.
abbrev twice : Started
twice = record funded { value_balance = (gold, pos 14) ∷ []; spends = first ∷ first ∷ [] }

second_added :
    add_spend toy field hash funded tt (replicate 11 3) note first.merkle_path ≡ some (ok tt, twice)
unfolding add_spend Amount.add BTreeMap.insert cmu cm_full_point hash_to_point hash Amount.from_pair
    bytes_ord
second_added = refl

twice-Reaches : Reaches toy field hash twice
twice-Reaches =
    spend funded twice (ok tt) tt (replicate 11 3) note first.merkle_path funded-Reaches
      (omega arith) second_added

-- A shuffle that swaps the first two.
abbrev swap : {A : Type 0} → List A → List A
swap [] = []
swap (x ∷ []) = x ∷ []
swap (x ∷ y ∷ xs) = y ∷ x ∷ xs

swapped :
    {A : Type 0} (xs : List A) (i : ℕ) (x : A)
    → get_elem? (swap xs) i ≡ some x
    → (j : ℕ) × (get_elem? xs j ≡ some x)
swapped [] i x e = (i, e)
swapped (a ∷ []) i x e = (i, e)
swapped (a ∷ b ∷ xs) ℕ.zero x e = (1, e)
swapped (a ∷ b ∷ xs) (ℕ.suc ℕ.zero) x e = (0, e)
swapped (a ∷ b ∷ xs) (ℕ.suc (ℕ.suc i)) x e = (ℕ.suc (ℕ.suc i), e)

unswapped :
    {A : Type 0} (xs : List A) (j : ℕ) (x : A)
    → get_elem? xs j ≡ some x
    → (i : ℕ) × (get_elem? (swap xs) i ≡ some x)
unswapped [] i x e = (i, e)
unswapped (a ∷ []) i x e = (i, e)
unswapped (a ∷ b ∷ xs) ℕ.zero x e = (1, e)
unswapped (a ∷ b ∷ xs) (ℕ.suc ℕ.zero) x e = (0, e)
unswapped (a ∷ b ∷ xs) (ℕ.suc (ℕ.suc i)) x e = (ℕ.suc (ℕ.suc i), e)

length-swap : {A : Type 0} (xs : List A) → length (swap xs) ≡ length xs
length-swap [] = refl
length-swap (a ∷ []) = refl
length-swap (a ∷ b ∷ xs) = refl

abbrev swapping : Shuffle (Unit {0})
swapping = record {
  shuffle = λ xs rng. (swap xs, rng);
  taken = λ xs rng i x e. swapped xs i x e;
  kept = λ xs rng j x e. unswapped xs j x e;
  length-shuffle = λ xs rng. length-swap xs;
}

abbrev generators : Generators toy
generators = record {
  nullifier_position = true;
  proof_generation_key = true;
  scalar_of = λ n. false;
}

-- A prover that counts the proofs.
abbrev prover : TxProver toy
prover = record {
  SaplingProvingContext = ℕ;
  PublicKey = Bool;
  prove_spend =
      λ ctx key d rseed ar asset value anchor path rcv. (some (replicate 192 0, rcv, ar), ctx + 1);
  prove_convert = λ ctx allowed value anchor path rcv. (some (replicate 192 0, rcv), ctx + 1);
}

prover-IsTotal : IsTotal toy prover
prover-IsTotal = record { spends = λ ctx key d rseed ar asset value anchor path rcv n. cc n }

abbrev stored : StoredBuildParams toy
stored = record {
  spend_params = record { rcv = true; alpha = false } ∷ record { rcv = false; alpha = true } ∷ [];
  convert_params = [];
  output_params = [];
}

abbrev key_of : Unit {0} → Option (ProofGenerationKey toy)
key_of u = some (record { ak = true; nsk = true })

build_spends_lem_example :
    (ds : List (SpendDescription toy prover (Unit {0}))) × (indices : List ℕ) × (last : ℕ)
    × (build_spends toy generators prover swapping key_of stored twice tt 0
        ≡ some (ok (ds, indices, last)))
    × (length ds ≡ 2)
    × ((n : ℕ) (s : SpendDescriptionInfo toy (Unit {0}))
        → get_elem? twice.spends n ≡ some s
        → Made toy field hash generators prover swapping key_of stored twice ds indices n s)
build_spends_lem_example =
    build_spends_lem toy field hash generators prover swapping key_of stored twice tt 0
      twice-Reaches ((λ n. cc n), ((λ n. cc n), tt)) (omega arith) prover-IsTotal

-- The metadata has the indices of the two spends after the swap.
spends_run :
    (d e : SpendDescription toy prover (Unit {0})) × (build_spends toy generators prover swapping
        key_of stored twice tt 0
      ≡ some (ok (d ∷ e ∷ [], 1 ∷ 0 ∷ [], 2)))
unfolding build_spends hash_to_point nf cm_full_point
spends_run = (_, _, refl)

-- A generator that gives true and false in turns.
abbrev turns : RngCore toy Bool
turns = record {
  random = λ rng. (rng, invert rng);
  fill_bytes = λ n rng. (replicate n 0, invert rng);
}

abbrev asked : RngBuildParams toy Bool
asked = record {
  rng = true;
  spends = (0, record { rcv = true; alpha = false }) ∷ [];
  converts = [];
  outputs = [];
}

abbrev drawn : Params.SpendBuildParams toy
drawn = record { rcv = true; alpha = false }

first_asked : Params.spend_params toy turns (Params.new toy true) 0 ≡ (drawn, asked)
unfolding Params.spend_params Params.new masp.Base.Ord.nat_ord
first_asked = refl

asked_again : Params.spend_params toy turns asked 0 ≡ (drawn, asked)
unfolding Params.spend_params masp.Base.Ord.nat_ord
asked_again = refl

asked-Run : Run toy turns asked (Replay.spend 0 drawn ∷ Replay.spend 0 drawn ∷ [])
asked-Run =
    Run.spends asked asked (Replay.spend 0 drawn ∷ []) 0 drawn
      (Run.spends (Params.new toy true) asked [] 0 drawn (Run.start true) first_asked) asked_again

abbrev kept : StoredBuildParams toy
kept = record { spend_params = drawn ∷ []; convert_params = []; output_params = [] }

asked_stored : to_stored toy asked ≡ some kept
unfolding to_stored masp.Base.Ord.nat_ord
asked_stored = refl

asked-HasPrefixes : HasPrefixes toy turns asked
unfolding BTreeMap.get masp.Base.Ord.nat_ord
asked-HasPrefixes = record {
  spends = λ k h. ground arith;
  converts = λ k h. absurd (omega arith);
  outputs = λ k h. absurd (omega arith);
}

to_stored-Replays_example :
    (st : StoredBuildParams toy) × (to_stored toy asked ≡ some st)
    × All (Replays st) (Replay.spend 0 drawn ∷ Replay.spend 0 drawn ∷ [])
to_stored-Replays_example =
    to_stored-Replays toy turns asked (Replay.spend 0 drawn ∷ Replay.spend 0 drawn ∷ []) asked-Run
      asked-HasPrefixes
