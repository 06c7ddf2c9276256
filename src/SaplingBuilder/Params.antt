-- ===== src/SaplingBuilder/Params.antt =====
-- masp_primitives/src/transaction/components/sapling/builder.rs: the random parameters of a build.
-- `RngBuildParams` makes them when they are first asked for, and `StoredBuildParams` has them in
-- vectors. `none` is a panic, or the `None` of `to_stored`.
pub mod Drain
pub mod Replay
use masp.Base.{ℕ, zero, suc, ◌+◌, Option, none, some, List, [], ◌∷◌, length, get_elem?}
use masp.Base.Bytes.{Bytes}
use masp.Base.Maybe.{◌>>=◌}
use masp.Base.Ord.{nat_ord}
use masp.BTreeMap
use masp.BTreeMap.{BTreeMap}
use masp.Sapling.{SaplingCrypto}

pub record SpendBuildParams (c : SaplingCrypto) : Type 0 where
  pub rcv : c.Scalar
  pub alpha : c.Scalar

pub record ConvertBuildParams (c : SaplingCrypto) : Type 0 where
  pub rcv : c.Scalar

pub record OutputBuildParams (c : SaplingCrypto) : Type 0 where
  pub rcv : c.Scalar
  pub rcm : c.Scalar
  pub rseed : Bytes

pub record StoredBuildParams (c : SaplingCrypto) : Type 0 where
  pub spend_params : List (SpendBuildParams c)
  pub convert_params : List (ConvertBuildParams c)
  pub output_params : List (OutputBuildParams c)

module _ (c : SaplingCrypto) where
  unfoldable pub spend_rcv : StoredBuildParams c → ℕ → Option c.Scalar
  spend_rcv params i = do p ← get_elem? params.spend_params i; some p.rcv

  unfoldable pub spend_alpha : StoredBuildParams c → ℕ → Option c.Scalar
  spend_alpha params i = do p ← get_elem? params.spend_params i; some p.alpha

  unfoldable pub convert_rcv : StoredBuildParams c → ℕ → Option c.Scalar
  convert_rcv params i = do p ← get_elem? params.convert_params i; some p.rcv

  unfoldable pub output_rcv : StoredBuildParams c → ℕ → Option c.Scalar
  output_rcv params i = do p ← get_elem? params.output_params i; some p.rcv

  unfoldable pub output_rcm : StoredBuildParams c → ℕ → Option c.Scalar
  output_rcm params i = do p ← get_elem? params.output_params i; some p.rcm

  unfoldable pub output_rseed : StoredBuildParams c → ℕ → Option Bytes
  output_rseed params i = do p ← get_elem? params.output_params i; some p.rseed

-- A generator of random numbers: a random scalar, and random bytes.
pub record RngCore (c : SaplingCrypto) (Rng : Type 0) : Type 0 where
  pub random : Rng → c.Scalar × Rng
  pub fill_bytes : ℕ → Rng → Bytes × Rng

pub record RngBuildParams (c : SaplingCrypto) (Rng : Type 0) : Type 0 where
  pub rng : Rng
  pub spends : BTreeMap ℕ (SpendBuildParams c)
  pub converts : BTreeMap ℕ (ConvertBuildParams c)
  pub outputs : BTreeMap ℕ (OutputBuildParams c)

module _ (c : SaplingCrypto) {Rng : Type 0} where
  unfoldable pub new : Rng → RngBuildParams c Rng
  new rng = record { rng = rng; spends = []; converts = []; outputs = [] }

-- `entry(i).or_insert_with(make)`, where `make` advances a generator: the value, the map after the
-- call, and the generator.
unfoldable pub or_insert_with :
    {V Rng : Type 0} → BTreeMap ℕ V → ℕ → (Rng → V × Rng) → Rng → V × BTreeMap ℕ V × Rng
unfolding BTreeMap.get BTreeMap.insert
or_insert_with m i make rng = elim (BTreeMap.get m i) [
  | some v ↦ (v, m, rng)
  | none ↦ let made = make rng in (made.0, BTreeMap.insert m i made.0, made.1)
]

module _ (c : SaplingCrypto) {Rng : Type 0} (g : RngCore c Rng) where
  unfoldable pub random_spend : Rng → SpendBuildParams c × Rng
  random_spend rng =
      let (rcv, rng') = g.random rng in
      let (alpha, rng'') = g.random rng' in (record { rcv = rcv; alpha = alpha }, rng'')

  unfoldable pub random_convert : Rng → ConvertBuildParams c × Rng
  random_convert rng = let (rcv, rng') = g.random rng in (record { rcv = rcv }, rng')

  unfoldable pub random_output : Rng → OutputBuildParams c × Rng
  random_output rng =
      let (rcv, rng') = g.random rng in
      let (rcm, rng'') = g.random rng' in
      let (rseed, rng''') = g.fill_bytes 32 rng'' in
      (record { rcv = rcv; rcm = rcm; rseed = rseed }, rng''')

  unfoldable pub spend_params : RngBuildParams c Rng → ℕ → SpendBuildParams c × RngBuildParams c Rng
  unfolding or_insert_with random_spend
  spend_params r i =
      let (p, spends, rng) = or_insert_with r.spends i random_spend r.rng in
      (p, record r { spends = spends; rng = rng })

  unfoldable pub convert_params :
      RngBuildParams c Rng → ℕ → ConvertBuildParams c × RngBuildParams c Rng
  unfolding or_insert_with random_convert
  convert_params r i =
      let (p, converts, rng) = or_insert_with r.converts i random_convert r.rng in
      (p, record r { converts = converts; rng = rng })

  unfoldable pub output_params :
      RngBuildParams c Rng → ℕ → OutputBuildParams c × RngBuildParams c Rng
  unfolding or_insert_with random_output
  output_params r i =
      let (p, outputs, rng) = or_insert_with r.outputs i random_output r.rng in
      (p, record r { outputs = outputs; rng = rng })

-- The loop of `to_stored` over `n` indices from `i` on, which removes each.
unfoldable pub drain : {V : Type 0} → BTreeMap ℕ V → ℕ → ℕ → Option (List V)
unfolding BTreeMap.get BTreeMap.remove
drain m i zero = some []
drain m i (suc n) = do
  v ← BTreeMap.get m i
  rest ← drain (BTreeMap.remove m i) (suc i) n
  some (v ∷ rest)

module _ (c : SaplingCrypto) {Rng : Type 0} where
  unfoldable pub to_stored : RngBuildParams c Rng → Option (StoredBuildParams c)
  unfolding drain
  to_stored r = do
    spends ← drain r.spends 0 (length r.spends)
    converts ← drain r.converts 0 (length r.converts)
    outputs ← drain r.outputs 0 (length r.outputs)
    some (record { spend_params = spends; convert_params = converts; output_params = outputs })
