-- ===== src/Examples/Keys.antt =====
-- Child indices, diversifier indices and the diversifier search.
use masp.Base.{ℕ, ◌%◌, ◌≡◌, ◌⊎◌, refl, false, Bool, none, some, [], ◌∷◌, ◌++◌, arith}
use masp.Base.{◌==◌}
use masp.Base.Bytes.{Bytes}
use masp.Base.Result.{ok}
use masp.Zip32.{
  DiversifierIndex, hardened, serialize, deserialize, increment, increment_bytes, find_diversifier,
  find_loop, try_diversifier_internal,
}
use masp.Zip32.Increment.{index_of, number}
use masp.Zip32.Index.{deserialize-serialize_child}
use masp.Zip32.Search.{IsLeast, NoneValid, find_diversifier_lem}

-- A diversifier with a multiple of 3 in front is valid.
abbrev by_three : Bytes → Bool
by_three [] = false
by_three (b ∷ bs) = b % 3 == 0

abbrev same : Bytes → Bytes
same bs = bs

abbrev start : DiversifierIndex
start = record { bytes = 4 ∷ 1 ∷ 0 ∷ 0 ∷ 0 ∷ 0 ∷ 0 ∷ 0 ∷ 0 ∷ 0 ∷ 0 ∷ [] }

-- From 260 on, 262 is the first.
search_runs :
    find_loop same by_three 5 start
    ≡ some (
        some (
          record { bytes = 6 ∷ 1 ∷ 0 ∷ 0 ∷ 0 ∷ 0 ∷ 0 ∷ 0 ∷ 0 ∷ 0 ∷ 0 ∷ [] },
          6 ∷ 1 ∷ 0 ∷ 0 ∷ 0 ∷ 0 ∷ 0 ∷ 0 ∷ 0 ∷ 0 ∷ 0 ∷ [],
        ))
unfolding find_loop increment increment_bytes try_diversifier_internal
search_runs = refl

find_diversifier_lem_example :
    ((n : ℕ) × (d : Bytes) × (find_diversifier same by_three start ≡ some (some (index_of n, d)))
      × IsLeast same by_three (number start) n d)
    ⊎ ((find_diversifier same by_three start ≡ some none) × NoneValid same by_three (number start))
find_diversifier_lem_example = find_diversifier_lem same by_three start refl (ground arith)

deserialize-serialize_child_example :
    (bytes : Bytes) × (serialize (hardened 7) ≡ some bytes)
    × ((rest : Bytes) → deserialize (bytes ++ rest) ≡ ok (hardened 7, rest))
deserialize-serialize_child_example = deserialize-serialize_child (hardened 7) (omega arith)
