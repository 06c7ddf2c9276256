-- ===== src/Examples/Heights.antt =====
-- Block heights and network upgrades.
use masp.Base.{◌≡◌, ◌↔◌, refl, true, none}
use masp.Consensus.{
  BlockHeight, add, sub, height_range, is_nu_active, activation_height, test_network, masp_upgrade,
  branch_id,
}
use masp.Consensus.Branch.{Contains, height_range-is_nu_active}

abbrev ten : BlockHeight
ten = record { height = 10 }

abbrev twelve : BlockHeight
twelve = record { height = 12 }

-- A height overflows at 2 ^ 32, and is not negative.
panics : (add ten 4294967286 ≡ none) × (sub ten 11 ≡ none)
unfolding add sub
panics = (refl, refl)

height_range-is_nu_active_example :
    Contains (height_range (branch_id masp_upgrade) (activation_height test_network)) 10
    ↔ (is_nu_active (activation_height test_network) masp_upgrade ten ≡ true)
height_range-is_nu_active_example =
    height_range-is_nu_active (activation_height test_network) masp_upgrade ten
