-- ===== src/RewardVault/Tests.antt =====
-- The reward vault, include/reward_vault.hpp, at concrete inputs.
use membra_l3_cpp.Base.{ℕ, ◌≤◌, ◌≡◌, refl, true, false, [], ◌∷◌, arith}
use membra_l3_cpp.Base.Fixed.{fixed}
use membra_l3_cpp.RewardVault.{
  RewardVault, RewardVaultEntry, returned, deadlock, initial, create_reward_entry,
  remaining_rewards, max_pool_balance,
}
use membra_l3_cpp.RewardVault.Locking.{create_reward_entry_lem}
use membra_l3_cpp.RewardVault.Accounts.{deposits, claims, run, run-remaining_rewards}

abbrev one_sol : RewardVault ℕ
one_sol = initial 1_000_000_000

-- A pool of one SOL locks up on a reward of 5000 lamports.
create_reward_entry_example :
    create_reward_entry one_sol "worker" "receipt" 5000 "compute" 10 10 10 0 ≡ deadlock
create_reward_entry_example =
    create_reward_entry_lem one_sol "worker" "receipt" "compute" 5000 0 10 10 10 refl

abbrev entry : RewardVaultEntry ℕ
entry = record {
  entry_id = "e1";
  worker_address = "worker";
  receipt_id = "receipt";
  amount_lamports = 400;
  source = "compute";
  timestamp = 1;
  claimed = false;
  claimed_at = 0;
  pool_id = "membra_reward_pool_001";
  pool_balance_before = 1000;
  pool_balance_after = 1000;
  payout_possible = true;
  funding_source = "protocol_treasury";
}

abbrev vault : RewardVault ℕ
vault = record (initial 1000) { entries = ("e1", entry) ∷ [] }

run-remaining_rewards_example :
    (v : RewardVault ℕ) × (run vault (deposits 50 ∷ claims "e1" 7 ∷ []) ≡ returned v)
    × (v.held ≡ false)
    × (v.pool_balance ≤ max_pool_balance)
    × (remaining_rewards v ≡ v.pool_balance)
run-remaining_rewards_example =
    run-remaining_rewards (deposits 50 ∷ claims "e1" 7 ∷ []) vault (record {
      free = refl;
      capped = omega arith;
      available_fits = omega arith;
      claimed_fits = omega arith;
      balanced = refl;
    })
