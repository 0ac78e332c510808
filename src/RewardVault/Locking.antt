-- ===== src/RewardVault/Locking.antt =====
-- The mutex of include/reward_vault.hpp.
use membra_l3_cpp.Base.{ℕ, ◌≡◌, String, false, ◌||◌, ltb, ◌==◌, if◌then◌else◌, arith}
use membra_l3_cpp.Base.Double.{Double}
use membra_l3_cpp.RewardVault.{
  RewardVault, returned, deadlock, create_reward_entry, get_worker_daily_claimed,
  max_reward_per_receipt,
}

module _ {W : Type 0} ⦃d : Double W⦄ where
  -- `create_reward_entry` never makes an entry: on a free vault it returns the empty id and changes
  -- nothing if the pool is empty or the amount above the cap per receipt, and otherwise, as it calls
  -- `get_worker_daily_claimed` with the mutex held, it locks itself out.
  pub create_reward_entry_lem :
      (v : RewardVault W) (worker receipt source : String) (amount indeterminate : ℕ)
      (now t₁ t₂ : W)
      → v.held ≡ false
      → create_reward_entry v worker receipt amount source now t₁ t₂ indeterminate ≡ (
          if (v.pool_balance == 0) || ltb max_reward_per_receipt amount
          then returned ("", v)
          else deadlock)
  unfolding create_reward_entry get_worker_daily_claimed
  create_reward_entry_lem v worker receipt source amount indeterminate now t₁ t₂ free = ground arith
