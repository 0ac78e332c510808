-- ===== src/RewardVault/Accounts.antt =====
-- The amounts of include/reward_vault.hpp.
use membra_l3_cpp.Base.{
  ℕ, ◌+◌, ◌%◌, ◌^◌, ◌≤◌, ◌<◌, ◌≡◌, refl, inl, inr, String, Bool, true, false, some, arith,
  Option-cases, Bool-cases, if◌then◌else◌, List, [], ◌∷◌, ltb, leb, not, ◌&&◌, ◌==◌, ◌∙◌,
}
use membra_l3_cpp.Base.Dict.{lookup, insert}
use membra_l3_cpp.Base.Word.{add64, sub64}
use membra_l3_cpp.RewardVault.{
  RewardVault, RewardVaultEntry, Outcome, returned, ◌>>=◌, deposit_to_pool, claim_reward,
  remaining_rewards, max_pool_balance, paid, initial,
}

pub data Call (W : Type 0) : Type 0 where
  deposits : ℕ → Call W
  claims : String → W → Call W

module _ {W : Type 0} where
  -- The mutex is free, the pool is within its cap, and what is available and not yet claimed is the
  -- pool, modulo 2 ^ 64.
  pub record IsBalanced (v : RewardVault W) : Type 0 where
    pub free : v.held ≡ false
    pub capped : v.pool_balance ≤ max_pool_balance
    pub available_fits : v.total_rewards_available < 2 ^ 64
    pub claimed_fits : v.total_rewards_claimed < 2 ^ 64
    pub balanced : (v.pool_balance + v.total_rewards_claimed) % 2 ^ 64 ≡ v.total_rewards_available

  pub initial-IsBalanced : (balance : ℕ) → balance ≤ max_pool_balance → IsBalanced (initial balance)
  initial-IsBalanced balance h = ground arith

  unfoldable pub step : RewardVault W → Call W → Outcome (Bool × RewardVault W)
  step v (deposits amount) = deposit_to_pool v amount
  step v (claims id now) = claim_reward v id now

  unfoldable pub run : RewardVault W → List (Call W) → Outcome (RewardVault W)
  run v [] = returned v
  run v (c ∷ cs) = step v c >>= λ (done, v'). run v' cs

  -- The call returns, to a balanced vault.
  abbrev Keeps : Outcome (Bool × RewardVault W) → Type 0
  Keeps out = (done : Bool) × (v' : RewardVault W) × (out ≡ returned (done, v')) × IsBalanced v'

  deposit_to_pool-IsBalanced :
      (v : RewardVault W) (amount : ℕ) → IsBalanced v → Keeps (deposit_to_pool v amount)
  unfolding deposit_to_pool
  deposit_to_pool-IsBalanced v amount b =
      elim (Bool-cases (ltb max_pool_balance (add64 v.pool_balance amount))) [
        | inl full ↦ (false, v, ground arith, b)
        | inr room ↦ (
          true,
          record v {
            pool_balance = add64 v.pool_balance amount;
            total_rewards_available = add64 v.total_rewards_available amount;
          },
          ground arith,
          ground arith,
        )
      ]

  abbrev claimed_vault : RewardVault W → String → RewardVaultEntry W → W → RewardVault W
  claimed_vault v id e now = record v {
    entries = insert id (paid v e now) v.entries;
    total_rewards_claimed = add64 v.total_rewards_claimed e.amount_lamports;
    pool_balance = sub64 v.pool_balance e.amount_lamports;
  }

  abbrev payable : RewardVault W → RewardVaultEntry W → Bool
  payable v e = not e.claimed && (not (v.pool_balance == 0) && leb e.amount_lamports v.pool_balance)

  claim_reward-found :
      (v : RewardVault W) (id : String) (now : W) (e : RewardVaultEntry W)
      → v.held ≡ false
      → lookup id v.entries ≡ some e
      → claim_reward v id now
        ≡ (if payable v e then returned (true, claimed_vault v id e now) else returned (false, v))
  unfolding claim_reward
  claim_reward-found v id now e free found = ground arith

  claim_reward-IsBalanced :
      (v : RewardVault W) (id : String) (now : W) → IsBalanced v → Keeps (claim_reward v id now)
  claim_reward-IsBalanced v id now b = elim (Option-cases (lookup id v.entries)) [
    | inl e ↦ (false, v, unfold claim_reward in ground arith, b)
    | inr (e, found) ↦ elim (Bool-cases (payable v e)) [
      | inl pays ↦ (
        true,
        claimed_vault v id e now,
        claim_reward-found v id now e b.free found ∙ rw pays,
        ground arith,
      )
      | inr refused ↦ (false, v, claim_reward-found v id now e b.free found ∙ rw refused, b)
    ]
  ]

  step-Keeps : (v : RewardVault W) (c : Call W) → IsBalanced v → Keeps (step v c)
  unfolding step
  step-Keeps v (deposits amount) b = deposit_to_pool-IsBalanced v amount b
  step-Keeps v (claims id now) b = claim_reward-IsBalanced v id now b

  IsBalanced-remaining : (v : RewardVault W) → IsBalanced v → remaining_rewards v ≡ v.pool_balance
  unfolding remaining_rewards
  IsBalanced-remaining v b = omega arith

  run-IsBalanced :
      (cs : List (Call W)) (v : RewardVault W)
      → IsBalanced v
      → (v' : RewardVault W) × (run v cs ≡ returned v') × IsBalanced v'
  unfolding run
  run-IsBalanced [] v b = (v, refl, b)
  run-IsBalanced (c ∷ cs) v b =
      let (done, v', e, b') = step-Keeps v c b in
      let (end, rest, balanced) = run-IsBalanced cs v' b' in (end, rw e rest, balanced)

  -- From a balanced vault any history of deposits and claims returns, with the mutex free; the pool is
  -- then within its cap of 1000 SOL, and `remaining_rewards` is the pool's balance.
  pub run-remaining_rewards :
      (cs : List (Call W)) (v : RewardVault W)
      → IsBalanced v
      → (v' : RewardVault W) × (run v cs ≡ returned v')
        × (v'.held ≡ false)
        × (v'.pool_balance ≤ max_pool_balance)
        × (remaining_rewards v' ≡ v'.pool_balance)
  run-remaining_rewards cs v b =
      let (v', e, b') = run-IsBalanced cs v b in
      (v', e, b'.free, b'.capped, IsBalanced-remaining v' b')

  -- A deposit whose sum with the pool passes 2 ^ 64 slips under the cap: it is accepted, and the pool
  -- shrinks.
  pub deposit_to_pool-wraps :
      (v : RewardVault W) (amount : ℕ)
      → IsBalanced v
      → amount < 2 ^ 64
      → 2 ^ 64 ≤ v.pool_balance + amount
      → (v' : RewardVault W) × (deposit_to_pool v amount ≡ returned (true, v'))
        × (v'.pool_balance < v.pool_balance)
        × (v'.pool_balance + 2 ^ 64 ≡ v.pool_balance + amount)
  unfolding deposit_to_pool
  deposit_to_pool-wraps v amount b small over = (
    record v {
      pool_balance = add64 v.pool_balance amount;
      total_rewards_available = add64 v.total_rewards_available amount;
    },
    ground arith,
    omega arith,
    omega arith,
  )
