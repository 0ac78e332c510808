-- ===== src/RewardVault.antt =====
-- include/reward_vault.hpp, over any type `W` of doubles. The mutex is part of the state: a thread that
-- locks it again while it holds it never returns, which is the outcome `deadlock`. Readings of the
-- clock are arguments. `entries_` is an association list in the order of its loops.
pub mod Locking
pub mod Accounts
mod Tests
use Prim.Native.String.{◌++◌}
use membra_l3_cpp.Base.{
  ℕ, ◌^◌, String, str_eq, Bool, true, false, ◌&&◌, Option, none, some, List, [], ◌∷◌, ltb, ◌==◌,
  if◌then◌else◌,
}
use membra_l3_cpp.Base.Dict.{Dict, lookup, insert}
use membra_l3_cpp.Base.Double.{Double}
use membra_l3_cpp.Base.Word.{add64, sub64}

pub record RewardVaultEntry (W : Type 0) : Type 0 where
  pub entry_id : String
  pub worker_address : String
  pub receipt_id : String
  pub amount_lamports : ℕ
  pub source : String
  pub timestamp : W
  pub claimed : Bool
  pub claimed_at : W
  pub pool_id : String
  pub pool_balance_before : ℕ
  pub pool_balance_after : ℕ
  pub payout_possible : Bool
  pub funding_source : String

pub record RewardVault (W : Type 0) : Type 0 where
  pub entries : Dict (RewardVaultEntry W)
  pub held : Bool
  pub total_rewards_available : ℕ
  pub total_rewards_claimed : ℕ
  pub pool_balance : ℕ

pub data Outcome (A : Type 0) : Type 0 where
  returned : A → Outcome A
  deadlock : Outcome A

infixl 5 ◌>>=◌
abbrev pub ◌>>=◌ : {A B : Type 0} → Outcome A → (A → Outcome B) → Outcome B
returned a >>= f = f a
deadlock >>= f = deadlock

abbrev pub max_reward_per_receipt : ℕ
max_reward_per_receipt = 1_000_000_000

abbrev pub max_reward_per_worker_per_day : ℕ
max_reward_per_worker_per_day = 10_000_000_000

abbrev pub max_pool_balance : ℕ
max_pool_balance = 1_000_000_000_000

abbrev pub initial : {W : Type 0} → ℕ → RewardVault W
initial balance = record {
  entries = [];
  held = false;
  total_rewards_available = balance;
  total_rewards_claimed = 0;
  pool_balance = balance;
}

module _ {W : Type 0} where
  -- `std::lock_guard`: lock, run the body, unlock.
  abbrev pub with_lock :
      {A : Type 0}
      → RewardVault W
      → (RewardVault W → Outcome (A × RewardVault W))
      → Outcome (A × RewardVault W)
  with_lock v body =
      if v.held
      then deadlock
      else (do (a, v') ← body (record v { held = true }); returned (a, record v' { held = false }))

  deposit_locked : ℕ → RewardVault W → Outcome (Bool × RewardVault W)
  deposit_locked amount v =
      if ltb max_pool_balance (add64 v.pool_balance amount)
      then returned (false, v)
      else returned (
        true,
        record v {
          pool_balance = add64 v.pool_balance amount;
          total_rewards_available = add64 v.total_rewards_available amount;
        },
      )

  unfoldable pub deposit_to_pool : RewardVault W → ℕ → Outcome (Bool × RewardVault W)
  unfolding deposit_locked
  deposit_to_pool v amount = with_lock v (deposit_locked amount)

  -- The entry that a claim leaves.
  abbrev pub paid : RewardVault W → RewardVaultEntry W → W → RewardVaultEntry W
  paid v e now = record e {
    claimed = true;
    claimed_at = now;
    pool_balance_after = sub64 v.pool_balance e.amount_lamports;
  }

  claim_locked : String → W → RewardVault W → Outcome (Bool × RewardVault W)
  claim_locked id now v = elim (lookup id v.entries) [
    | none ↦ returned (false, v)
    | some e ↦
        if e.claimed
        then returned (false, v)
        else if v.pool_balance == 0
        then returned (false, v)
        else if ltb v.pool_balance e.amount_lamports
        then returned (false, v)
        else returned (
          true,
          record v {
            entries = insert id (paid v e now) v.entries;
            total_rewards_claimed = add64 v.total_rewards_claimed e.amount_lamports;
            pool_balance = sub64 v.pool_balance e.amount_lamports;
          },
        )
  ]

  unfoldable pub claim_reward : RewardVault W → String → W → Outcome (Bool × RewardVault W)
  unfolding claim_locked
  claim_reward v id now = with_lock v (claim_locked id now)

  unfoldable pub remaining_rewards : RewardVault W → ℕ
  remaining_rewards v = sub64 v.total_rewards_available v.total_rewards_claimed

  unfoldable pub get_entry :
      RewardVault W → String → Outcome (Option (RewardVaultEntry W) × RewardVault W)
  get_entry v id = with_lock v (λ v'. returned (lookup id v'.entries, v'))

  entries_of : String → Dict (RewardVaultEntry W) → List (RewardVaultEntry W)
  entries_of worker [] = []
  entries_of worker ((id, e) ∷ rest) =
      if str_eq e.worker_address worker then e ∷ entries_of worker rest else entries_of worker rest

  unfoldable pub get_worker_entries :
      RewardVault W → String → Outcome (List (RewardVaultEntry W) × RewardVault W)
  unfolding entries_of
  get_worker_entries v worker = with_lock v (λ v'. returned (entries_of worker v'.entries, v'))

module _ {W : Type 0} ⦃d : Double W⦄ where
  -- The loop of `get_worker_daily_claimed`.
  unfoldable pub claimed_since : String → W → Dict (RewardVaultEntry W) → ℕ → ℕ
  claimed_since worker day_start [] total = total
  claimed_since worker day_start ((id, e) ∷ rest) total = claimed_since worker day_start rest (
      if str_eq e.worker_address worker && e.claimed && d.le day_start e.claimed_at
      then add64 total e.amount_lamports
      else total)

  unfoldable pub get_worker_daily_claimed : RewardVault W → String → W → Outcome (ℕ × RewardVault W)
  get_worker_daily_claimed v worker now =
      with_lock v
        λ v'. returned (claimed_since worker (d.sub now (d.lit 86_400 1)) v'.entries 0, v')

  -- `pool_balance_after` is not initialised: it is the argument `indeterminate`.
  abbrev new_entry :
      RewardVault W → String → String → String → ℕ → String → W → ℕ → RewardVaultEntry W
  new_entry v id worker receipt amount source now indeterminate = record {
    entry_id = id;
    worker_address = worker;
    receipt_id = receipt;
    amount_lamports = amount;
    source = source;
    timestamp = now;
    claimed = false;
    claimed_at = d.lit 0 1;
    pool_id = "main_pool";
    pool_balance_before = v.pool_balance;
    pool_balance_after = indeterminate;
    payout_possible = true;
    funding_source = "treasury_or_api_usage";
  }

  -- `create_reward_entry` after the daily amount is known; `t₁` and `t₂` are read for the id and for
  -- the time stamp.
  create_checked :
      String
      → String
      → ℕ
      → String
      → W
      → W
      → ℕ
      → ℕ × RewardVault W
      → Outcome (String × RewardVault W)
  create_checked worker receipt amount source t₁ t₂ indeterminate (daily, v) =
      if ltb max_reward_per_worker_per_day (add64 daily amount)
      then returned ("", v)
      else if ltb v.pool_balance amount
      then returned ("", v)
      else (let id = "reward_" ++ (worker ++ ("_" ++ d.shown t₁)) in
          returned (
            id,
            record v {
              entries =
                  insert id (new_entry v id worker receipt amount source t₂ indeterminate)
                    v.entries;
            },
          ))

  create_locked :
      String
      → String
      → ℕ
      → String
      → W
      → W
      → W
      → ℕ
      → RewardVault W
      → Outcome (String × RewardVault W)
  unfolding create_checked
  create_locked worker receipt amount source now t₁ t₂ indeterminate v =
      if v.pool_balance == 0
      then returned ("", v)
      else if ltb max_reward_per_receipt amount
      then returned ("", v)
      else (get_worker_daily_claimed v worker now
          >>= create_checked worker receipt amount source t₁ t₂ indeterminate)

  unfoldable pub create_reward_entry :
      RewardVault W
      → String
      → String
      → ℕ
      → String
      → W
      → W
      → W
      → ℕ
      → Outcome (String × RewardVault W)
  unfolding create_locked
  create_reward_entry v worker receipt amount source now t₁ t₂ indeterminate =
      with_lock v (create_locked worker receipt amount source now t₁ t₂ indeterminate)
