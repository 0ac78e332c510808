-- ===== src/ZkCompute/Distributor/Ledger.antt =====
-- The balances of `RewardDistributor` against the list of the rewards that were distributed.
use mathlib.Core.Path.{fun_ext}
use membra_l3_cpp.Base.{
  ℕ, ◌+◌, ◌%◌, ◌^◌, ◌<◌, ◌≡◌, refl, String, str_eq, eq_iff, List, [], ◌∷◌, arith, if◌then◌else◌,
  inl, inr, Option-cases,
}
use membra_l3_cpp.Base.Dict.{lookup, get_or, lookup-insert, total, total-insert, total-insert_new}
use membra_l3_cpp.Base.Word.{add64}
use membra_l3_cpp.ZkCompute.{ZkComputeProof}
use membra_l3_cpp.ZkCompute.Distributor.{
  RewardDistributor, new_distributor, distribute_reward, get_total_rewards_distributed,
}

-- The proofs presented, with the wallets to reward.
abbrev pub Calls : Type 0
Calls = List (ZkComputeProof × String)

unfoldable pub run : RewardDistributor → Calls → RewardDistributor
run s [] = s
run s ((proof, wallet) ∷ calls) = run (distribute_reward s proof wallet).1 calls

-- What a verified proof is worth.
abbrev pub worth : ZkComputeProof → ℕ
worth proof = if str_eq proof.verification_status "verified" then proof.reward_amount else 0

-- The rewards for one wallet.
unfoldable pub owed : Calls → String → ℕ
owed [] w = 0
owed ((proof, wallet) ∷ calls) w = (if str_eq wallet w then worth proof else 0) + owed calls w

-- The abstract view of the balances.
abbrev pub balance_of : RewardDistributor → String → ℕ
balance_of s w = get_or 0 (lookup w s.reward_balances)

step-balance_of :
    (s : RewardDistributor) (proof : ZkComputeProof) (wallet w : String)
    → balance_of (distribute_reward s proof wallet).1 w % 2 ^ 64
      ≡ (balance_of s w + (if str_eq wallet w then worth proof else 0)) % 2 ^ 64
unfolding distribute_reward
step-balance_of s proof wallet w = ground (
  arith,
  lookup-insert wallet w (add64 (get_or 0 (lookup wallet s.reward_balances)) proof.reward_amount)
      s.reward_balances,
  eq_iff wallet w,
)

run-balance_of_from :
    (calls : Calls) (s : RewardDistributor) (w : String)
    → balance_of (run s calls) w % 2 ^ 64 ≡ (balance_of s w + owed calls w) % 2 ^ 64
unfolding run owed
run-balance_of_from [] s w = omega arith
run-balance_of_from ((proof, wallet) ∷ calls) s w = omega (
  arith,
  run-balance_of_from calls (distribute_reward s proof wallet).1 w,
  step-balance_of s proof wallet w,
)

-- Every balance is a 64-bit number.
abbrev Fit : RewardDistributor → Type 0
Fit s = (w : String) → balance_of s w < 2 ^ 64

step-Fit :
    (s : RewardDistributor) (proof : ZkComputeProof) (wallet : String)
    → Fit s
    → Fit (distribute_reward s proof wallet).1
unfolding distribute_reward
step-Fit s proof wallet fit w = ground (
  arith,
  lookup-insert wallet w (add64 (get_or 0 (lookup wallet s.reward_balances)) proof.reward_amount)
      s.reward_balances,
  fit w,
)

run-Fit : (calls : Calls) (s : RewardDistributor) → Fit s → Fit (run s calls)
unfolding run
run-Fit [] s fit = fit
run-Fit ((proof, wallet) ∷ calls) s fit =
    run-Fit calls (distribute_reward s proof wallet).1 (step-Fit s proof wallet fit)

-- After any calls of `distribute_reward` the balances, read as a function of the wallet, are what the
-- verified proofs among the calls owe each wallet, modulo 2 ^ 64: a proof that is presented again is
-- paid again.
pub run-balance_of :
    (calls : Calls) → balance_of (run new_distributor calls) ≡ (λ w. owed calls w % 2 ^ 64)
unfolding lookup
run-balance_of calls = fun_ext λ w. omega (
  arith,
  run-balance_of_from calls new_distributor w,
  run-Fit calls new_distributor (λ v. omega arith) w,
)

-- The sum of the balances.
abbrev pub held : RewardDistributor → ℕ
held s = total (λ amount. amount) s.reward_balances

step-held :
    (s : RewardDistributor) (proof : ZkComputeProof) (wallet : String)
    → s.total_rewards_distributed ≡ held s % 2 ^ 64
    → (distribute_reward s proof wallet).1.total_rewards_distributed
      ≡ held (distribute_reward s proof wallet).1 % 2 ^ 64
unfolding distribute_reward
step-held s proof wallet h = elim (Option-cases (lookup wallet s.reward_balances)) [
  | inl gone ↦ ground (
    arith,
    total-insert_new (λ amount. amount) wallet (add64 0 proof.reward_amount) s.reward_balances gone,
  )
  | inr (old, found) ↦ ground (
    arith,
    total-insert (λ amount. amount) wallet (add64 old proof.reward_amount) old s.reward_balances
        found,
  )
]

run-held_from :
    (calls : Calls) (s : RewardDistributor)
    → s.total_rewards_distributed ≡ held s % 2 ^ 64
    → (run s calls).total_rewards_distributed ≡ held (run s calls) % 2 ^ 64
unfolding run
run-held_from [] s h = h
run-held_from ((proof, wallet) ∷ calls) s h =
    run-held_from calls (distribute_reward s proof wallet).1 (step-held s proof wallet h)

-- After any calls of `distribute_reward`, `get_total_rewards_distributed` is the sum of all balances,
-- modulo 2 ^ 64: nothing is counted that no wallet has.
pub run-get_total_rewards_distributed :
    (calls : Calls)
    → get_total_rewards_distributed (run new_distributor calls)
      ≡ held (run new_distributor calls) % 2 ^ 64
unfolding get_total_rewards_distributed total
run-get_total_rewards_distributed calls = run-held_from calls new_distributor refl
