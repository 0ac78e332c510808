-- ===== src/Staking/Totals.antt =====
-- The counters of include/compute_staking.hpp against the stakes.
use membra_l3_cpp.Base.{
  ℕ, ◌%◌, ◌^◌, ◌<◌, ◌≡◌, refl, inl, inr, String, Bool, true, false, not, ◌||◌, none, some, arith,
  Option-cases, Bool-cases, if◌then◌else◌, List, [], ◌∷◌,
}
use membra_l3_cpp.Base.Dict.{
  lookup, insert, total, total-insert, total-insert_new, le-total, lookup-insert_self,
}
use membra_l3_cpp.Base.Double.{Double}
use membra_l3_cpp.Base.Word.{sub64}
use membra_l3_cpp.Staking.{
  ComputeStake, ComputeStaking, initial, stake_compute, stake_id_of, new_stake, unstake_compute,
  closed, consume_loop, consume_gas_allowance, calculate_time_rewards,
}
use membra_l3_cpp.Staking.Consume.{
  Fit, Fit-insert, Fit-lookup, consume_gas_allowance_lem, consume_loop-total,
}

pub data Call (W : Type 0) : Type 0 where
  stakes_for : String → ℕ → ℕ → ℕ → W → W → Call W
  unstakes : String → W → W → Call W
  consumes : String → ℕ → Call W

module _ {W : Type 0} where
  -- What an active stake counts for.
  abbrev pub active_cores : ComputeStake W → ℕ
  active_cores k = if k.active then k.cpu_cores else 0

  abbrev pub active_units : ComputeStake W → ℕ
  active_units k = if k.active then k.compute_units else 0

  -- The counters are the sums over the active stakes, modulo 2 ^ 64.
  pub record IsCounted (s : ComputeStaking W) : Type 0 where
    pub fit : Fit s.stakes
    pub cores : s.total_cpu_cores ≡ total active_cores s.stakes % 2 ^ 64
    pub units : s.total_staked_compute ≡ total active_units s.stakes % 2 ^ 64

  pub consume-IsCounted :
      (s : ComputeStaking W) (address : String) (cost : ℕ)
      → IsCounted s
      → IsCounted (consume_gas_allowance s address cost).1
  unfolding consume_gas_allowance
  consume-IsCounted s address cost c =
      let fit' = (consume_gas_allowance_lem s address cost c.fit).0 in
      elim (Option-cases (consume_loop address cost s.stakes)) [
        | inl e ↦ rw (e, consume_gas_allowance) c
        | inr (stakes', e) ↦ record {
          fit = fit';
          cores = ground (
            arith,
            c.cores,
            consume_loop-total active_cores address cost s.stakes stakes' (λ k. refl) e,
          );
          units = ground (
            arith,
            c.units,
            consume_loop-total active_units address cost s.stakes stakes' (λ k. refl) e,
          );
        }
      ]

  active_of :
      (k : ComputeStake W) (early : Bool) → (not k.active || early) ≡ false → k.active ≡ true
  active_of k early h = ground arith

  closed-IsCounted :
      (s : ComputeStaking W) (id : String) (credits : ℕ) (now : W) (k : ComputeStake W)
      → lookup id s.stakes ≡ some k
      → k.active ≡ true
      → IsCounted s
      → IsCounted (record s {
        stakes = insert id (closed k credits now) s.stakes;
        total_staked_compute = sub64 s.total_staked_compute k.compute_units;
        total_cpu_cores = sub64 s.total_cpu_cores k.cpu_cores;
      })
  closed-IsCounted s id credits now k e active c =
      let fits = Fit-lookup id k s.stakes c.fit e in
      let k' = closed k credits now in
      record {
        fit = Fit-insert id k' s.stakes c.fit fits;
        cores = ground (
          arith,
          total-insert active_cores id k' k s.stakes e,
          le-total active_cores id k s.stakes e,
        );
        units = ground (
          arith,
          total-insert active_units id k' k s.stakes e,
          le-total active_units id k s.stakes e,
        );
      }

  module _ ⦃d : Double W⦄ where
    pub stake-IsCounted :
        (s : ComputeStaking W) (address : String) (cores ram units : ℕ) (t₁ t₂ : W)
        → cores < 2 ^ 64
        → units < 2 ^ 64
        → lookup (stake_id_of address t₁) s.stakes ≡ none
        → IsCounted s
        → IsCounted (stake_compute s address cores ram units t₁ t₂).2
    unfolding stake_compute new_stake
    stake-IsCounted s address cores ram units t₁ t₂ hc hu fresh c =
        let id = stake_id_of address t₁ in
        let k = new_stake id address cores ram units t₂ in
        record {
          fit = Fit-insert id k s.stakes c.fit (omega arith, hc, hu);
          cores = omega (arith, c.cores, total-insert_new active_cores id k s.stakes fresh);
          units = omega (arith, c.units, total-insert_new active_units id k s.stakes fresh);
        }

    pub unstake-IsCounted :
        (s : ComputeStaking W) (id : String) (t₁ t₂ : W)
        → IsCounted s
        → IsCounted (unstake_compute s id t₁ t₂).1
    unfolding unstake_compute
    unstake-IsCounted s id t₁ t₂ c = elim (Option-cases (lookup id s.stakes)) [
      | inl e ↦ rw (e, unstake_compute) c
      | inr (k, e) ↦
          elim (Bool-cases (not k.active || d.lt (d.sub t₁ k.staked_at) (d.lit 3600 1))) [
            | inl refused ↦ rw (e, unstake_compute, refused) c
            | inr accepted ↦
                rw (e, unstake_compute, accepted)
                  (closed-IsCounted s id (calculate_time_rewards k (d.sub t₁ k.staked_at)) t₂ k e
                    (active_of k _ accepted) c)
          ]
    ]

    unfoldable pub step : ComputeStaking W → Call W → ComputeStaking W
    step s (stakes_for address cores ram units t₁ t₂) =
        (stake_compute s address cores ram units t₁ t₂).2
    step s (unstakes id t₁ t₂) = (unstake_compute s id t₁ t₂).1
    step s (consumes address cost) = (consume_gas_allowance s address cost).1

    -- The amounts of a new stake fit 64 bits, and its id is not taken.
    abbrev pub IsFresh : ComputeStaking W → Call W → Type 0
    IsFresh s (stakes_for address cores ram units t₁ t₂) =
        (cores < 2 ^ 64) × (units < 2 ^ 64) × (lookup (stake_id_of address t₁) s.stakes ≡ none)
    IsFresh s (unstakes id t₁ t₂) = Unit
    IsFresh s (consumes address cost) = Unit

    unfoldable pub run : ComputeStaking W → List (Call W) → ComputeStaking W
    run s [] = s
    run s (c ∷ cs) = run (step s c) cs

    abbrev pub AreFresh : ComputeStaking W → List (Call W) → Type 0
    AreFresh s [] = Unit
    AreFresh s (c ∷ cs) = IsFresh s c × AreFresh (step s c) cs

    step-IsCounted :
        (s : ComputeStaking W) (c : Call W) → IsFresh s c → IsCounted s → IsCounted (step s c)
    unfolding step
    step-IsCounted s (stakes_for address cores ram units t₁ t₂) f v =
        stake-IsCounted s address cores ram units t₁ t₂ f.0 f.1 f.2 v
    step-IsCounted s (unstakes id t₁ t₂) f v = unstake-IsCounted s id t₁ t₂ v
    step-IsCounted s (consumes address cost) f v = consume-IsCounted s address cost v

    run-IsCounted_from :
        (cs : List (Call W)) (s : ComputeStaking W)
        → AreFresh s cs
        → IsCounted s
        → IsCounted (run s cs)
    unfolding run
    run-IsCounted_from [] s f v = v
    run-IsCounted_from (c ∷ cs) s f v =
        run-IsCounted_from cs (step s c) f.1 (step-IsCounted s c f.0 v)

    -- After any history of stakes, unstakes and charges in which no new stake takes over an id,
    -- `total_cpu_cores` and `total_staked_compute` are the sums over the active stakes, modulo 2 ^ 64.
    pub run-IsCounted : (cs : List (Call W)) → AreFresh initial cs → IsCounted (run initial cs)
    unfolding total
    run-IsCounted cs f =
        run-IsCounted_from cs initial f (record { fit = tt; cores = refl; units = refl })

    -- Where `unstake_compute` succeeds, the stake was known, active and an hour old; it is then left
    -- inactive, and any second call fails and changes nothing.
    pub unstake_compute_lem :
        (s : ComputeStaking W) (id : String) (t₁ t₂ t₃ t₄ : W) (credits : ℕ) (s' : ComputeStaking W)
        → unstake_compute s id t₁ t₂ ≡ (some credits, s')
        → (k : ComputeStake W) × (lookup id s.stakes ≡ some k)
          × (k.active ≡ true)
          × (d.lt (d.sub t₁ k.staked_at) (d.lit 3600 1) ≡ false)
          × (lookup id s'.stakes ≡ some (closed k credits t₂))
          × (unstake_compute s' id t₃ t₄ ≡ (none, s'))
    unfolding unstake_compute
    unstake_compute_lem s id t₁ t₂ t₃ t₄ credits s' h = elim (Option-cases (lookup id s.stakes)) [
      | inl e ↦ absurd (ground arith)
      | inr (k, e) ↦
          let stored = lookup-insert_self id (closed k credits t₂) s.stakes in
          (k, e, ground arith, ground arith, ground (arith, stored), ground (arith, stored))
    ]
