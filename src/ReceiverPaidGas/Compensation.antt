-- ===== src/ReceiverPaidGas/Compensation.antt =====
-- `calculate_compensation` of include/receiver_paid_gas.hpp: when it grants, how much, and what the
-- daily cap counts.
use membra_l3_cpp.Base.{
  str_eq, ℕ, ◌+◌, ◌%◌, ◌^◌, ◌≤◌, ◌<◌, ◌≡◌, ◌↔◌, inl, inr, String, true, false, some, arith,
  Option-cases, Bool-cases, if◌then◌else◌, [], ◌∷◌, min,
}
use membra_l3_cpp.Base.Dict.{Dict, lookup, lookup-insert_self, total}
use membra_l3_cpp.Base.Double.{Double}
use membra_l3_cpp.Base.Word.{add64}
use membra_l3_cpp.ReceiverPaidGas.{
  GasReceipt, ReceiverPaidGas, is_stale, counts_today, daily_loop, get_wallet_daily_compensation,
  raw_compensation, calculate_compensation, mark_compensated,
}

module _ {W : Type 0} ⦃d : Double W⦄ where
  -- What a receipt counts for on a wallet's day: its fee, if it is the wallet's, was compensated, and is
  -- not from before the day's start.
  abbrev pub fee_spent : String → W → GasReceipt W → ℕ
  fee_spent wallet day_start r =
      if str_eq r.receiver_wallet wallet
      then (if r.used_for_compensation
          then (if d.le day_start r.created_at then r.total_fee_lamports else 0)
          else 0)
      else 0

  -- The fees that were compensated to a wallet in the last 86400 seconds.
  abbrev pub spent : ReceiverPaidGas W → String → W → ℕ
  spent g wallet now = total (fee_spent wallet (d.sub now (d.lit 86_400 1))) g.receipts

  fee_spent-eq :
      (wallet : String) (day_start : W) (r : GasReceipt W)
      → fee_spent wallet day_start r
        ≡ (if counts_today wallet day_start r then r.total_fee_lamports else 0)
  fee_spent-eq wallet day_start r = ground arith

  daily_loop_lem :
      (wallet : String) (day_start : W) (sum : ℕ) (m : Dict (GasReceipt W))
      → sum < 2 ^ 64
      → daily_loop wallet day_start sum m ≡ (sum + total (fee_spent wallet day_start) m) % 2 ^ 64
  unfolding daily_loop total
  daily_loop_lem wallet day_start sum [] h = omega arith
  daily_loop_lem wallet day_start sum ((id, r) ∷ rest) h =
      let fee = fee_spent-eq wallet day_start r in
      elim (Bool-cases (counts_today wallet day_start r)) [
        | inl counted ↦
            rw (fee, counted)
              (omega (
                arith,
                daily_loop_lem wallet day_start (add64 sum r.total_fee_lamports) rest (omega arith),
              ))
        | inr other ↦ rw (fee, other) (omega (arith, daily_loop_lem wallet day_start sum rest h))
      ]

  -- What a receipt must satisfy to be compensated.
  abbrev pub IsEligible : ReceiverPaidGas W → GasReceipt W → W → W → Type 0
  IsEligible g r t₁ t₂ =
      (g.compensation_enabled ≡ true)
      × (d.lt g.oracle_state.stale_after_seconds (d.sub t₁ g.oracle_state.last_updated_at) ≡ false)
      × (r.used_for_compensation ≡ false)
      × ((spent g r.receiver_wallet t₂ + r.total_fee_lamports) % 2 ^ 64
          ≤ g.max_compensation_per_wallet_per_day)

  -- What the daily cap is tested against, modulo 2 ^ 64.
  pub get_wallet_daily_compensation_lem :
      (g : ReceiverPaidGas W) (wallet : String) (now : W)
      → get_wallet_daily_compensation g wallet now ≡ spent g wallet now % 2 ^ 64
  unfolding get_wallet_daily_compensation
  get_wallet_daily_compensation_lem g wallet now =
      omega (arith, daily_loop_lem wallet (d.sub now (d.lit 86_400 1)) 0 g.receipts (omega arith))

  tested :
      (g : ReceiverPaidGas W) (wallet : String) (now : W) (fee : ℕ)
      → add64 (get_wallet_daily_compensation g wallet now) fee ≡ (spent g wallet now + fee) % 2 ^ 64
  tested g wallet now fee = omega (arith, get_wallet_daily_compensation_lem g wallet now)

  granted_of :
      (g : ReceiverPaidGas W) (id : String) (t₁ t₂ : W) (r : GasReceipt W)
      → lookup id g.receipts ≡ some r
      → IsEligible g r t₁ t₂
      → (calculate_compensation g id t₁ t₂).0 ≡ true
  unfolding calculate_compensation is_stale
  granted_of g id t₁ t₂ r found e =
      ground (arith, tested g r.receiver_wallet t₂ r.total_fee_lamports)

  calculate_compensation-IsEligible :
      (g : ReceiverPaidGas W) (id : String) (t₁ t₂ : W) (r : GasReceipt W)
      → lookup id g.receipts ≡ some r
      → (calculate_compensation g id t₁ t₂).0 ≡ true
      → IsEligible g r t₁ t₂
  unfolding calculate_compensation is_stale
  calculate_compensation-IsEligible g id t₁ t₂ r found granted =
      let sum = tested g r.receiver_wallet t₂ r.total_fee_lamports in
      (ground arith, ground arith, ground arith, ground (arith, sum))

  -- `calculate_compensation` grants exactly when compensation is enabled, the oracle's last update is
  -- not more than `stale_after_seconds` ago, the receipt exists and was not compensated, and the fees that
  -- were compensated to its wallet in the last 86400 seconds make with its own no more than the daily cap,
  -- summed modulo 2 ^ 64.
  pub calculate_compensation_iff :
      (g : ReceiverPaidGas W) (id : String) (t₁ t₂ : W)
      → ((calculate_compensation g id t₁ t₂).0 ≡ true)
        ↔ ((r : GasReceipt W) × (lookup id g.receipts ≡ some r) × IsEligible g r t₁ t₂)
  unfolding calculate_compensation is_stale
  calculate_compensation_iff g id t₁ t₂ = elim (Option-cases (lookup id g.receipts)) [
    | inl gone ↦ (λ granted. absurd (ground arith), λ (r, found, e). absurd (ground arith))
    | inr (r, found) ↦ (
      λ granted. (r, found, calculate_compensation-IsEligible g id t₁ t₂ r found granted),
      λ (q, at, e). granted_of g id t₁ t₂ q at e,
    )
  ]

  -- What is granted is the value of half the fee at the oracle's prices, but no more than the cap on one
  -- receipt; a refusal gives 0.
  pub calculate_compensation-amount :
      (g : ReceiverPaidGas W) (id : String) (t₁ t₂ : W) (r : GasReceipt W)
      → lookup id g.receipts ≡ some r
      → ((calculate_compensation g id t₁ t₂).1 ≡ (
          if (calculate_compensation g id t₁ t₂).0
          then min (raw_compensation g.oracle_state r) g.max_compensation_per_tx
          else 0))
        × ((calculate_compensation g id t₁ t₂).1 ≤ g.max_compensation_per_tx)
  unfolding calculate_compensation
  calculate_compensation-amount g id t₁ t₂ r found = ground arith

  -- A receipt that was marked is never compensated again, whatever the oracle and the clock say.
  pub mark_compensated-calculate_compensation :
      (g : ReceiverPaidGas W) (id : String) (t₁ t₂ : W)
      → calculate_compensation (mark_compensated g id).1 id t₁ t₂ ≡ (false, 0)
  unfolding calculate_compensation mark_compensated
  mark_compensated-calculate_compensation g id t₁ t₂ = elim (Option-cases (lookup id g.receipts)) [
    | inl gone ↦ ground arith
    | inr (r, found) ↦
        ground (arith, lookup-insert_self id (record r { used_for_compensation = true }) g.receipts)
  ]
