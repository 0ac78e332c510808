-- ===== src/ReceiverPaidGas.antt =====
-- `ReceiverPaidGas` of include/receiver_paid_gas.hpp, over any type `W` of doubles. The mutexes
-- are not shown: each operation is one step, as it is under its mutex; `set_compensation_enabled` takes
-- none. Each reading of the clock is an argument, in the order of the readings.
pub mod Compensation
pub mod Receipts
mod Tests
use Prim.Native.String.{◌++◌}
use membra_l3_cpp.Base.{
  ℕ, String, str_eq, Bool, true, false, ◌&&◌, Option, some, none, [], ◌∷◌, ltb, min, if◌then◌else◌,
}
use membra_l3_cpp.Base.Decimal.{to_string}
use membra_l3_cpp.Base.Dict.{Dict, lookup, insert}
use membra_l3_cpp.Base.Double.{Double}
use membra_l3_cpp.Base.Word.{add64}

pub data GasPaymentSource : Type 0 where
  sender receiver protocol staked_compute : GasPaymentSource

pub record GasReceipt (W : Type 0) : Type 0 where
  pub receipt_id : String
  pub tx_id : String
  pub receiver_wallet : String
  pub sender_wallet : String
  pub gas_paid_lamports : ℕ
  pub priority_fee_lamports : ℕ
  pub total_fee_lamports : ℕ
  pub payment_source : GasPaymentSource
  pub fee_payer : String
  pub slot : ℕ
  pub block_time : W
  pub tx_signature : String
  pub used_for_compensation : Bool
  pub created_at : W

pub record GasOracleState (W : Type 0) : Type 0 where
  pub oracle_id : String
  pub chain : String
  pub cluster : String
  pub gas_twap_lamports : ℕ
  pub priority_fee_twap_lamports : ℕ
  pub sol_usd_twap : W
  pub membra_usd_twap : W
  pub last_updated_at : W
  pub stale_after_seconds : W

pub record ReceiverPaidGas (W : Type 0) : Type 0 where
  pub receipts : Dict (GasReceipt W)
  pub receipt_counter : ℕ
  pub oracle_state : GasOracleState W
  pub compensation_enabled : Bool
  pub max_compensation_per_tx : ℕ
  pub max_compensation_per_wallet_per_day : ℕ
  pub max_compensation_per_epoch : ℕ

module _ {W : Type 0} where
  unfoldable pub mark_compensated : ReceiverPaidGas W → String → Bool × ReceiverPaidGas W
  mark_compensated g id = elim (lookup id g.receipts) [
    | none ↦ (false, g)
    | some r ↦ (
      true,
      record g { receipts = insert id (record r { used_for_compensation = true }) g.receipts },
    )
  ]

  unfoldable pub set_compensation_enabled : ReceiverPaidGas W → Bool → ReceiverPaidGas W
  set_compensation_enabled g enabled = record g { compensation_enabled = enabled }

  abbrev pub get_oracle_state : ReceiverPaidGas W → GasOracleState W
  get_oracle_state g = g.oracle_state

  abbrev pub get_receipt : ReceiverPaidGas W → String → Option (GasReceipt W)
  get_receipt g id = lookup id g.receipts

  -- `update_oracle`
  unfoldable pub update_oracle : ReceiverPaidGas W → ℕ → ℕ → W → W → W → ReceiverPaidGas W
  update_oracle g gas_twap priority_fee_twap sol_usd membra_usd now = record g {
    oracle_state = record g.oracle_state {
      gas_twap_lamports = gas_twap;
      priority_fee_twap_lamports = priority_fee_twap;
      sol_usd_twap = sol_usd;
      membra_usd_twap = membra_usd;
      last_updated_at = now;
    };
  }

  abbrev pub next_id : ReceiverPaidGas W → String
  next_id g = "gas_" ++ to_string g.receipt_counter

module _ {W : Type 0} ⦃d : Double W⦄ where
  abbrev pub initial : W → ReceiverPaidGas W
  initial now = record {
    receipts = [];
    receipt_counter = 0;
    oracle_state = record {
      oracle_id = "gas_oracle_1";
      chain = "solana";
      cluster = "devnet";
      gas_twap_lamports = 5000;
      priority_fee_twap_lamports = 1000;
      sol_usd_twap = d.lit 150 1;
      membra_usd_twap = d.lit 1 10;
      last_updated_at = now;
      stale_after_seconds = d.lit 300 1;
    };
    compensation_enabled = false;
    max_compensation_per_tx = 1_000_000_000;
    max_compensation_per_wallet_per_day = 10_000_000_000;
    max_compensation_per_epoch = 100_000_000_000;
  }

  unfoldable pub is_stale : GasOracleState W → W → Bool
  is_stale o now = d.lt o.stale_after_seconds (d.sub now o.last_updated_at)

  -- `t₁` is read for `block_time`, `t₂` for `created_at`.
  unfoldable pub create_receipt :
      ReceiverPaidGas W
      → String
      → String
      → String
      → ℕ
      → ℕ
      → ℕ
      → String
      → W
      → W
      → String × ReceiverPaidGas W
  create_receipt g tx to from gas priority slot signature t₁ t₂ =
      let receipt : GasReceipt W = record {
        receipt_id = next_id g;
        tx_id = tx;
        receiver_wallet = to;
        sender_wallet = from;
        gas_paid_lamports = gas;
        priority_fee_lamports = priority;
        total_fee_lamports = add64 gas priority;
        payment_source = receiver;
        fee_payer = to;
        slot = slot;
        block_time = t₁;
        tx_signature = signature;
        used_for_compensation = false;
        created_at = t₂;
      } in
      (
        next_id g,
        record g {
          receipts = insert (next_id g) receipt g.receipts;
          receipt_counter = add64 g.receipt_counter 1;
        },
      )

  -- The receipts that the daily cap counts.
  abbrev pub counts_today : String → W → GasReceipt W → Bool
  counts_today wallet day_start r =
      str_eq r.receiver_wallet wallet && (r.used_for_compensation && d.le day_start r.created_at)

  unfoldable pub daily_loop : String → W → ℕ → Dict (GasReceipt W) → ℕ
  daily_loop wallet day_start total [] = total
  daily_loop wallet day_start total ((id, r) ∷ rest) =
      daily_loop wallet day_start
        (if counts_today wallet day_start r then add64 total r.total_fee_lamports else total) rest

  unfoldable pub get_wallet_daily_compensation : ReceiverPaidGas W → String → W → ℕ
  get_wallet_daily_compensation g wallet now =
      daily_loop wallet (d.sub now (d.lit 86_400 1)) 0 g.receipts

  unfoldable pub raw_compensation : GasOracleState W → GasReceipt W → ℕ
  raw_compensation o r =
      let gas_usd =
        d.mul (d.div (d.of_u64 r.total_fee_lamports) (d.lit 1_000_000_000 1)) o.sol_usd_twap in
      let tokens = d.div (d.mul gas_usd (d.lit 1 2)) o.membra_usd_twap in
      d.to_u64 (d.mul tokens (d.lit 1_000_000_000 1))

  -- `can_compensate` and the amount; `t₁` is read by `is_stale`, `t₂` for the daily cap.
  unfoldable pub calculate_compensation : ReceiverPaidGas W → String → W → W → Bool × ℕ
  calculate_compensation g id t₁ t₂ = elim (lookup id g.receipts) [
    | none ↦ (false, 0)
    | some r ↦
        if g.compensation_enabled
        then (if is_stale g.oracle_state t₁
            then (false, 0)
            else if r.used_for_compensation
            then (false, 0)
            else if ltb g.max_compensation_per_wallet_per_day
                (add64 (get_wallet_daily_compensation g r.receiver_wallet t₂) r.total_fee_lamports)
            then (false, 0)
            else (true, min (raw_compensation g.oracle_state r) g.max_compensation_per_tx))
        else (false, 0)
  ]
