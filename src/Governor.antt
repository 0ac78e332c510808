-- ===== src/Governor.antt =====
-- The types of include/llm_mempool_governor.hpp, over any type `W` of doubles. What the governor decides
-- is in Governor/Analysis, what the policy layer lets through in Governor/Policy. A signed time stamp,
-- which is only copied, is a number; the map of permissions is one of numbers.
pub mod Analysis
pub mod Policy
pub mod Observation
pub mod Router
pub mod Api
mod Tests
use membra_l3_cpp.Base.{ℕ, String, Bool, false, List, []}
use membra_l3_cpp.Base.Dict.{Dict}
use membra_l3_cpp.Base.Double.{Double}

pub data TransactionIntent : Type 0 where
  unknown arbitrage liquidity_provision liquidity_removal swap bridge stake : TransactionIntent
  unstake governance nft_mint nft_transfer spam attack mev_extraction : TransactionIntent

-- `static_cast<int>` of the intent.
abbrev pub code : TransactionIntent → ℕ
code unknown = 0
code arbitrage = 1
code liquidity_provision = 2
code liquidity_removal = 3
code swap = 4
code bridge = 5
code stake = 6
code unstake = 7
code governance = 8
code nft_mint = 9
code nft_transfer = 10
code spam = 11
code attack = 12
code mev_extraction = 13

pub data NextAction : Type 0 where
  do_nothing update_oracle trigger_alert create_merkle_proof schedule_worker : NextAction
  reroute_liquidity rebalance_pool hedge_exposure bridge_liquidity : NextAction
  sponsor_user_tx delay_tx require_human_approval block_unsafe_action : NextAction

pub record PendingTransaction : Type 0 where
  pub transaction_hash : String
  pub network : String
  pub from_address : String
  pub to_address : String
  pub value : ℕ
  pub payload : String
  pub gas_price : ℕ
  pub gas_limit : ℕ
  pub timestamp : ℕ

pub record MempoolState (W : Type 0) : Type 0 where
  pub pending_transactions : List PendingTransaction
  pub confirmed_transactions : List PendingTransaction
  pub oracle_prices : Dict W
  pub liquidity_depth : Dict W
  pub route_state : Dict String
  pub wallet_permissions : Dict ℕ
  pub protocol_kpis : Dict W
  pub snapshot_timestamp : ℕ

pub record TransactionAnalysis (W : Type 0) : Type 0 where
  pub transaction_hash : String
  pub intent : TransactionIntent
  pub arbitrage_opportunity : W
  pub mev_risk : W
  pub bridge_demand : W
  pub liquidity_shift : W
  pub spam_or_attack_probability : W
  pub price_impact_estimate : W
  pub confirmation_risk : W
  pub confidence : ℕ
  pub risk_score : ℕ
  pub rationale : String

pub record ActionRecommendation : Type 0 where
  pub action : NextAction
  pub target_protocol : String
  pub confidence : ℕ
  pub risk_score : ℕ
  pub requires_human_approval : Bool
  pub unsigned_transaction_plan : String
  pub simulation_result : String
  pub policy_compliance_proof : String
  pub timestamp : ℕ

pub record PolicyRule (W : Type 0) : Type 0 where
  pub rule_id : String
  pub condition : String
  pub action : String
  pub priority : ℕ
  pub requires_human_approval : Bool
  pub max_risk_threshold : W
  pub min_confidence_threshold : W

pub record SimulationResult (W : Type 0) : Type 0 where
  pub success : Bool
  pub expected_profit : W
  pub expected_gas_cost : W
  pub expected_slippage : W
  pub execution_time_seconds : W
  pub error_message : String
  pub warnings : List String

-- The recommendation of the default constructor.
abbrev pub no_recommendation : ActionRecommendation
no_recommendation = record {
  action = do_nothing;
  target_protocol = "";
  confidence = 0;
  risk_score = 0;
  requires_human_approval = false;
  unsigned_transaction_plan = "";
  simulation_result = "";
  policy_compliance_proof = "";
  timestamp = 0;
}
