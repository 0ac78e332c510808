-- ===== src/Governor/Api.antt =====
-- `MempoolGovernorAPI` of src/llm_mempool_governor.cpp: the handlers and the texts they answer with. The
-- source does not read the request: each handler works on the default values.
use Prim.Native.String.{◌++◌}
use membra_l3_cpp.Base.{ℕ, String, Bool, [], if◌then◌else◌}
use membra_l3_cpp.Base.Decimal.{to_string}
use membra_l3_cpp.Base.Double.{Double}
use membra_l3_cpp.Merkle.{Bytes}
use membra_l3_cpp.Governor.{
  NextAction, do_nothing, update_oracle, trigger_alert, create_merkle_proof, schedule_worker,
  reroute_liquidity, rebalance_pool, hedge_exposure, bridge_liquidity, sponsor_user_tx, delay_tx,
  require_human_approval, block_unsafe_action, PendingTransaction, MempoolState,
  TransactionAnalysis, ActionRecommendation, SimulationResult, no_recommendation, code, unknown,
}
use membra_l3_cpp.Governor.Analysis.{review_transaction, compute_next_action}
use membra_l3_cpp.Governor.Policy.{simulate_action}
use membra_l3_cpp.Governor.Observation.{LlmMempoolGovernor, observe_mempool}
use membra_l3_cpp.Governor.Router.{compile_route}

-- `static_cast<int>` of the action.
abbrev pub action_code : NextAction → ℕ
action_code do_nothing = 0
action_code update_oracle = 1
action_code trigger_alert = 2
action_code create_merkle_proof = 3
action_code schedule_worker = 4
action_code reroute_liquidity = 5
action_code rebalance_pool = 6
action_code hedge_exposure = 7
action_code bridge_liquidity = 8
action_code sponsor_user_tx = 9
action_code delay_tx = 10
action_code require_human_approval = 11
action_code block_unsafe_action = 12

abbrev pub bool_text : Bool → String
bool_text b = if b then "true" else "false"

-- The default constructors.
abbrev pub no_transaction : PendingTransaction
no_transaction = record {
  transaction_hash = "";
  network = "";
  from_address = "";
  to_address = "";
  value = 0;
  payload = "";
  gas_price = 0;
  gas_limit = 0;
  timestamp = 0;
}

abbrev pub no_state : {W : Type 0} → MempoolState W
no_state = record {
  pending_transactions = [];
  confirmed_transactions = [];
  oracle_prices = [];
  liquidity_depth = [];
  route_state = [];
  wallet_permissions = [];
  protocol_kpis = [];
  snapshot_timestamp = 0;
}

unfoldable pub serialize_recommendation : ActionRecommendation → String
serialize_recommendation r =
    "{\"action\":"
    ++ (to_string (action_code r.action)
        ++ (",\"confidence\":"
            ++ (to_string r.confidence
                ++ (",\"risk_score\":"
                    ++ (to_string r.risk_score
                        ++ (",\"requires_human_approval\":"
                            ++ (bool_text r.requires_human_approval
                                ++ (",\"timestamp\":" ++ (to_string r.timestamp ++ "}")))))))))

module _ {W : Type 0} where
  unfoldable pub serialize_analysis : TransactionAnalysis W → String
  serialize_analysis a =
      "{\"transaction_hash\":\""
      ++ (a.transaction_hash
          ++ ("\",\"intent\":"
              ++ (to_string (code a.intent)
                  ++ (",\"confidence\":"
                      ++ (to_string a.confidence
                          ++ (",\"risk_score\":"
                              ++ (to_string a.risk_score
                                  ++ (",\"rationale\":\"" ++ (a.rationale ++ "\"}")))))))))

module _ {W : Type 0} ⦃d : Double W⦄ where
  abbrev pub no_analysis : TransactionAnalysis W
  no_analysis = record {
    transaction_hash = "";
    intent = unknown;
    arbitrage_opportunity = d.lit 0 1;
    mev_risk = d.lit 0 1;
    bridge_demand = d.lit 0 1;
    liquidity_shift = d.lit 0 1;
    spam_or_attack_probability = d.lit 0 1;
    price_impact_estimate = d.lit 0 1;
    confirmation_risk = d.lit 0 1;
    confidence = 0;
    risk_score = 0;
    rationale = "";
  }

  unfoldable pub serialize_simulation : SimulationResult W → String
  serialize_simulation s =
      "{\"success\":"
      ++ (bool_text s.success
          ++ (",\"expected_profit\":"
              ++ (d.printed s.expected_profit
                  ++ (",\"expected_gas_cost\":"
                      ++ (d.printed s.expected_gas_cost
                          ++ (",\"execution_time_seconds\":"
                              ++ (d.printed s.execution_time_seconds ++ "}")))))))

module _ (W : Type 0) ⦃d : Double W⦄ where
  unfoldable pub handle_observe_mempool : (Bytes → Bytes) → String → ℕ → ℕ → String
  handle_observe_mempool sha256 request_json ms seconds =
      let proof = observe_mempool {W = W} sha256 no_state ms seconds in
      "{\"observation_id\":\"" ++ (proof.observation_id ++ "\",\"status\":\"observed\"}")

  unfoldable pub handle_review_transaction : String → String
  handle_review_transaction request_json =
      serialize_analysis (review_transaction {W = W} no_transaction no_state)

  unfoldable pub handle_compute_next_action : LlmMempoolGovernor W → String → ℕ → String
  handle_compute_next_action g request_json now =
      serialize_recommendation (compute_next_action g.risk_threshold no_state now)

  unfoldable pub handle_route_from_signal : String → String
  handle_route_from_signal request_json =
      "{\"route\":\"" ++ (compile_route {W = W} no_analysis ++ "\"}")

  unfoldable pub handle_simulate_action : String → String
  handle_simulate_action request_json =
      serialize_simulation (simulate_action {W = W} no_recommendation)
