-- ===== src/Governor/Policy.antt =====
-- `OvermanifoldPolicy`, and `simulate_action`, `check_policy_compliance` and `route_from_signal` of
-- `LLMMempoolGovernor`, of src/llm_mempool_governor.cpp. A policy is its list of rules.
pub mod Execution
use Prim.Native.String.{◌++◌}
use membra_l3_cpp.Base.{
  ℕ, String, str_eq, Bool, true, false, not, ◌&&◌, List, [], ◌∷◌, ◌++◌ as append_lists, ltb,
  if◌then◌else◌,
}
use membra_l3_cpp.Base.Double.{Double}
use membra_l3_cpp.Governor.{
  TransactionIntent, arbitrage, liquidity_provision, bridge, swap, spam, attack, NextAction,
  do_nothing, reroute_liquidity, hedge_exposure, block_unsafe_action, TransactionAnalysis,
  ActionRecommendation, PolicyRule, SimulationResult,
}

unfoldable pub is_action_safe : ActionRecommendation → Bool
is_action_safe a = elim a.action [
  | block_unsafe_action ↦ true
  | do_nothing ↦ true
  | _ ↦ ltb 50 a.confidence
]

unfoldable pub has_required_approvals : ActionRecommendation → Bool
has_required_approvals a = if a.requires_human_approval then false else true

module _ {W : Type 0} where
  unfoldable pub add_policy_rule : List (PolicyRule W) → PolicyRule W → List (PolicyRule W)
  add_policy_rule rules rule = append_lists rules (rule ∷ [])

  unfoldable pub remove_policy_rule : List (PolicyRule W) → String → List (PolicyRule W)
  remove_policy_rule [] id = []
  remove_policy_rule (r ∷ rules) id =
      let rest = remove_policy_rule rules id in if str_eq r.rule_id id then rest else r ∷ rest

  abbrev pub get_active_rules : List (PolicyRule W) → List (PolicyRule W)
  get_active_rules rules = rules

  unfoldable pub route_from_signal : TransactionAnalysis W → String
  route_from_signal a = elim a.intent [
    | arbitrage ↦ "route_arbitrage_" ++ a.transaction_hash
    | liquidity_provision ↦ "route_liquidity_provision_" ++ a.transaction_hash
    | bridge ↦ "route_bridge_" ++ a.transaction_hash
    | swap ↦ "route_swap_" ++ a.transaction_hash
    | spam ↦ "route_block_" ++ a.transaction_hash
    | attack ↦ "route_block_" ++ a.transaction_hash
    | _ ↦ "route_monitor_" ++ a.transaction_hash
  ]

module _ {W : Type 0} ⦃d : Double W⦄ where
  -- The rule of the constructor.
  abbrev pub safety_rule : PolicyRule W
  safety_rule = record {
    rule_id = "safety_check";
    condition = "always";
    action = "verify";
    priority = 100;
    requires_human_approval = true;
    max_risk_threshold = d.lit 1 2;
    min_confidence_threshold = d.lit 6 10;
  }

  abbrev pub over_threshold : ActionRecommendation → PolicyRule W → Bool
  over_threshold a r = d.lt (d.mul r.max_risk_threshold (d.lit 100 1)) (d.of_u64 a.risk_score)

  abbrev pub under_confidence : ActionRecommendation → PolicyRule W → Bool
  under_confidence a r =
      d.lt (d.of_u64 a.confidence) (d.mul r.min_confidence_threshold (d.lit 100 1))

  unfoldable pub is_within_risk_limits : List (PolicyRule W) → ActionRecommendation → Bool
  is_within_risk_limits [] a = true
  is_within_risk_limits (r ∷ rules) a =
      let rest = is_within_risk_limits rules a in if over_threshold a r then false else rest

  unfoldable pub execute_action :
      List (PolicyRule W) → ActionRecommendation → SimulationResult W → Bool
  execute_action rules a s =
      if not (is_action_safe a)
      then false
      else if not (is_within_risk_limits rules a)
      then false
      else if not (has_required_approvals a)
      then false
      else if not s.success
      then false
      else true

  unfoldable pub check_policy_compliance : ActionRecommendation → List (PolicyRule W) → Bool
  check_policy_compliance a [] = true
  check_policy_compliance a (r ∷ rules) =
      let rest = check_policy_compliance a rules in
      if over_threshold a r then false else if under_confidence a r then false else rest

  -- A simulation that went well.
  abbrev pub simulated : W → W → W → W → SimulationResult W
  simulated profit gas slippage time = record {
    success = true;
    expected_profit = profit;
    expected_gas_cost = gas;
    expected_slippage = slippage;
    execution_time_seconds = time;
    error_message = "";
    warnings = [];
  }

  unfoldable pub simulate_action : ActionRecommendation → SimulationResult W
  simulate_action a = elim a.action [
    | reroute_liquidity ↦ simulated (d.lit 1 1000) (d.lit 1 10_000) (d.lit 5 10_000) (d.lit 2 1)
    | hedge_exposure ↦ simulated (d.lit 5 10_000) (d.lit 5 100_000) (d.lit 2 10_000) (d.lit 15 10)
    | block_unsafe_action ↦ simulated (d.lit 0 1) (d.lit 0 1) (d.lit 0 1) (d.lit 1 10)
    | do_nothing ↦ simulated (d.lit 0 1) (d.lit 0 1) (d.lit 0 1) (d.lit 0 1)
    | _ ↦ record (simulated (d.lit 0 1) (d.lit 0 1) (d.lit 0 1) (d.lit 0 1)) {
      success = false;
      error_message = "Unknown action type";
    }
  ]
