-- ===== src/Governor/Tests.antt =====
-- The mempool governor, src/llm_mempool_governor.cpp, at concrete inputs.
use membra_l3_cpp.Base.{ℕ, ◌≡◌, refl, ◌⊎◌, List, [], ◌∷◌}
use membra_l3_cpp.Base.Ordered.{in_key_order}
use membra_l3_cpp.Base.Fixed.{fixed}
use membra_l3_cpp.Governor.{
  do_nothing, reroute_liquidity, PendingTransaction, MempoolState, PolicyRule,
}
use membra_l3_cpp.Governor.Analysis.{
  compute_next_action, recommend, decide, review_loop, review_transaction, estimate_price_impact,
  depth_loop,
}
use membra_l3_cpp.Governor.Policy.{
  safety_rule, execute_action, simulate_action, is_action_safe, is_within_risk_limits,
  has_required_approvals,
}
use membra_l3_cpp.Governor.Policy.Execution.{compute_next_action-execute_action}

-- A mempool with one transaction of high value.
abbrev transaction : PendingTransaction
transaction = record {
  transaction_hash = "h1";
  network = "solana";
  from_address = "alice";
  to_address = "bob";
  value = 2_000_000;
  payload = "";
  gas_price = 1000;
  gas_limit = 100_000;
  timestamp = 5;
}

abbrev mempool : MempoolState ℕ
mempool = record {
  pending_transactions = transaction ∷ transaction ∷ [];
  confirmed_transactions = [];
  oracle_prices = [];
  liquidity_depth = [];
  route_state = [];
  wallet_permissions = [];
  protocol_kpis = [];
  snapshot_timestamp = 5;
}

abbrev rules : List (PolicyRule ℕ)
rules = safety_rule ∷ []

compute_next_action-execute_action_example :
    ((compute_next_action 700_000 mempool 9).action ≡ do_nothing)
    ⊎ ((compute_next_action 700_000 mempool 9).action ≡ reroute_liquidity)
unfolding compute_next_action recommend decide review_loop review_transaction estimate_price_impact
    in_key_order depth_loop execute_action simulate_action is_action_safe is_within_risk_limits
    has_required_approvals
compute_next_action-execute_action_example =
    compute_next_action-execute_action 700_000 rules mempool 9 refl
