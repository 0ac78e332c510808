-- ===== src/Governor/Router.antt =====
-- `MempoolRouter` of src/llm_mempool_governor.cpp: texts for routes, hedges, bridges, alerts and workers.
-- The first entry of the map of routes is the one with the smallest key.
use Prim.Native.String.{◌++◌}
use membra_l3_cpp.Base.{ℕ, ◌-◌, String, [], ◌∷◌, leb, if◌then◌else◌}
use membra_l3_cpp.Base.Decimal.{to_string}
use membra_l3_cpp.Base.Double.{Double}
use membra_l3_cpp.Base.Ordered.{in_key_order}
use membra_l3_cpp.Governor.{MempoolState, TransactionAnalysis, code}

-- `100 - risk_score`, an `int`, as a stream prints it.
abbrev pub priority_text : ℕ → String
priority_text risk = if leb risk 100 then to_string (100 - risk) else "-" ++ to_string (risk - 100)

module _ {W : Type 0} where
  unfoldable pub compile_route : TransactionAnalysis W → String
  compile_route a =
      "route_"
      ++ (to_string (code a.intent)
          ++ ("_conf_" ++ (to_string a.confidence ++ ("_risk_" ++ to_string a.risk_score))))

  unfoldable pub route_bridge : TransactionAnalysis W → MempoolState W → String
  route_bridge a s = elim (in_key_order s.route_state) [
    | [] ↦ "bridge_" ++ (a.transaction_hash ++ "_network_unknown")
    | (network, route) ∷ rest ↦ "bridge_" ++ (a.transaction_hash ++ ("_network_" ++ network))
  ]

  unfoldable pub generate_alert : TransactionAnalysis W → String → String
  generate_alert a severity =
      "alert_"
      ++ (severity ++ ("_" ++ (a.transaction_hash ++ ("_intent_" ++ to_string (code a.intent)))))

  unfoldable pub schedule_worker_task : TransactionAnalysis W → String → String
  schedule_worker_task a task_type =
      "worker_"
      ++ (task_type
          ++ ("_" ++ (a.transaction_hash ++ ("_priority_" ++ priority_text a.risk_score))))

module _ {W : Type 0} ⦃d : Double W⦄ where
  unfoldable pub generate_hedge : TransactionAnalysis W → String
  generate_hedge a =
      "hedge_" ++ (a.transaction_hash ++ ("_amount_" ++ d.printed a.price_impact_estimate))
