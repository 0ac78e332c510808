-- ===== src/Governor/Policy/Execution.antt =====
-- What the policy layer of src/llm_mempool_governor.cpp lets through.
use membra_l3_cpp.Base.{
  ℕ, ◌<◌, ◌≡◌, ◌≢◌, refl, ◌↔◌, ◌⊎◌, inl, inr, String, str_eq, eq_iff, true, false, ◌&&◌, List, [],
  ◌∷◌, ◌++◌ as append_lists, if◌then◌else◌, arith, Bool-cases, All, append-nil,
}
use membra_l3_cpp.Base.Double.{Double}
use membra_l3_cpp.Governor.{
  do_nothing, update_oracle, reroute_liquidity, block_unsafe_action, MempoolState,
  PendingTransaction, ActionRecommendation, PolicyRule, SimulationResult,
}
use membra_l3_cpp.Governor.Analysis.{compute_next_action, recommend, decide}
use membra_l3_cpp.Governor.Policy.{
  is_action_safe, has_required_approvals, add_policy_rule, remove_policy_rule, over_threshold,
  is_within_risk_limits, execute_action, simulate_action,
}

module _ {W : Type 0} where
  -- No rule of the list has the identifier.
  abbrev pub Absent : String → List (PolicyRule W) → Type 0
  Absent id rules = All (λ (r : PolicyRule W). r.rule_id ≢ id) rules

  remove_policy_rule-Absent_lem :
      (id : String) (rules : List (PolicyRule W)) → Absent id (remove_policy_rule rules id)
  unfolding remove_policy_rule
  remove_policy_rule-Absent_lem id [] = tt
  remove_policy_rule-Absent_lem id (r ∷ rules) = elim (Bool-cases (str_eq r.rule_id id)) [
    | inl hit ↦ rw hit (remove_policy_rule-Absent_lem id rules)
    | inr miss ↦
        rw miss (ground (arith, eq_iff r.rule_id id), remove_policy_rule-Absent_lem id rules)
  ]

  remove_policy_rule-append :
      (id : String) (rules more : List (PolicyRule W))
      → remove_policy_rule (append_lists rules more) id
        ≡ append_lists (remove_policy_rule rules id) (remove_policy_rule more id)
  unfolding remove_policy_rule
  remove_policy_rule-append id [] more = refl
  remove_policy_rule-append id (r ∷ rules) more =
      ground (arith, remove_policy_rule-append id rules more)

  remove-add :
      (rules : List (PolicyRule W)) (rule : PolicyRule W) (id : String)
      → remove_policy_rule (add_policy_rule rules rule) id ≡ (
          if str_eq rule.rule_id id
          then remove_policy_rule rules id
          else add_policy_rule (remove_policy_rule rules id) rule)
  unfolding add_policy_rule remove_policy_rule
  remove-add rules rule id = ground (
    arith,
    remove_policy_rule-append id rules (rule ∷ []),
    append-nil (remove_policy_rule rules id),
  )

  -- A rule is removed under its identifier: after `remove_policy_rule` no rule has it, a rule that was
  -- added last under it is gone as if it had not been added, and one that was added under another
  -- stays last.
  pub remove_policy_rule-add_policy_rule :
      (rules : List (PolicyRule W)) (rule : PolicyRule W) (id : String)
      → Absent id (remove_policy_rule rules id)
        × (remove_policy_rule (add_policy_rule rules rule) id ≡ (
            if str_eq rule.rule_id id
            then remove_policy_rule rules id
            else add_policy_rule (remove_policy_rule rules id) rule))
  remove_policy_rule-add_policy_rule rules rule id =
      (remove_policy_rule-Absent_lem id rules, remove-add rules rule id)

module _ {W : Type 0} ⦃d : Double W⦄ where
  -- Each rule's threshold is kept.
  abbrev pub Within : ActionRecommendation → List (PolicyRule W) → Type 0
  Within a rules = All (λ r. over_threshold a r ≡ false) rules

  is_within_risk_limits_iff :
      (rules : List (PolicyRule W)) (a : ActionRecommendation)
      → (is_within_risk_limits rules a ≡ true) ↔ Within a rules
  unfolding is_within_risk_limits
  is_within_risk_limits_iff [] a = (λ h. tt, λ h. refl)
  is_within_risk_limits_iff (r ∷ rules) a =
      let rest = is_within_risk_limits_iff rules a in
      elim (Bool-cases (over_threshold a r)) [
        | inl over ↦ (λ h. absurd (ground arith), λ (low, h). absurd (ground arith))
        | inr within ↦ (λ h. (within, rest.0 (ground arith)), λ (low, h). rw within (rest.1 h))
      ]

  is_within_risk_limits-append :
      (rules more : List (PolicyRule W)) (a : ActionRecommendation)
      → is_within_risk_limits (append_lists rules more) a
        ≡ (is_within_risk_limits rules a && is_within_risk_limits more a)
  unfolding is_within_risk_limits
  is_within_risk_limits-append [] more a = refl
  is_within_risk_limits-append (r ∷ rules) more a =
      ground (arith, is_within_risk_limits-append rules more a)

  -- An action is executed exactly when all four checks pass: it blocks, does nothing or has a confidence
  -- above 50; no rule's risk threshold is passed; no human approval is required; the simulation
  -- succeeded.
  pub execute_action_iff :
      (rules : List (PolicyRule W)) (a : ActionRecommendation) (s : SimulationResult W)
      → (execute_action rules a s ≡ true) ↔ (
          ((a.action ≡ block_unsafe_action) ⊎ ((a.action ≡ do_nothing) ⊎ (50 < a.confidence)))
          × Within a rules
          × (a.requires_human_approval ≡ false)
          × (s.success ≡ true))
  unfolding execute_action is_action_safe has_required_approvals
  execute_action_iff rules a s =
      let (kept, back) = is_within_risk_limits_iff rules a in
      (
        λ h. (ground arith, kept (ground arith), ground arith, ground arith),
        λ (safe, within, free, ok). let limits = back within in ground arith,
      )

  -- More rules let less through: what is executed with a rule added is executed without it.
  pub add_policy_rule-execute_action :
      (rules : List (PolicyRule W)) (rule : PolicyRule W) (a : ActionRecommendation)
      (s : SimulationResult W)
      → execute_action (add_policy_rule rules rule) a s ≡ true
      → execute_action rules a s ≡ true
  unfolding execute_action add_policy_rule
  add_policy_rule-execute_action rules rule a s h =
      ground (arith, is_within_risk_limits-append rules (rule ∷ []) a)

  recommend-cases :
      (risk_threshold : W) (s : MempoolState W) (txs : List PendingTransaction)
      → let a = recommend risk_threshold s txs in
        ((a.action ≡ do_nothing) ⊎ (a.action ≡ reroute_liquidity))
        ⊎ ((a.action ≡ update_oracle)
            ⊎ ((a.action ≡ block_unsafe_action) × (a.requires_human_approval ≡ true)))
  unfolding recommend decide
  recommend-cases risk_threshold s [] = inr (inl refl)
  recommend-cases risk_threshold s (tx ∷ rest) = ground arith

  -- The governor's own recommendation, simulated and then put to the policy layer, is executed only if it
  -- is to do nothing or to reroute liquidity: `block_unsafe_action` asks for an approval that the policy
  -- layer never finds, and `update_oracle`, for an empty mempool, has no simulation.
  pub compute_next_action-execute_action :
      (risk_threshold : W) (rules : List (PolicyRule W)) (s : MempoolState W) (now : ℕ)
      → execute_action rules
          (compute_next_action risk_threshold s now)
          (simulate_action (compute_next_action risk_threshold s now))
        ≡ true
      → let a = compute_next_action risk_threshold s now in
        (a.action ≡ do_nothing) ⊎ (a.action ≡ reroute_liquidity)
  unfolding compute_next_action execute_action has_required_approvals simulate_action
  compute_next_action-execute_action risk_threshold rules s now h =
      elim (recommend-cases risk_threshold s s.pending_transactions) [
        | inl fine ↦ fine
        | inr (inl oracle) ↦ absurd (ground arith)
        | inr (inr blocked) ↦ absurd (ground arith)
      ]
