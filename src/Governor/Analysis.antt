-- ===== src/Governor/Analysis.antt =====
-- `review_transaction` and `compute_next_action` of `LLMMempoolGovernor`, src/llm_mempool_governor.cpp.
-- The thresholds and rules of the governor are arguments where they are read; Governor/Observation has
-- its state. `static_cast<uint8_t>` of a double is `to_u64` modulo 2 ^ 8; `std::string::find` is
-- `has_prefix` at place 0 and `contains` anywhere.
use Prim.Native.String.{◌++◌}
use Prim.Native.Char as Char
use membra_l3_cpp.Base.{
  ℕ, ◌%◌, ◌^◌, String, str_eq, Bool, true, false, ◌&&◌, ◌||◌, List, [], ◌∷◌, ltb, ◌==◌, length,
  if◌then◌else◌,
}
use membra_l3_cpp.Base.Decimal.{to_string}
use membra_l3_cpp.Base.Dict.{Dict}
use membra_l3_cpp.Base.Ordered.{in_key_order}
use membra_l3_cpp.Base.Double.{Double}
use membra_l3_cpp.Governor.{
  TransactionIntent, unknown, swap, governance, bridge, stake, nft_mint, code, update_oracle,
  reroute_liquidity, block_unsafe_action, do_nothing, PendingTransaction, MempoolState,
  TransactionAnalysis, ActionRecommendation, no_recommendation,
}

abbrev has_prefix : String → String → Bool
has_prefix String.[] s = true
has_prefix (String.◌∷◌ c p) String.[] = false
has_prefix (String.◌∷◌ c p) (String.◌∷◌ e s) = (Char.code c == Char.code e) && has_prefix p s

-- Whether the text occurs in the other.
abbrev contains : String → String → Bool
contains part String.[] = has_prefix part ""
contains part (String.◌∷◌ c s) = has_prefix part (String.◌∷◌ c s) || contains part s

unfoldable pub classify_intent : PendingTransaction → TransactionIntent
classify_intent tx =
    if str_eq tx.payload "" && ltb 0 tx.value
    then swap
    else if has_prefix "0x" tx.payload
    then governance
    else if contains "bridge" tx.payload
    then bridge
    else if contains "stake" tx.payload
    then stake
    else if contains "mint" tx.payload
    then nft_mint
    else unknown

module _ {W : Type 0} ⦃d : Double W⦄ where
  abbrev to_u8 : W → ℕ
  to_u8 x = d.to_u64 x % 2 ^ 8

  abbrev pub detect_arbitrage : PendingTransaction → W
  detect_arbitrage tx = if ltb 1_000_000 tx.value then d.lit 3 10 else d.lit 1 10

  abbrev pub detect_mev_risk : PendingTransaction → W
  detect_mev_risk tx = if ltb 1_000_000_000 tx.gas_price then d.lit 5 10 else d.lit 1 10

  unfoldable pub depth_loop : W → Dict W → W
  depth_loop sum [] = sum
  depth_loop sum ((pool, depth) ∷ rest) = depth_loop (d.add sum depth) rest

  unfoldable pub estimate_price_impact : PendingTransaction → MempoolState W → W
  estimate_price_impact tx s =
      let total_value = depth_loop (d.lit 0 1) (in_key_order s.liquidity_depth) in
      let share = d.div (d.of_u64 tx.value) total_value in
      if d.lt (d.lit 0 1) total_value
      then (if d.lt (d.lit 1 1) share then d.lit 1 1 else share)
      else d.lit 0 1

  unfoldable pub review_transaction : PendingTransaction → MempoolState W → TransactionAnalysis W
  review_transaction tx s =
      let mev = detect_mev_risk tx in
      let spam = d.lit 0 1 in
      let impact = estimate_price_impact tx s in
      let confidence =
        to_u8 (d.mul (d.mul (d.sub (d.lit 1 1) mev) (d.sub (d.lit 1 1) spam)) (d.lit 100 1)) in
      let risk = to_u8 (
        d.mul
          (d.add (d.add (d.mul mev (d.lit 4 10)) (d.mul spam (d.lit 3 10)))
            (d.mul impact (d.lit 3 10)))
          (d.lit 100 1)) in
      record {
        transaction_hash = tx.transaction_hash;
        intent = classify_intent tx;
        arbitrage_opportunity = detect_arbitrage tx;
        mev_risk = mev;
        bridge_demand = d.lit 0 1;
        liquidity_shift = d.lit 0 1;
        spam_or_attack_probability = spam;
        price_impact_estimate = impact;
        confirmation_risk = d.lit 1 10;
        confidence = confidence;
        risk_score = risk;
        rationale =
            "Transaction classified as "
            ++ (to_string (code (classify_intent tx))
                ++ (" with confidence "
                    ++ (to_string confidence ++ ("% and risk score " ++ (to_string risk ++ "%")))));
      }

  -- The sums of `arbitrage_opportunity` and of the risk over the pending transactions.
  unfoldable pub review_loop : W → W → MempoolState W → List PendingTransaction → W × W
  review_loop arb risk s [] = (arb, risk)
  review_loop arb risk s (tx ∷ rest) =
      let a = review_transaction tx s in
      review_loop (d.add arb a.arbitrage_opportunity)
        (d.add risk (d.div (d.of_u64 a.risk_score) (d.lit 100 1))) s rest

  -- The action for the average risk and the summed arbitrage, against the threshold.
  unfoldable pub decide : W → W → W → ActionRecommendation
  decide risk_threshold avg_risk total_arbitrage =
      if d.lt risk_threshold avg_risk
      then record no_recommendation { action = block_unsafe_action; requires_human_approval = true }
      else if d.lt (d.lit 1 2) total_arbitrage
      then record no_recommendation { action = reroute_liquidity; target_protocol = "uniswap" }
      else record no_recommendation { action = do_nothing }

  unfoldable pub recommend : W → MempoolState W → List PendingTransaction → ActionRecommendation
  recommend risk_threshold s [] = record no_recommendation {
    action = update_oracle;
    confidence = 100;
    risk_score = 0;
  }
  recommend risk_threshold s (tx ∷ rest) =
      let sums = review_loop (d.lit 0 1) (d.lit 0 1) s (tx ∷ rest) in
      let avg_risk = d.div sums.1 (d.of_u64 (length (tx ∷ rest))) in
      record (decide risk_threshold avg_risk sums.0) {
        confidence = to_u8 (d.mul (d.sub (d.lit 1 1) avg_risk) (d.lit 100 1));
        risk_score = to_u8 (d.mul avg_risk (d.lit 100 1));
      }

  -- `now` is the clock in seconds.
  unfoldable pub compute_next_action : W → MempoolState W → ℕ → ActionRecommendation
  compute_next_action risk_threshold s now =
      record (recommend risk_threshold s s.pending_transactions) { timestamp = now }
