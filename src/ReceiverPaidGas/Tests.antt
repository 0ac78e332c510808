-- ===== src/ReceiverPaidGas/Tests.antt =====
-- Receiver-paid gas, include/receiver_paid_gas.hpp, at concrete inputs.
use membra_l3_cpp.Base.{false, ℕ, ◌≡◌, ◌↔◌, true, some, List, [], ◌∷◌}
use membra_l3_cpp.Base.Dict.{lookup}
use membra_l3_cpp.Base.Fixed.{fixed}
use membra_l3_cpp.ReceiverPaidGas.{
  GasReceipt, ReceiverPaidGas, initial, calculate_compensation, receiver,
}
use membra_l3_cpp.ReceiverPaidGas.Receipts.{Call, receive, switch, run}
use membra_l3_cpp.ReceiverPaidGas.Compensation.{IsEligible, calculate_compensation_iff}

abbrev calls : List (Call ℕ)
calls = switch true ∷ receive "tx" "bob" "alice" 5000 1000 7 "sig" 20 21 ∷ []

abbrev gas : ReceiverPaidGas ℕ
gas = run (initial 10) calls

calculate_compensation_iff_example :
    ((calculate_compensation gas "gas_0" 40 41).0 ≡ true)
    ↔ ((r : GasReceipt ℕ) × (lookup "gas_0" gas.receipts ≡ some r) × IsEligible gas r 40 41)
calculate_compensation_iff_example = calculate_compensation_iff gas "gas_0" 40 41

abbrev receipt : GasReceipt ℕ
receipt = record {
  receipt_id = "gas_0";
  tx_id = "tx";
  receiver_wallet = "bob";
  sender_wallet = "alice";
  gas_paid_lamports = 5000;
  priority_fee_lamports = 1000;
  total_fee_lamports = 6000;
  payment_source = receiver;
  fee_payer = "bob";
  slot = 7;
  block_time = 20;
  tx_signature = "sig";
  used_for_compensation = false;
  created_at = 21;
}
