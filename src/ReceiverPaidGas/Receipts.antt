-- ===== src/ReceiverPaidGas/Receipts.antt =====
-- The receipts of include/receiver_paid_gas.hpp across calls.
use mathlib.Core.Path.{subst}
use membra_l3_cpp.Base.{
  ℕ, ◌+◌, ◌^◌, ◌≤◌, ◌<◌, ◌≡◌, sym, inl, inr, String, Bool, true, some, none, arith, Option-cases,
  List, [], ◌∷◌, length,
}
use membra_l3_cpp.Base.Dict.{lookup, lookup-insert_new}
use membra_l3_cpp.Base.Double.{Double}
use membra_l3_cpp.Base.Word.{add64-eq_of_lt}
use membra_l3_cpp.Base.Fresh.{Issued, nil-Issued, insert-Issued, update-Issued, Issued-fresh}
use membra_l3_cpp.ReceiverPaidGas.{
  GasReceipt, ReceiverPaidGas, initial, next_id, create_receipt, mark_compensated, update_oracle,
  set_compensation_enabled,
}

-- One call of an operation that changes the state.
pub data Call (W : Type 0) : Type 0 where
  receive : String → String → String → ℕ → ℕ → ℕ → String → W → W → Call W
  mark : String → Call W
  quote : ℕ → ℕ → W → W → W → Call W
  switch : Bool → Call W

module _ {W : Type 0} ⦃d : Double W⦄ where
  abbrev pub step : ReceiverPaidGas W → Call W → ReceiverPaidGas W
  step g (receive tx to from gas priority slot signature t₁ t₂) =
      (create_receipt g tx to from gas priority slot signature t₁ t₂).1
  step g (mark id) = (mark_compensated g id).1
  step g (quote gas priority sol membra now) = update_oracle g gas priority sol membra now
  step g (switch enabled) = set_compensation_enabled g enabled

  abbrev pub run : ReceiverPaidGas W → List (Call W) → ReceiverPaidGas W
  run g [] = g
  run g (c ∷ cs) = run (step g c) cs

  abbrev IsIssued : ℕ → ReceiverPaidGas W → Type 0
  IsIssued bound g = (g.receipt_counter ≤ bound) × Issued "gas_" g.receipt_counter g.receipts

  step-IsIssued :
      (bound : ℕ) (g : ReceiverPaidGas W) (c : Call W)
      → bound + 1 < 2 ^ 64
      → IsIssued bound g
      → IsIssued (bound + 1) (step g c)
  unfolding create_receipt mark_compensated update_oracle set_compensation_enabled
  step-IsIssued bound g (receive tx to from gas priority slot signature t₁ t₂) room (le, issued) =
      let after = (create_receipt g tx to from gas priority slot signature t₁ t₂).1 in
      subst (λ k. (k ≤ bound + 1) × Issued "gas_" k after.receipts)
        (sym (add64-eq_of_lt g.receipt_counter 1 (omega arith)))
        (omega arith, insert-Issued "gas_" g.receipt_counter _ g.receipts issued)
  step-IsIssued bound g (mark id) room (le, issued) = elim (Option-cases (lookup id g.receipts)) [
    | inl gone ↦ rw (step, gone) (omega arith, issued)
    | inr (r, found) ↦
        rw (step, found)
          (
            omega arith,
            update-Issued "gas_" g.receipt_counter id (record r { used_for_compensation = true }) r
                g.receipts issued found,
          )
  ]
  step-IsIssued bound g (quote gas priority sol membra now) room (le, issued) =
      (omega arith, issued)
  step-IsIssued bound g (switch enabled) room (le, issued) = (omega arith, issued)

  run-IsIssued :
      (bound : ℕ) (g : ReceiverPaidGas W) (cs : List (Call W))
      → bound + length cs < 2 ^ 64
      → IsIssued bound g
      → IsIssued (bound + length cs) (run g cs)
  run-IsIssued bound g [] room issued = (omega (arith, issued.0), issued.1)
  run-IsIssued bound g (c ∷ cs) room issued =
      let rest =
        run-IsIssued (bound + 1) (step g c) cs (omega arith)
          (step-IsIssued bound g c (omega arith) issued) in
      (omega (arith, rest.0), rest.1)

  -- A new receipt overwrites none: after fewer than 2 ^ 64 calls of a new object, `create_receipt` gives
  -- an identifier that no receipt has, and every receipt that was there stays.
  pub create_receipt-fresh :
      (start : W) (cs : List (Call W)) (tx to from : String) (gas priority slot : ℕ)
      (signature : String) (t₁ t₂ : W) (id : String) (r : GasReceipt W)
      → length cs < 2 ^ 64
      → lookup id (run (initial start) cs).receipts ≡ some r
      → let g = run (initial start) cs in
        let made = create_receipt g tx to from gas priority slot signature t₁ t₂ in
        (lookup made.0 g.receipts ≡ none) × (lookup id made.1.receipts ≡ some r)
  unfolding create_receipt
  create_receipt-fresh start cs tx to from gas priority slot signature t₁ t₂ id r room found =
      let g = run (initial start) cs in
      let held =
        run-IsIssued 0 (initial start) cs (omega arith) (omega arith, nil-Issued "gas_" 0) in
      let free = Issued-fresh "gas_" g.receipt_counter g.receipts held.1 in
      (free, lookup-insert_new (next_id g) id _ r g.receipts free found)
