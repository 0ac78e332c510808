-- ===== src/Reimbursement/Manager/History.antt =====
-- Histories of calls to the manager of src/gas_reimbursement.cpp.
use membra_l3_cpp.Base.{ℕ, String, List, [], ◌∷◌}
use membra_l3_cpp.Reimbursement.{ReimbursementRequest}
use membra_l3_cpp.Reimbursement.Manager.{
  Manager, submit_request, process_request, approve_reimbursement, reject_reimbursement,
}

pub data Call : Type 0 where
  submits : ReimbursementRequest → ℕ → ℕ → Call
  processes : String → ℕ → Call
  approves rejects : String → String → ℕ → Call

unfoldable pub step : Manager → Call → Manager
step m (submits request millis now) = (submit_request m request millis now).1
step m (processes id now) = (process_request m id now).1
step m (approves id signature now) = (approve_reimbursement m id signature now).1
step m (rejects id reason now) = (reject_reimbursement m id reason now).1

unfoldable pub run : Manager → List Call → Manager
run m [] = m
run m (c ∷ cs) = run (step m c) cs
