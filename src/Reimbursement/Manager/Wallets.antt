-- ===== src/Reimbursement/Manager/Wallets.antt =====
-- The wallet states of src/gas_reimbursement.cpp and the check of their balances.
use membra_l3_cpp.Base.{
  ℕ, ◌+◌, ◌^◌, ◌≤◌, ◌<◌, ◌≡◌, refl, inl, inr, String, ◌↔◌, true, some, arith, Option-cases, List,
  [], ◌∷◌,
}
use membra_l3_cpp.Base.Dict.{lookup, Entries, insert-Entries, nil-Entries}
use membra_l3_cpp.Reimbursement.{WalletBalanceState}
use membra_l3_cpp.Reimbursement.Manager.{
  Manager, initial, submit_request, approve_reimbursement, reject_reimbursement, process_request,
  update_wallet_state, check_wallet_balance,
}
use membra_l3_cpp.Reimbursement.Manager.History.{
  Call, submits, processes, approves, rejects, step, run,
}

-- A wallet that the manager has noted: it has no balance, is marked below the threshold, and owes less
-- than 2 ^ 64.
abbrev pub IsNoted : String → WalletBalanceState → Type 0
IsNoted address w =
    (w.wallet_address ≡ address)
    × (w.current_balance ≡ 0)
    × (w.min_balance_threshold ≡ 1000)
    × (w.is_below_threshold ≡ true)
    × (w.pending_reimbursements < 2 ^ 64)

update_wallet_state-IsNoted :
    (m : Manager) (address : String) (amount now : ℕ)
    → Entries IsNoted m.wallet_states
    → Entries IsNoted (update_wallet_state m address amount now).wallet_states
unfolding update_wallet_state
update_wallet_state-IsNoted m address amount now h =
    insert-Entries IsNoted address _ m.wallet_states h
      (elim (Option-cases (lookup address m.wallet_states)) [
        | inl e ↦ rw e (refl, refl, refl, refl, omega arith)
        | inr (w, e) ↦
            let noted = h address w e in rw e (refl, noted.1, noted.2, ground arith, omega arith)
      ])

wallets-process :
    (m : Manager) (id : String) (now : ℕ)
    → (process_request m id now).1.wallet_states ≡ m.wallet_states
unfolding process_request
wallets-process m id now = ground arith

wallets-approve :
    (m : Manager) (id text : String) (now : ℕ)
    → ((approve_reimbursement m id text now).1.wallet_states ≡ m.wallet_states)
      × ((reject_reimbursement m id text now).1.wallet_states ≡ m.wallet_states)
unfolding approve_reimbursement reject_reimbursement
wallets-approve m id text now = ground arith

step-IsNoted :
    (m : Manager) (c : Call)
    → Entries IsNoted m.wallet_states
    → Entries IsNoted (step m c).wallet_states
unfolding step submit_request
step-IsNoted m (submits request millis now) h =
    update_wallet_state-IsNoted _ request.wallet_address request.gas_cost now h
step-IsNoted m (processes id now) h = rw (wallets-process m id now) h
step-IsNoted m (approves id signature now) h = rw ((wallets-approve m id signature now).0) h
step-IsNoted m (rejects id reason now) h = rw ((wallets-approve m id reason now).1) h

run-IsNoted_from :
    (cs : List Call) (m : Manager)
    → Entries IsNoted m.wallet_states
    → Entries IsNoted (run m cs).wallet_states
unfolding run
run-IsNoted_from [] m h = h
run-IsNoted_from (c ∷ cs) m h = run-IsNoted_from cs (step m c) (step-IsNoted m c h)

-- After any history of calls every noted wallet has no balance and is marked below the threshold.
pub run-IsNoted : (cs : List Call) → Entries IsNoted (run initial cs).wallet_states
run-IsNoted cs = run-IsNoted_from cs initial (nil-Entries IsNoted)

-- Where the pending reimbursements are within the balance and nothing wraps, the check passes exactly
-- if the balance covers them, the required amount and the threshold.
pub check_wallet_balance_iff :
    (m : Manager) (address : String) (required : ℕ) (w : WalletBalanceState)
    → lookup address m.wallet_states ≡ some w
    → w.pending_reimbursements ≤ w.current_balance
    → w.current_balance < 2 ^ 64
    → required + w.min_balance_threshold < 2 ^ 64
    → (check_wallet_balance m address required ≡ true)
      ↔ (w.pending_reimbursements + required + w.min_balance_threshold ≤ w.current_balance)
unfolding check_wallet_balance
check_wallet_balance_iff m address required w e covered hc hr =
    rw (e, check_wallet_balance) (ground arith)

-- After any history of calls the check passes for every wallet with pending reimbursements, although
-- its balance is 0: the difference of the two wraps around. It passes for any required amount that
-- leaves room for the threshold and the pending amount below 2 ^ 64.
pub check_wallet_balance-wraps :
    (cs : List Call) (address : String) (required : ℕ) (w : WalletBalanceState)
    → lookup address (run initial cs).wallet_states ≡ some w
    → 0 < w.pending_reimbursements
    → required + 1000 + w.pending_reimbursements ≤ 2 ^ 64
    → (w.current_balance ≡ 0) × (check_wallet_balance (run initial cs) address required ≡ true)
unfolding check_wallet_balance
check_wallet_balance-wraps cs address required w e owes room =
    let noted = run-IsNoted cs address w e in (noted.1, rw (e, check_wallet_balance) (ground arith))
