-- ===== src/ZkCompute/Manager/Statuses.antt =====
-- The statuses of the proofs that `ZKComputeManager` keeps, in src/zk_compute.cpp.
use membra_l3_cpp.Base.{
  ℕ, ◌≡◌, refl, String, ◌==◌, List, [], ◌∷◌, ◌⊎◌, arith, All, inl, inr, Option-cases, Bool-cases,
  map, str_eq, eq_iff,
}
use membra_l3_cpp.Base.Dict.{Dict, lookup}
use membra_l3_cpp.Base.Ordered.{in_key_order, in_key_order-All, insert-All}
use membra_l3_cpp.Base.Selects.{Selects, at_end, taken, passed}
use membra_l3_cpp.Base.Double.{Double}
use membra_l3_cpp.Merkle.{Bytes}
use membra_l3_cpp.ZkCompute.{
  ZkComputeProof, ComputeTask, ResourceCommitment, generate_proof, first_byte,
}
use membra_l3_cpp.ZkCompute.Manager.Verification.{
  verify_proof-success, verify_task_completion-missing, verify_task_completion-found,
  verify_task_completion-accepted,
}
use membra_l3_cpp.ZkCompute.Manager.{
  ZkComputeManager, with_status, new_manager, submit_task, verify_task_completion,
  get_pending_tasks, get_verified_proofs,
}

-- The calls that change the manager, with the readings of the clock and of `rand`.
pub data Call : Type 0 where
  submits : ComputeTask → ResourceCommitment → ℕ → ℕ → Call
  verifies : String → ℕ → ℕ → ℕ → Call

-- An entry of the map: its proof is pending or verified.
abbrev pub HasStatus : String × ZkComputeProof → Type 0
HasStatus (id, proof) =
    (proof.verification_status ≡ "pending") ⊎ (proof.verification_status ≡ "verified")

abbrev pub IsPending : ZkComputeProof → Type 0
IsPending proof = proof.verification_status ≡ "pending"

abbrev pub IsVerified : ZkComputeProof → Type 0
IsVerified proof = proof.verification_status ≡ "verified"

-- What a map holds, in the order of the keys.
abbrev pub proofs_of : Dict ZkComputeProof → List ZkComputeProof
proofs_of m = map (λ e. e.1) (in_key_order m)

with_status-Selects :
    (status : String) (m : Dict ZkComputeProof)
    → Selects
        (λ proof. proof.verification_status ≡ status)
        (map (λ e. e.1) m)
        (with_status status m)
unfolding with_status
with_status-Selects status [] = at_end
with_status-Selects status ((id, proof) ∷ rest) =
    elim (Bool-cases (str_eq proof.verification_status status)) [
      | inl same ↦ rw same (taken proof ((eq_iff _ _).0 same) (with_status-Selects status rest))
      | inr other ↦ rw other (
          passed proof (λ e. absurd (ground (arith, (eq_iff proof.verification_status status).1 e)))
            (with_status-Selects status rest))
    ]

module _ {W : Type 0} where
  pub get_pending_tasks-Selects :
      (m : ZkComputeManager W) → Selects IsPending (proofs_of m.proofs) (get_pending_tasks m)
  unfolding get_pending_tasks
  get_pending_tasks-Selects m = with_status-Selects "pending" (in_key_order m.proofs)

  pub get_verified_proofs-Selects :
      (m : ZkComputeManager W) → Selects IsVerified (proofs_of m.proofs) (get_verified_proofs m)
  unfolding get_verified_proofs
  get_verified_proofs-Selects m = with_status-Selects "verified" (in_key_order m.proofs)

All-proofs_of :
    (m : Dict ZkComputeProof)
    → All HasStatus m
    → All (λ proof. IsPending proof ⊎ IsVerified proof) (map (λ e. e.1) m)
All-proofs_of [] h = tt
All-proofs_of ((id, proof) ∷ rest) (p, h) = (p, All-proofs_of rest h)

module _ (W : Type 0) ⦃d : Double W⦄ (sha256 : Bytes → Bytes) where
  unfoldable pub step : ZkComputeManager W → Call → ZkComputeManager W
  step m (submits task commitment count seconds) =
      (submit_task sha256 m task commitment count seconds).1
  step m (verifies task_id r₁ r₂ now) = (verify_task_completion sha256 m task_id r₁ r₂ now).1

  unfoldable pub run : ZkComputeManager W → List Call → ZkComputeManager W
  run m [] = m
  run m (c ∷ cs) = run (step m c) cs

  verify-HasStatus :
      (m : ZkComputeManager W) (task_id : String) (r₁ r₂ now : ℕ)
      → All HasStatus m.proofs
      → All HasStatus (verify_task_completion sha256 m task_id r₁ r₂ now).1.proofs
  verify-HasStatus m task_id r₁ r₂ now h = elim (Option-cases (lookup task_id m.proofs)) [
    | inl gone ↦ rw (verify_task_completion-missing sha256 m task_id r₁ r₂ now gone) h
    | inr (proof, found) ↦ elim (Bool-cases (first_byte proof.proof_hash == 0)) [
      | inl zero_byte ↦
          rw (verify_task_completion-found sha256 m task_id r₁ r₂ now proof found, zero_byte) h
      | inr good ↦
          rw (verify_task_completion-accepted sha256 m task_id r₁ r₂ now proof found good) (
            insert-All HasStatus task_id _ m.proofs
              (inr (verify_proof-success sha256 proof r₁ r₂ good).1) h)
    ]
  ]

  run-HasStatus :
      (cs : List Call) (m : ZkComputeManager W)
      → All HasStatus m.proofs
      → All HasStatus (run m cs).proofs
  unfolding run step submit_task generate_proof
  run-HasStatus [] m h = h
  run-HasStatus (submits task commitment count seconds ∷ cs) m h =
      run-HasStatus cs (submit_task sha256 m task commitment count seconds).1
        (insert-All HasStatus _ _ m.proofs (inl refl) h)
  run-HasStatus (verifies task_id r₁ r₂ now ∷ cs) m h =
      run-HasStatus cs (verify_task_completion sha256 m task_id r₁ r₂ now).1
        (verify-HasStatus m task_id r₁ r₂ now h)

  -- After any submissions and verifications the status of each proof is pending or verified;
  -- `get_pending_tasks` reports exactly those whose status is pending and `get_verified_proofs` exactly
  -- those whose status is verified, each in the order of the task ids.
  pub run-get_pending_tasks :
      (cs : List Call)
      → let m = run new_manager cs in
        All (λ proof. IsPending proof ⊎ IsVerified proof) (proofs_of m.proofs)
        × Selects IsPending (proofs_of m.proofs) (get_pending_tasks m)
        × Selects IsVerified (proofs_of m.proofs) (get_verified_proofs m)
  run-get_pending_tasks cs =
      let m = run new_manager cs in
      (
        All-proofs_of (in_key_order m.proofs)
            (in_key_order-All HasStatus m.proofs (run-HasStatus cs new_manager tt)),
        get_pending_tasks-Selects m,
        get_verified_proofs-Selects m,
      )
