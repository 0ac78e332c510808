-- ===== src/ZkCompute/Tests.antt =====
-- The ZK compute stack of src/zk_compute.cpp at concrete inputs, with a short checksum in the place of
-- SHA-256.
use membra_l3_cpp.Base.{
  All, eq_iff, ◌⊎◌, ℕ, ◌+◌, ◌%◌, ◌^◌, ◌≡◌, refl, String, true, List, [], ◌∷◌, arith, length,
  replicate, map,
}
use membra_l3_cpp.Base.Bytes.{bytes_of, hash_to_hex}
use membra_l3_cpp.Base.Decimal.{to_string}
use membra_l3_cpp.Base.Dict.{lookup, insert}
use membra_l3_cpp.Base.Erase.{erase}
use membra_l3_cpp.Base.Ordered.{in_key_order, place, str_lt}
use membra_l3_cpp.Base.Fixed.{fixed}
use membra_l3_cpp.Base.Word.{add64}
use membra_l3_cpp.Merkle.{Bytes, MerkleProof, Builder, returned, verify, generate_proof}
use membra_l3_cpp.Merkle.Complete.{Paired-pow}
use membra_l3_cpp.ZkCompute.{
  ComputeTask, ZkComputeProof, new_task, new_proof, new_commitment, proof_data,
}
use membra_l3_cpp.ZkCompute.Manager.{
  ZkComputeManager, new_manager, verify_task_completion, get_verified_proofs, get_pending_tasks,
  get_task_status, generate_merkle_root,
}
use membra_l3_cpp.ZkCompute.Manager.Verification.{verify_task_completion-again}
use membra_l3_cpp.ZkCompute.Manager.Statuses.{
  IsPending, IsVerified, proofs_of, Call, submits, verifies, run, run-get_pending_tasks,
}
use membra_l3_cpp.Base.Selects.{Selects, at_end, taken, passed}
use membra_l3_cpp.ZkCompute.Manager.Roots.{
  leaf_of, generate_merkle_root_total, generate_merkle_root-verify,
}
use membra_l3_cpp.ZkCompute.Allocator.{
  new_allocator, allocate_resources, release_resources, commitment_id_of, check_availability,
}
use membra_l3_cpp.ZkCompute.Allocator.Returns.{release_resources-allocate_resources}
use membra_l3_cpp.ZkCompute.Allocator.Booked as booked
use membra_l3_cpp.ZkCompute.Distributor.{new_distributor, get_total_rewards_distributed}
use membra_l3_cpp.ZkCompute.Distributor.Ledger as ledger

-- Thirty-two numbers: the length and one more, filled up.
abbrev short_sha : Bytes → Bytes
short_sha xs = (1 + length xs % 200) ∷ replicate 31 7

abbrev small_task : ComputeTask
small_task = record new_task { task_id = "t1"; input_data = 3 ∷ []; circuit_identifier = "c" }

abbrev other_task : ComputeTask
other_task = record new_task { task_id = "t0"; input_data = 4 ∷ 5 ∷ []; circuit_identifier = "c" }

abbrev two_calls : List Call
two_calls =
    submits small_task new_commitment 1 2
    ∷ submits other_task new_commitment 3 4
    ∷ verifies "t1" 5 6 7
    ∷ []

run-get_pending_tasks_example :
    let m = run ℕ short_sha new_manager two_calls in
    All (λ proof. IsPending proof ⊎ IsVerified proof) (proofs_of m.proofs)
    × Selects IsPending (proofs_of m.proofs) (get_pending_tasks m)
    × Selects IsVerified (proofs_of m.proofs) (get_verified_proofs m)
run-get_pending_tasks_example = run-get_pending_tasks ℕ short_sha two_calls

-- A proof that is verified and one that waits.
abbrev good_proof : ZkComputeProof
good_proof = record new_proof {
  task_id = "t1";
  proof_hash = short_sha (3 ∷ []);
  verification_status = "verified";
  reward_amount = 7;
}

abbrev waiting_proof : ZkComputeProof
waiting_proof = record new_proof { task_id = "t2"; proof_hash = short_sha (4 ∷ []) }

abbrev one_verified : ZkComputeManager ℕ
one_verified = record new_manager { proofs = ("t2", waiting_proof) ∷ ("t1", good_proof) ∷ [] }

one_verified-proofs : get_verified_proofs one_verified ≡ good_proof ∷ []
unfolding get_verified_proofs in_key_order place str_lt
one_verified-proofs = refl

verify_task_completion-again_example :
    let first = verify_task_completion short_sha one_verified "t2" 5 6 7 in
    let second = verify_task_completion short_sha first.1 "t2" 8 9 10 in
    (first.0.success ≡ true)
    × (second.0.success ≡ true)
    × (second.1.stats.total_tasks_verified ≡ add64 (add64 0 1) 1)
    × (second.1.stats.total_rewards_paid
        ≡ add64
            (add64 0 (get_task_status first.1 "t2").reward_amount)
            (get_task_status second.1 "t2").reward_amount)
unfolding lookup
verify_task_completion-again_example =
    verify_task_completion-again short_sha one_verified "t2" 5 6 7 8 9 10 waiting_proof refl refl

generate_merkle_root_total_example :
    (root : Bytes) × (m' : ZkComputeManager ℕ) × (generate_merkle_root short_sha one_verified
      ≡ returned (root, m'))
    × (m'.proofs ≡ one_verified.proofs)
    × (m'.merkle_builder.leaves ≡ map (leaf_of short_sha) (get_verified_proofs one_verified))
generate_merkle_root_total_example = generate_merkle_root_total short_sha one_verified

abbrev two_verified : ZkComputeManager ℕ
two_verified = record new_manager {
  proofs =
      ("t3", record good_proof { task_id = "t3" })
      ∷ ("t2", waiting_proof)
      ∷ ("t1", good_proof)
      ∷ [];
}

-- The second leaf of two.
generate_merkle_root-verify_example :
    (root : Bytes) × (m' : ZkComputeManager ℕ) × (proof : MerkleProof) × (proved : Builder)
    × (generate_merkle_root short_sha two_verified ≡ returned (root, m'))
    × (m'.proofs ≡ two_verified.proofs)
    × (generate_proof short_sha m'.merkle_builder 1 ≡ returned (proof, proved))
    × (proof.leaf_hash ≡ short_sha (proof_data (record good_proof { task_id = "t3" })))
    × (verify short_sha proof root ≡ true)
unfolding in_key_order place str_lt
generate_merkle_root-verify_example =
    generate_merkle_root-verify short_sha two_verified
      (good_proof ∷ record good_proof { task_id = "t3" } ∷ []) 1
      (record good_proof { task_id = "t3" })
      (taken _ refl (
        passed _ (λ e. absurd (ground (arith, (eq_iff "pending" "verified").1 e)))
          (taken _ refl at_end)))
      refl (Paired-pow 1 1 (omega arith))

-- A task of 3000 units on the fresh node.
abbrev big_task : ComputeTask
big_task = record small_task { required_compute_units = 3000 }

abbrev first_id : String
first_id = commitment_id_of short_sha "node_001" 5

release_resources-allocate_resources_example :
    release_resources
      (allocate_resources {W = ℕ} short_sha new_allocator big_task "node_001" 5 6).1
      first_id
    ≡ record new_allocator { commitments = erase first_id [] }
unfolding lookup
release_resources-allocate_resources_example =
    release_resources-allocate_resources ℕ short_sha new_allocator _ big_task "node_001" 5 6 refl
      (record {
        cores_fit = omega arith;
        memory_fits = omega arith;
        tasks_fit = omega arith;
        ratio_of_tasks = refl;
      })
      refl

abbrev three_calls : List booked.Call
three_calls =
    booked.allocates big_task "node_001" 5 6
    ∷ booked.releases first_id
    ∷ booked.allocates big_task "node_001" 5 6
    ∷ []

run-IsBooked_example :
    booked.IsBooked ℕ short_sha (booked.run ℕ short_sha new_allocator three_calls)
unfolding lookup booked.step release_resources allocate_resources check_availability insert
    hash_to_hex bytes_of to_string erase
run-IsBooked_example = booked.run-IsBooked ℕ short_sha three_calls (refl, (refl, tt))

-- One proof presented twice, another wallet, and a proof that is not verified.
abbrev rewards : ledger.Calls
rewards =
    (good_proof, "alice")
    ∷ (good_proof, "alice")
    ∷ (good_proof, "bob")
    ∷ (waiting_proof, "bob")
    ∷ []

run-balance_of_example :
    ledger.balance_of (ledger.run new_distributor rewards) ≡ (λ w. ledger.owed rewards w % 2 ^ 64)
run-balance_of_example = ledger.run-balance_of rewards

alice_is_paid_twice : ledger.owed rewards "alice" ≡ 14
unfolding ledger.owed
alice_is_paid_twice = refl

run-get_total_rewards_distributed_example :
    get_total_rewards_distributed (ledger.run new_distributor rewards)
    ≡ ledger.held (ledger.run new_distributor rewards) % 2 ^ 64
run-get_total_rewards_distributed_example = ledger.run-get_total_rewards_distributed rewards
