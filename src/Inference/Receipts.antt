-- ===== src/Inference/Receipts.antt =====
-- The receipts of include/proof_of_inference.hpp over histories of calls.
use membra_l3_cpp.Base.{
  ℕ, ◌+◌, ◌%◌, ◌^◌, ◌<◌, ◌≡◌, refl, inl, inr, String, not, List, [], ◌∷◌, arith, if◌then◌else◌,
  Option-cases, Bool-cases,
}
use membra_l3_cpp.Base.Dict.{
  lookup, total, total-insert, total-insert_new, Entries, insert-Entries, nil-Entries,
}
use membra_l3_cpp.Base.Double.{Double}
use membra_l3_cpp.Base.Fresh.{Issued, nil-Issued, insert-Issued, update-Issued, Issued-fresh}
use membra_l3_cpp.Base.Word.{add64-eq_of_lt}
use membra_l3_cpp.Merkle.{Bytes}
use membra_l3_cpp.Inference.{
  InferenceReceipt, ProofOfInference, InferenceType, new_inference, receipt_id_of, create_receipt,
  verify_receipt, verify_signature, sign_receipt, claim_reward, rewarded, unsigned_receipt,
}

pub data Call (W : Type 0) : Type 0 where
  creates : String → String → InferenceType → ℕ → ℕ → ℕ → ℕ → ℕ → W → W → Call W
  verifies : String → Call W
  claims : String → ℕ → W → Call W

module _ {W : Type 0} ⦃d : Double W⦄ (sha256 : Bytes → Bytes) where
  unfoldable pub step : ProofOfInference W → Call W → ProofOfInference W
  step p (creates worker task kind input output units cycles memory time now) =
      (create_receipt sha256 p worker task kind input output units cycles memory time now).1
  step p (verifies id) = (verify_receipt sha256 p id).1
  step p (claims id amount now) = (claim_reward p id amount now).1

  unfoldable pub run : ProofOfInference W → List (Call W) → ProofOfInference W
  run p [] = p
  run p (c ∷ cs) = run (step p c) cs

  -- A receipt is signed as it was made, and its reward is 0 until it is claimed.
  pub record IsSound (r : InferenceReceipt W) : Type 0 where
    pub signed : r.signature ≡ sign_receipt sha256 r
    pub unclaimed : (if r.reward_claimed then 0 else r.reward_lamports) ≡ 0

  -- The counters and the identifiers: the rewards paid are those of the receipts, modulo 2 ^ 64.
  pub record IsKept (p : ProofOfInference W) : Type 0 where
    pub issued : Issued "infer_" p.receipt_counter p.receipts
    pub sound : Entries (λ id r. IsSound r) p.receipts
    pub rewards : p.total_rewards_paid ≡ total (λ r. r.reward_lamports) p.receipts % 2 ^ 64
    pub units : p.total_compute_units ≡ total (λ r. r.compute_units_consumed) p.receipts % 2 ^ 64

  pub create_receipt-IsKept :
      (p : ProofOfInference W) (worker task : String) (kind : InferenceType)
      (input output units cycles memory : ℕ) (time now : W)
      → p.receipt_counter + 1 < 2 ^ 64
      → IsKept p
      → IsKept
          (create_receipt sha256 p worker task kind input output units cycles memory time now).1
  unfolding create_receipt sign_receipt
  create_receipt-IsKept p worker task kind input output units cycles memory time now room k =
      let id = receipt_id_of p.receipt_counter in
      let r = unsigned_receipt id worker task kind input output units cycles memory time now in
      let r' = record r { signature = sign_receipt sha256 r } in
      let fresh = Issued-fresh "infer_" p.receipt_counter p.receipts k.issued in
      record {
        issued =
            rw (add64-eq_of_lt p.receipt_counter 1 room)
              (insert-Issued "infer_" p.receipt_counter r' p.receipts k.issued);
        sound =
            insert-Entries _ id r' p.receipts k.sound (record { signed = refl; unclaimed = refl });
        rewards =
            omega
              (arith, k.rewards, total-insert_new (λ r. r.reward_lamports) id r' p.receipts fresh);
        units = omega (
          arith,
          k.units,
          total-insert_new (λ r. r.compute_units_consumed) id r' p.receipts fresh,
        );
      }

  pub verify_receipt-IsKept :
      (p : ProofOfInference W) (id : String) → IsKept p → IsKept (verify_receipt sha256 p id).1
  unfolding verify_receipt sign_receipt
  verify_receipt-IsKept p id k = elim (Option-cases (lookup id p.receipts)) [
    | inl gone ↦ rw (verify_receipt, gone) k
    | inr (r, found) ↦
        let r' = record r { verified = verify_signature sha256 r } in
        rw (verify_receipt, found)
          (record {
            issued = update-Issued "infer_" p.receipt_counter id r' r p.receipts k.issued found;
            sound = insert-Entries _ id r' p.receipts k.sound (record {
              signed = (k.sound id r found).signed;
              unclaimed = (k.sound id r found).unclaimed;
            });
            rewards =
                omega (
                  arith,
                  k.rewards,
                  total-insert (λ r. r.reward_lamports) id r' r p.receipts found,
                );
            units = omega (
              arith,
              k.units,
              total-insert (λ r. r.compute_units_consumed) id r' r p.receipts found,
            );
          })
  ]

  pub claim_reward-IsKept :
      (p : ProofOfInference W) (id : String) (amount : ℕ) (now : W)
      → IsKept p
      → IsKept (claim_reward p id amount now).1
  unfolding claim_reward sign_receipt
  claim_reward-IsKept p id amount now k = elim (Option-cases (lookup id p.receipts)) [
    | inl gone ↦ rw (claim_reward, gone) k
    | inr (r, found) ↦ elim (Bool-cases (not r.verified)) [
      | inl unverified ↦ rw (claim_reward, found, unverified) k
      | inr good ↦ elim (Bool-cases r.reward_claimed) [
        | inl again ↦ rw (claim_reward, found, good, again) k
        | inr still ↦
            let r' = rewarded r amount now in
            let zero_before : r.reward_lamports ≡ 0 = rw still at (k.sound id r found).unclaimed in
            rw (claim_reward, found, good, still)
              (record {
                issued = update-Issued "infer_" p.receipt_counter id r' r p.receipts k.issued found;
                sound =
                    insert-Entries _ id r' p.receipts k.sound
                      (record { signed = (k.sound id r found).signed; unclaimed = refl });
                rewards = omega (
                  arith,
                  k.rewards,
                  zero_before,
                  total-insert (λ r. r.reward_lamports) id r' r p.receipts found,
                );
                units = omega (
                  arith,
                  k.units,
                  total-insert (λ r. r.compute_units_consumed) id r' r p.receipts found,
                );
              })
      ]
    ]
  ]

  -- The counter of identifiers does not run over.
  abbrev pub IsRoomy : ProofOfInference W → List (Call W) → Type 0
  IsRoomy p [] = Unit
  IsRoomy p (creates worker task kind input output units cycles memory time now ∷ cs) =
      (p.receipt_counter + 1 < 2 ^ 64)
      × IsRoomy (step p (creates worker task kind input output units cycles memory time now)) cs
  IsRoomy p (verifies id ∷ cs) = IsRoomy (step p (verifies id)) cs
  IsRoomy p (claims id amount now ∷ cs) = IsRoomy (step p (claims id amount now)) cs

  run-IsKept_from :
      (cs : List (Call W)) (p : ProofOfInference W) → IsRoomy p cs → IsKept p → IsKept (run p cs)
  unfolding run step
  run-IsKept_from [] p room k = k
  run-IsKept_from (creates worker task kind input output units cycles memory time now ∷ cs) p room
        k =
      run-IsKept_from cs
        (create_receipt sha256 p worker task kind input output units cycles memory time now).1
        room.1
        (create_receipt-IsKept p worker task kind input output units cycles memory time now room.0
          k)
  run-IsKept_from (verifies id ∷ cs) p room k =
      run-IsKept_from cs (verify_receipt sha256 p id).1 room (verify_receipt-IsKept p id k)
  run-IsKept_from (claims id amount now ∷ cs) p room k =
      run-IsKept_from cs (claim_reward p id amount now).1 room
        (claim_reward-IsKept p id amount now k)

  -- From the start, after any calls, as long as the counter of identifiers does not run over,
  -- `total_rewards_paid` is the sum of the receipts' rewards and `total_compute_units` that of their
  -- units, modulo 2 ^ 64; each receipt stands under an identifier that was given out, has the signature
  -- that `sign_receipt` makes of it, and has no reward before it is claimed.
  pub run-IsKept : (cs : List (Call W)) → IsRoomy new_inference cs → IsKept (run new_inference cs)
  unfolding total
  run-IsKept cs room = run-IsKept_from cs new_inference room (record {
    issued = nil-Issued "infer_" 0;
    sound = nil-Entries _;
    rewards = refl;
    units = refl;
  })
