-- ===== src/Inference/Claiming.antt =====
-- How a receipt of include/proof_of_inference.hpp comes to its reward.
use membra_l3_cpp.Base.{◌≡◌, String, true, some}
use membra_l3_cpp.Base.Dict.{Dict, lookup}
use membra_l3_cpp.Base.Double.{Double}
use membra_l3_cpp.Merkle.{Bytes}
use membra_l3_cpp.Inference.{InferenceReceipt}

module _ {W : Type 0} ⦃d : Double W⦄ (sha256 : Bytes → Bytes) where
  -- The receipt is there and its reward was claimed.
  abbrev IsClaimed : Dict (InferenceReceipt W) → String → Type 0
  IsClaimed m id = (r : InferenceReceipt W) × (lookup id m ≡ some r) × (r.reward_claimed ≡ true)
