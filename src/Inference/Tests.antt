-- ===== src/Inference/Tests.antt =====
-- Proof of inference, include/proof_of_inference.hpp, at concrete inputs, with a short checksum in the
-- place of SHA-256.
use membra_l3_cpp.Base.{ℕ, ◌%◌, List, [], ◌∷◌, arith, length, replicate}
use membra_l3_cpp.Base.Fixed.{fixed}
use membra_l3_cpp.Merkle.{Bytes}
use membra_l3_cpp.Inference.{consensus, new_inference}
use membra_l3_cpp.Inference.Receipts.{Call, creates, verifies, claims, run, IsKept, run-IsKept}

-- Thirty-two numbers: the length, filled up.
abbrev short_sha : Bytes → Bytes
short_sha xs = (length xs % 256) ∷ replicate 31 7

abbrev one_receipt : List (Call ℕ)
one_receipt = creates "worker" "task" consensus 1 2 3 4 5 6 7 ∷ []

abbrev claimed_receipt : List (Call ℕ)
claimed_receipt =
    creates "worker" "task" consensus 1 2 3 4 5 6 7
    ∷ verifies "infer_0"
    ∷ claims "infer_0" 500 8
    ∷ []

run-IsKept_example : IsKept short_sha (run short_sha new_inference claimed_receipt)
run-IsKept_example = run-IsKept short_sha claimed_receipt (omega arith, tt)

-- Later calls: another receipt, and both checked and claimed.
abbrev later_calls : List (Call ℕ)
later_calls =
    creates "worker" "other" consensus 1 2 3 4 5 6 9
    ∷ verifies "infer_0"
    ∷ claims "infer_0" 600 10
    ∷ []
