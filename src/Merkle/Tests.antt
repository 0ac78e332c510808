-- ===== src/Merkle/Tests.antt =====
-- The provenance trees of src/merkle_provenance.cpp at concrete inputs, with a short checksum in the
-- place of SHA-256.
use Prim.Native.Nat.{ℕ, ◌+◌}
use membra_l3_cpp.Base.{
  ◌≡◌, refl, ◌⊎◌, true, false, some, List, [], ◌∷◌, ◌++◌, arith, length, get_elem?, replicate,
}
use membra_l3_cpp.Merkle.{
  Bytes, MerkleProof, Builder, returned, initial, create_leaf, add_leaf, verify, verify_loop,
  verify_step, bytes_eq, generate_proof,
}
use membra_l3_cpp.Merkle.Climb.{Gives}
use membra_l3_cpp.Merkle.Complete.{Paired-pow, generate_proof-verify}
use membra_l3_cpp.Merkle.Binding.{Collision, verify_binding}
use membra_l3_cpp.Merkle.Promoted.{generate_proof-promoted}
use membra_l3_cpp.Merkle.Attestation.{
  TokenAppraisal, create_attestation, verify_attestation, create_attestation-verify_attestation,
}

abbrev sum_of : Bytes → ℕ
sum_of [] = 0
sum_of (x ∷ xs) = x + sum_of xs

-- Thirty-two numbers: the sum and the length, filled up.
abbrev checksum : Bytes → Bytes
checksum xs = sum_of xs ∷ length xs ∷ replicate 30 0

abbrev three_leaves : Builder
three_leaves =
    add_leaf checksum (7 ∷ []) (add_leaf checksum (5 ∷ []) (add_leaf checksum (3 ∷ []) initial))

abbrev four_leaves : Builder
four_leaves = add_leaf checksum (9 ∷ []) three_leaves

-- The third of four leaves.
generate_proof-verify_example :
    (root : Bytes) × (siblings : List Bytes) × Gives checksum four_leaves 2
      (create_leaf checksum (7 ∷ []))
      root
      siblings
    × (verify checksum
          (record {
            leaf_hash = (create_leaf checksum (7 ∷ [])).hash;
            siblings = siblings;
            leaf_index = 2;
          })
          root
        ≡ true)
unfolding add_leaf
generate_proof-verify_example =
    generate_proof-verify checksum four_leaves 2 (create_leaf checksum (7 ∷ [])) refl
      (Paired-pow 2 2 (omega arith))

-- The last of three leaves, which `build_tree` promotes.
generate_proof-promoted_example :
    (root : Bytes) × (siblings : List Bytes) × Gives checksum three_leaves 2
      (create_leaf checksum (7 ∷ []))
      root
      siblings
    × ((verify checksum
            (record {
              leaf_hash = (create_leaf checksum (7 ∷ [])).hash;
              siblings = siblings;
              leaf_index = 2;
            })
            root
          ≡ false)
        ⊎ ((get_elem? siblings 0 ≡ some (create_leaf checksum (7 ∷ [])).hash) ⊎ Collision checksum))
unfolding add_leaf create_leaf
generate_proof-promoted_example =
    generate_proof-promoted checksum (λ x. refl) three_leaves 0 (create_leaf checksum (7 ∷ []))
      (refl, (refl, (refl, tt))) refl refl

-- A proof with one sibling, and its root.
abbrev one_step : Bytes → Bytes → MerkleProof
one_step leaf sibling = record { leaf_hash = leaf; siblings = sibling ∷ []; leaf_index = 0 }

-- Two leaf hashes with one checksum.
verify_binding_example :
    (one_step (checksum (1 ∷ 2 ∷ [])) (checksum [])
      ≡ one_step (checksum (2 ∷ 1 ∷ [])) (checksum []))
    ⊎ Collision checksum
unfolding verify verify_loop verify_step bytes_eq
verify_binding_example =
    verify_binding checksum (λ x. refl) (one_step (checksum (1 ∷ 2 ∷ [])) (checksum []))
      (one_step (checksum (2 ∷ 1 ∷ [])) (checksum []))
      (checksum (checksum (1 ∷ 2 ∷ []) ++ checksum [])) refl refl (refl, refl)
      ((refl, tt), (refl, tt)) refl refl

abbrev appraisal : TokenAppraisal
appraisal = record {
  novelty_factors = 50 ∷ 70 ∷ [];
  rarity_factors = 120 ∷ [];
  execution_factors = [];
  historical_data = 1 ∷ 2 ∷ 3 ∷ [];
}

create_attestation-verify_attestation_example :
    (proof : MerkleProof) × (b : Builder) × (generate_proof checksum
        (add_leaf checksum (50 ∷ 70 ∷ 120 ∷ 1 ∷ 2 ∷ 3 ∷ []) initial)
        0
      ≡ returned (proof, b))
    × (verify_attestation checksum
          (create_attestation checksum (9 ∷ []) appraisal 1000 (8 ∷ []) 1 1_700_000_000)
          proof
        ≡ true)
    × (verify_attestation checksum
          (record (create_attestation checksum (9 ∷ []) appraisal 1000 (8 ∷ []) 1 1_700_000_000) {
            verified = true;
          })
          proof
        ≡ false)
create_attestation-verify_attestation_example =
    create_attestation-verify_attestation checksum (9 ∷ []) appraisal 1000 (8 ∷ []) 1 1_700_000_000
