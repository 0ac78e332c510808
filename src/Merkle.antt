-- ===== src/Merkle.antt =====
-- include/merkle_provenance.hpp and src/merkle_provenance.cpp: nodes, inclusion proofs and the tree
-- builder. SHA-256 is OpenSSL's and stands as the parameter `sha256`; a byte is a number and a
-- `std::array<uint8_t, 32>` a list of bytes. The attestations are in Merkle/Attestation.
pub mod Levels
pub mod Complete
pub mod Binding
pub mod Folds
pub mod Promoted
pub mod Climb
pub mod Attestation
mod Tests
use membra_l3_cpp.Base.{
  ℕ, zero, suc, ◌+◌, ◌-◌, ◌/◌, ◌%◌, ◌≡◌, ◌↔◌, Bool, true, false, ◌&&◌, Option, none, some, List, [],
  ◌∷◌, ◌++◌, arith, ltb, ◌==◌, ==_iff, if◌then◌else◌, length, get_elem?, replicate,
}

abbrev pub Bytes : Type 0
Bytes = List ℕ

pub record MerkleNode : Type 0 where
  pub hash : Bytes
  pub left_child : Bytes
  pub right_child : Bytes
  pub has_left : Bool
  pub has_right : Bool

pub record MerkleProof : Type 0 where
  pub leaf_hash : Bytes
  pub siblings : List Bytes
  pub leaf_index : ℕ

-- The state of a `MerkleTreeBuilder`.
pub record Builder : Type 0 where
  pub leaves : List MerkleNode
  pub nodes : List MerkleNode

-- `out_of_range` is the exception of `generate_proof`; `out_of_fuel` marks a loop of the model that
-- was cut off.
pub data Outcome {ℓ} (A : Type ℓ) : Type ℓ where
  returned : A → Outcome A
  out_of_range : Outcome A
  out_of_fuel : Outcome A

infixl 5 ◌>>=◌
abbrev pub ◌>>=◌ {ℓ κ} : {A : Type ℓ} {B : Type κ} → Outcome A → (A → Outcome B) → Outcome B
returned a >>= f = f a
out_of_range >>= f = out_of_range
out_of_fuel >>= f = out_of_fuel

-- `==` on byte arrays.
unfoldable pub bytes_eq : Bytes → Bytes → Bool
bytes_eq [] [] = true
bytes_eq (x ∷ xs) (y ∷ ys) = (x == y) && bytes_eq xs ys
bytes_eq _ _ = false

-- `hash.fill(0)`.
abbrev pub zero_hash : Bytes
zero_hash = replicate 32 0

pub sibling_index : ℕ → ℕ
sibling_index i = if (i % 2) == 0 then i + 1 else i - 1

abbrev pub initial : Builder
initial = record { leaves = []; nodes = [] }

-- `std::vector::back`, with the answer for an empty vector given.
unfoldable pub back : Bytes → List MerkleNode → Bytes
back d [] = d
back d (n ∷ []) = n.hash
back d (n ∷ m ∷ ns) = back d (m ∷ ns)

module _ (sha256 : Bytes → Bytes) where
  unfoldable pub create_leaf : Bytes → MerkleNode
  create_leaf bytes = record {
    hash = sha256 bytes;
    left_child = zero_hash;
    right_child = zero_hash;
    has_left = false;
    has_right = false;
  }

  unfoldable pub create_internal : Bytes → Bytes → MerkleNode
  create_internal left right = record {
    hash = sha256 (left ++ right);
    left_child = left;
    right_child = right;
    has_left = true;
    has_right = true;
  }

  -- One round of the loop of `verify`.
  unfoldable pub verify_step : Bytes → ℕ → Bytes → Bytes
  verify_step current i sibling =
      if (i % 2) == 0 then sha256 (current ++ sibling) else sha256 (sibling ++ current)

  unfoldable pub verify_loop : Bytes → ℕ → List Bytes → Bytes
  verify_loop current i [] = current
  verify_loop current i (s ∷ ss) = verify_loop (verify_step current i s) (i / 2) ss

  unfoldable pub verify : MerkleProof → Bytes → Bool
  verify p root = bytes_eq (verify_loop p.leaf_hash p.leaf_index p.siblings) root

  unfoldable pub add_leaf : Bytes → Builder → Builder
  add_leaf bytes b = record b { leaves = b.leaves ++ (create_leaf bytes ∷ []) }

  -- The inner loop of `build_tree` and of `generate_proof_recursive`: pairs are hashed together, an
  -- odd last node is promoted.
  unfoldable pub next_level : List MerkleNode → List MerkleNode
  next_level [] = []
  next_level (a ∷ []) = a ∷ []
  next_level (a ∷ b ∷ rest) = create_internal a.hash b.hash ∷ next_level rest

  -- The outer loop of `build_tree`: the nodes so far and the level it ends with.
  unfoldable pub build_loop :
      ℕ → List MerkleNode → List MerkleNode → Outcome (List MerkleNode × List MerkleNode)
  build_loop zero level nodes = out_of_fuel
  build_loop (suc fuel) level nodes =
      let rest = build_loop fuel (next_level level) (nodes ++ level) in
      if ltb 1 (length level) then rest else returned (nodes, level)

  abbrev pub push_first : List MerkleNode → List MerkleNode → List MerkleNode
  push_first nodes [] = nodes
  push_first nodes (top ∷ _) = nodes ++ (top ∷ [])

  unfoldable pub build_tree : Builder → Outcome Builder
  build_tree b = do
    (nodes, level) ← build_loop (suc (length b.leaves)) b.leaves []
    returned (record b { nodes = push_first nodes level })

  -- `build_root` after the test of the number of leaves, with the first leaf's hash.
  unfoldable pub root_of : Bytes → Builder → Outcome (Bytes × Builder)
  root_of first b = do built ← build_tree b; returned (back first built.nodes, built)

  unfoldable pub build_root : Builder → Outcome (Bytes × Builder)
  build_root b = elim b.leaves [
    | [] ↦ returned (zero_hash, b)
    | leaf ∷ [] ↦ returned (leaf.hash, b)
    | leaf ∷ _ ∷ _ ↦ root_of leaf.hash b
  ]

  abbrev push_sibling : List Bytes → Option MerkleNode → List Bytes
  push_sibling siblings none = siblings
  push_sibling siblings (some n) = siblings ++ (n.hash ∷ [])

  -- The loop of `generate_proof_recursive`: the siblings that it has pushed at its end.
  unfoldable pub proof_loop : ℕ → List MerkleNode → ℕ → List Bytes → Outcome (List Bytes)
  proof_loop zero level i siblings = out_of_fuel
  proof_loop (suc fuel) level i siblings =
      let rest =
        proof_loop fuel (next_level level) (i / 2)
          (push_sibling siblings (get_elem? level (sibling_index i))) in
      if ltb 1 (length level) then rest else returned siblings

  unfoldable pub generate_proof_recursive : Builder → MerkleNode → ℕ → Outcome MerkleProof
  generate_proof_recursive b leaf i = do
    siblings ← proof_loop (suc (length b.leaves)) b.leaves i []
    returned (record { leaf_hash = leaf.hash; siblings = siblings; leaf_index = i })

  -- `build_tree` runs first and leaves its nodes in the builder.
  unfoldable pub prove_leaf : Builder → MerkleNode → ℕ → Outcome (MerkleProof × Builder)
  prove_leaf b leaf i = do
    built ← build_tree b
    proof ← generate_proof_recursive built leaf i
    returned (proof, built)

  -- `get_elem?` is `none` exactly where the index is out of range.
  unfoldable pub generate_proof : Builder → ℕ → Outcome (MerkleProof × Builder)
  generate_proof b i = elim (get_elem? b.leaves i) [
    | none ↦ out_of_range
    | some leaf ↦
        if length b.leaves == 1
        then returned (record { leaf_hash = leaf.hash; siblings = []; leaf_index = 0 }, b)
        else prove_leaf b leaf i
  ]

pub bytes_eq_iff : (xs ys : Bytes) → (bytes_eq xs ys ≡ true) ↔ (xs ≡ ys)
unfolding bytes_eq
bytes_eq_iff [] [] = ground arith
bytes_eq_iff [] (y ∷ ys) = ground arith
bytes_eq_iff (x ∷ xs) [] = ground arith
bytes_eq_iff (x ∷ xs) (y ∷ ys) = ground (arith, bytes_eq_iff xs ys, ==_iff x y)
