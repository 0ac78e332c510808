-- ===== src/Merkle/Levels.antt =====
-- The loops over the levels of the tree in src/merkle_provenance.cpp: sizes, siblings, termination.
use membra_l3_cpp.Base.{
  ℕ, zero, suc, ◌+◌, ◌/◌, ◌%◌, ◌≤◌, ◌<◌, ◌≡◌, refl, sym, ◌∙◌, inl, inr, List, [], ◌∷◌, ◌++◌, arith,
  ltb, Bool-cases, some, none, length, get_elem?,
}
use membra_l3_cpp.Merkle.{
  Bytes, MerkleNode, returned, sibling_index, next_level, build_loop, proof_loop, push_sibling,
  verify_step, create_internal,
}

sibling_index-suc-suc : (i : ℕ) → sibling_index (suc (suc i)) ≡ suc (suc (sibling_index i))
unfolding sibling_index
sibling_index-suc-suc i = ground arith

half-suc-suc : (i : ℕ) → suc (suc i) / 2 ≡ suc (i / 2)
half-suc-suc i = omega arith

module _ (sha256 : Bytes → Bytes) where
  verify_step-suc-suc :
      (x y : Bytes) (i : ℕ) → verify_step sha256 x (suc (suc i)) y ≡ verify_step sha256 x i y
  unfolding verify_step
  verify_step-suc-suc x y i = ground arith

  -- A level of n nodes is followed by one of ⌈n / 2⌉.
  pub length-next_level :
      (level : List MerkleNode) → length (next_level sha256 level) ≡ (length level + 1) / 2
  unfolding next_level
  length-next_level [] = refl
  length-next_level (a ∷ []) = refl
  length-next_level (a ∷ b ∷ rest) = omega (arith, length-next_level rest)

  pub build_loop_more :
      (fuel : ℕ) (level nodes : List MerkleNode)
      → 1 < length level
      → build_loop sha256 (suc fuel) level nodes
        ≡ build_loop sha256 fuel (next_level sha256 level) (nodes ++ level)
  unfolding build_loop
  build_loop_more fuel level nodes more = ground arith

  pub proof_loop_more :
      (fuel : ℕ) (level : List MerkleNode) (i : ℕ) (siblings : List Bytes)
      → 1 < length level
      → proof_loop sha256 (suc fuel) level i siblings
        ≡ proof_loop sha256 fuel
            (next_level sha256 level)
            (i / 2)
            (push_sibling sha256 siblings (get_elem? level (sibling_index i)))
  unfolding proof_loop
  proof_loop_more fuel level i siblings more = ground arith

  -- The loop of `build_tree` ends within its fuel, with at most one node left.
  pub build_loop_total :
      (fuel : ℕ) (level nodes : List MerkleNode)
      → length level ≤ fuel
      → (out : List MerkleNode × List MerkleNode) × (build_loop sha256 (suc fuel) level nodes
          ≡ returned out)
        × (length out.1 ≤ 1)
  unfolding build_loop
  build_loop_total zero level nodes h = ((nodes, level), ground arith, omega arith)
  build_loop_total (suc fuel) level nodes h = elim (Bool-cases (ltb 1 (length level))) [
    | inl more ↦ rw more (
        build_loop_total fuel (next_level sha256 level) (nodes ++ level)
          (ground (arith, length-next_level level)))
    | inr done ↦ ((nodes, level), rw done, ground arith)
  ]

  -- The loop of `generate_proof_recursive` ends within its fuel.
  pub proof_loop_total :
      (fuel : ℕ) (level : List MerkleNode) (i : ℕ) (siblings : List Bytes)
      → length level ≤ fuel
      → (out : List Bytes) × (proof_loop sha256 (suc fuel) level i siblings ≡ returned out)
  unfolding proof_loop
  proof_loop_total zero level i siblings h = (siblings, ground arith)
  proof_loop_total (suc fuel) level i siblings h = elim (Bool-cases (ltb 1 (length level))) [
    | inl more ↦ rw more (
        proof_loop_total fuel (next_level sha256 level) (i / 2) _
          (ground (arith, length-next_level level)))
    | inr done ↦ (siblings, rw done)
  ]

  -- A node and its sibling are hashed into the node above them in the order of their indices.
  pub next_level-sibling :
      (level : List MerkleNode) (i : ℕ) (x : MerkleNode)
      → get_elem? level i ≡ some x
      → sibling_index i < length level
      → (y z : MerkleNode) × (get_elem? level (sibling_index i) ≡ some y)
        × (get_elem? (next_level sha256 level) (i / 2) ≡ some z)
        × (z.hash ≡ verify_step sha256 x.hash i y.hash)
  unfolding next_level
  next_level-sibling [] i x e h = absurd (ground arith)
  next_level-sibling (a ∷ []) zero x e h = unfold sibling_index in absurd (ground arith)
  next_level-sibling (a ∷ []) (suc i) x e h = absurd (ground arith)
  next_level-sibling (a ∷ b ∷ rest) zero x e h =
      unfold sibling_index verify_step create_internal in
      (b, create_internal sha256 a.hash b.hash, refl, refl, ground arith)
  next_level-sibling (a ∷ b ∷ rest) (suc zero) x e h =
      unfold sibling_index verify_step create_internal in
      (a, create_internal sha256 a.hash b.hash, refl, refl, ground arith)
  next_level-sibling (a ∷ b ∷ rest) (suc (suc i)) x e h =
      let (y, z, ey, ez, ehash) =
        next_level-sibling rest i x e (omega (arith, sibling_index-suc-suc i)) in
      rw (sibling_index-suc-suc i, half-suc-suc i)
        (y, z, ey, ez, ehash ∙ sym (verify_step-suc-suc x.hash y.hash i))

  -- A node without a sibling is promoted as it is.
  pub next_level-promoted :
      (level : List MerkleNode) (i : ℕ) (x : MerkleNode)
      → get_elem? level i ≡ some x
      → length level ≤ sibling_index i
      → (get_elem? level (sibling_index i) ≡ none)
        × (get_elem? (next_level sha256 level) (i / 2) ≡ some x)
        × (length level ≡ i + 1)
        × (i % 2 ≡ 0)
  unfolding next_level
  next_level-promoted [] i x e h = absurd (ground arith)
  next_level-promoted (a ∷ []) zero x e h = unfold sibling_index in (refl, e, refl, refl)
  next_level-promoted (a ∷ []) (suc i) x e h = absurd (ground arith)
  next_level-promoted (a ∷ b ∷ rest) zero x e h = unfold sibling_index in absurd (omega arith)
  next_level-promoted (a ∷ b ∷ rest) (suc zero) x e h = unfold sibling_index in absurd (omega arith)
  next_level-promoted (a ∷ b ∷ rest) (suc (suc i)) x e h =
      let (missing, up, len, even) =
        next_level-promoted rest i x e (omega (arith, sibling_index-suc-suc i)) in
      rw (sibling_index-suc-suc i, half-suc-suc i) (missing, up, omega arith, omega arith)
