-- ===== src/ZkCompute/Manager/Roots.antt =====
-- `generate_merkle_root` of src/zk_compute.cpp with the tree builder of src/merkle_provenance.cpp.
use membra_l3_cpp.Base.{
  ℕ, suc, zero, ◌+◌, ◌≡◌, refl, ap, sym, ◌∙◌, true, some, List, [], ◌∷◌, ◌++◌, map, arith, length,
  get_elem?, append-nil,
}
use membra_l3_cpp.Base.{inl, inr, List-cases}
use mathlib.Core.List.{append_assoc}
use membra_l3_cpp.Merkle.{
  Bytes, MerkleNode, MerkleProof, Builder, returned, ◌>>=◌, initial, zero_hash, create_leaf,
  add_leaf, build_root, root_of, build_tree, back, push_first, build_loop, next_level,
  create_internal, verify, generate_proof,
}
use membra_l3_cpp.Merkle.Levels.{build_loop_total}
use membra_l3_cpp.Merkle.Complete.{Paired, generate_proof-verify}
use membra_l3_cpp.ZkCompute.{ZkComputeProof, proof_data}
use membra_l3_cpp.Base.Selects.{Selects, Selects-unique}
use membra_l3_cpp.ZkCompute.Manager.Statuses.{IsVerified, proofs_of, get_verified_proofs-Selects}
use membra_l3_cpp.ZkCompute.Manager.{
  ZkComputeManager, add_leaves, generate_merkle_root, get_verified_proofs,
}

module _ {A B : Type 0} (f : A → B) where
  get_elem?-appended :
      (xs : List B) (ys : List A) (j : ℕ) (y : A)
      → get_elem? ys j ≡ some y
      → get_elem? (xs ++ map f ys) (length xs + j) ≡ some (f y)
  get_elem?-appended [] [] j y h = absurd (ground arith)
  get_elem?-appended [] (z ∷ zs) zero y h = ground arith
  get_elem?-appended [] (z ∷ zs) (suc j) y h =
      let here : zero + suc j ≡ suc j = omega arith in
      let there : zero + j ≡ j = omega arith in
      rw here (rw there at (get_elem?-appended [] zs j y h))
  get_elem?-appended (x ∷ xs) ys j y h =
      let next : suc (length xs) + j ≡ suc (length xs + j) = omega arith in
      rw next (get_elem?-appended xs ys j y h)

  length-appended : (xs : List B) (ys : List A) → length (xs ++ map f ys) ≡ length xs + length ys
  length-appended [] [] = omega arith
  length-appended [] (y ∷ ys) = omega (arith, length-appended [] ys)
  length-appended (x ∷ xs) ys = omega (arith, length-appended xs ys)

nonempty :
    {A : Type 0} (xs : List A) (j : ℕ) (x : A)
    → get_elem? xs j ≡ some x
    → (y : A) × (ys : List A) × (xs ≡ y ∷ ys)
nonempty [] j x h = absurd (ground arith)
nonempty (y ∷ ys) j x h = (y, ys, refl)

module _ (sha256 : Bytes → Bytes) where
  -- The leaf of a proof.
  abbrev pub leaf_of : ZkComputeProof → MerkleNode
  leaf_of proof = create_leaf sha256 (proof_data proof)

  pub add_leaves_lem :
      (proofs : List ZkComputeProof) (b : Builder)
      → add_leaves sha256 proofs b ≡ record b { leaves = b.leaves ++ map leaf_of proofs }
  unfolding add_leaves add_leaf
  add_leaves_lem [] b = ap (λ ls. record b { leaves = ls }) (sym (append-nil b.leaves))
  add_leaves_lem (p ∷ ps) b =
      add_leaves_lem ps (add_leaf sha256 (proof_data p) b)
      ∙ ap (λ ls. record b { leaves = ls })
          (append_assoc b.leaves (leaf_of p ∷ []) (map leaf_of ps))

  -- Both builders give one root, and keep their leaves.
  abbrev Roots : Builder → Builder → Type 0
  Roots b c =
      (root : Bytes) × (built : Builder) × (built' : Builder) × (build_root sha256 b
        ≡ returned (root, built))
      × (build_root sha256 c ≡ returned (root, built'))
      × (built.leaves ≡ b.leaves)

  build_root-leaves :
      (leaves nodes nodes' : List MerkleNode)
      → Roots
          (record { leaves = leaves; nodes = nodes })
          (record { leaves = leaves; nodes = nodes' })
  unfolding build_root root_of build_tree
  build_root-leaves [] nodes nodes' = (zero_hash, _, _, refl, refl, refl)
  build_root-leaves (x ∷ []) nodes nodes' = (x.hash, _, _, refl, refl, refl)
  build_root-leaves (x ∷ y ∷ rest) nodes nodes' =
      let (out, e, one) =
        build_loop_total sha256 (length (x ∷ y ∷ rest)) (x ∷ y ∷ rest) [] (omega arith) in
      let built : Builder = record {
        leaves = x ∷ y ∷ rest;
        nodes = push_first sha256 out.0 out.1;
      } in
      (back x.hash built.nodes, built, built, ground (arith, e), ground (arith, e), refl)

  -- `build_root` returns a root that depends on the leaves alone, and keeps them.
  pub build_root_total : (b c : Builder) → b.leaves ≡ c.leaves → Roots b c
  build_root_total b c same = rw (← same) (build_root-leaves b.leaves b.nodes c.nodes)

  build_root-one :
      (x : MerkleNode) (nodes : List MerkleNode)
      → build_root sha256 (record { leaves = x ∷ []; nodes = nodes })
        ≡ returned (x.hash, record { leaves = x ∷ []; nodes = nodes })
  unfolding build_root
  build_root-one x nodes = refl

  build_root-two :
      (x y : MerkleNode) (nodes : List MerkleNode)
      → (built : Builder) × (build_root sha256 (record { leaves = x ∷ y ∷ []; nodes = nodes })
          ≡ returned (sha256 (x.hash ++ y.hash), built))
  unfolding build_root root_of build_tree build_loop next_level create_internal back
  build_root-two x y nodes = (_, refl)

  -- Built again, a builder gives the root that it gave.
  build_root-again :
      (b built rebuilt : Builder) (root root' : Bytes)
      → build_root sha256 b ≡ returned (root, built)
      → build_root sha256 built ≡ returned (root', rebuilt)
      → b.leaves ≡ built.leaves
      → root' ≡ root
  build_root-again b built rebuilt root root' eb ec same =
      let (r, b', c', eb', ec', kept) = build_root_total b built same in
      ground (arith, eb, ec, eb', ec')

module _ {W : Type 0} (sha256 : Bytes → Bytes) where
  -- The builder after the loop of `generate_merkle_root`.
  abbrev pub filled : ZkComputeManager W → Builder
  filled m = record m.merkle_builder {
    leaves = m.merkle_builder.leaves ++ map (leaf_of sha256) (get_verified_proofs m);
  }

  generate_merkle_root-build_root :
      (m : ZkComputeManager W) (p : ZkComputeProof) (ps : List ZkComputeProof)
      → get_verified_proofs m ≡ p ∷ ps
      → generate_merkle_root sha256 m ≡ (
          build_root sha256 (filled m) >>= λ (root, built).
          returned (root, record m { merkle_builder = built }))
  unfolding generate_merkle_root
  generate_merkle_root-build_root m p ps e =
      rw (generate_merkle_root, filled, e, add_leaves_lem) refl

  -- `generate_merkle_root` always returns, and keeps the proofs: the builder then holds the leaves it
  -- had, and after them one for each verified proof in the order of the task ids.
  pub generate_merkle_root_total :
      (m : ZkComputeManager W)
      → (root : Bytes) × (m' : ZkComputeManager W) × (generate_merkle_root sha256 m
          ≡ returned (root, m'))
        × (m'.proofs ≡ m.proofs)
        × (m'.merkle_builder.leaves
            ≡ m.merkle_builder.leaves ++ map (leaf_of sha256) (get_verified_proofs m))
  unfolding generate_merkle_root
  generate_merkle_root_total m = elim (List-cases (get_verified_proofs m)) [
    | inl none_verified ↦ (
      zero_hash,
      m,
      rw (generate_merkle_root, none_verified) refl,
      refl,
      rw none_verified (sym (append-nil _)),
    )
    | inr (p, ps, e) ↦
        let (root, built, _, eb, _, kept) = build_root_total sha256 (filled m) (filled m) refl in
        (
          root,
          record m { merkle_builder = built },
          generate_merkle_root-build_root m p ps e ∙ rw eb refl,
          refl,
          kept,
        )
  ]

  -- The root commits to the verified proofs. Let `verified` be the proofs whose status is verified, in
  -- the order of the task ids. For each of them, if no node on the way up from its leaf, which comes
  -- after those that the builder had, is promoted, `generate_merkle_root` returns a root, and
  -- `generate_proof` of the builder that it leaves in the manager a proof for that leaf, which verifies
  -- against the root.
  pub generate_merkle_root-verify :
      (m : ZkComputeManager W) (verified : List ZkComputeProof) (j : ℕ) (q : ZkComputeProof)
      → Selects IsVerified (proofs_of m.proofs) verified
      → get_elem? verified j ≡ some q
      → Paired
          (length m.merkle_builder.leaves + length verified)
          (length m.merkle_builder.leaves + j)
      → (root : Bytes) × (m' : ZkComputeManager W) × (proof : MerkleProof) × (proved : Builder)
        × (generate_merkle_root sha256 m ≡ returned (root, m'))
        × (m'.proofs ≡ m.proofs)
        × (generate_proof sha256 m'.merkle_builder (length m.merkle_builder.leaves + j)
            ≡ returned (proof, proved))
        × (proof.leaf_hash ≡ sha256 (proof_data q))
        × (verify sha256 proof root ≡ true)
  generate_merkle_root-verify m verified j q selected found path =
      let picked : get_verified_proofs m ≡ verified =
        Selects-unique (get_verified_proofs-Selects m) selected in
      let (p, ps, some_verified) = nonempty verified j q found in
      let (root, built, _, eb, _, kept) = build_root_total sha256 (filled m) (filled m) refl in
      let leaves : built.leaves ≡ m.merkle_builder.leaves ++ map (leaf_of sha256) verified =
        kept ∙ ap (λ l. m.merkle_builder.leaves ++ map (leaf_of sha256) l) picked in
      let at : get_elem? built.leaves (length m.merkle_builder.leaves + j)
          ≡ some (leaf_of sha256 q) =
        rw leaves
          (get_elem?-appended (leaf_of sha256) m.merkle_builder.leaves verified j q found) in
      let up : Paired (length built.leaves) (length m.merkle_builder.leaves + j) =
        rw (leaves, length-appended (leaf_of sha256) m.merkle_builder.leaves verified) path in
      let (root', siblings, (gives_root, gives_proof), good) =
        generate_proof-verify sha256 built (length m.merkle_builder.leaves + j) (leaf_of sha256 q)
          at up in
      let (rebuilt, ec) = gives_root in
      let (proved, ep) = gives_proof in
      let same = build_root-again sha256 (filled m) built rebuilt root root' eb ec (sym kept) in
      (
        root,
        record m { merkle_builder = built },
        _,
        proved,
        generate_merkle_root-build_root m p ps (picked ∙ some_verified) ∙ rw eb refl,
        refl,
        ep,
        unfold create_leaf in refl,
        rw (← same) good,
      )

  filled-one :
      (m : ZkComputeManager W) (p : ZkComputeProof) (b : Builder)
      → get_verified_proofs m ≡ p ∷ []
      → m.merkle_builder ≡ b
      → filled m ≡ record { leaves = b.leaves ++ (leaf_of sha256 p ∷ []); nodes = b.nodes }
  filled-one m p b one here = rw (filled, one, here) refl

  -- The leaves stay in the builder: on a manager with one verified proof and a fresh builder the first
  -- call returns the hash of its leaf, and the second call a different expression, the hash of that leaf
  -- twice, although nothing was submitted or verified in between.
  pub generate_merkle_root-again :
      (m : ZkComputeManager W) (p : ZkComputeProof)
      → get_verified_proofs m ≡ p ∷ []
      → m.merkle_builder ≡ initial
      → let h = sha256 (proof_data p) in
        (m' : ZkComputeManager W) × (m'' : ZkComputeManager W) × (generate_merkle_root sha256 m
          ≡ returned (h, m'))
        × (generate_merkle_root sha256 m' ≡ returned (sha256 (h ++ h), m''))
  generate_merkle_root-again m p one fresh =
      let leaf = leaf_of sha256 p in
      let m' = record m { merkle_builder = record { leaves = leaf ∷ []; nodes = [] } } in
      let one' : get_verified_proofs m' ≡ p ∷ [] = unfold get_verified_proofs in one in
      let (built, eb) = build_root-two sha256 leaf leaf [] in
      (
        m',
        record m { merkle_builder = built },
        generate_merkle_root-build_root m p [] one
            ∙ rw (filled-one m p initial one fresh, build_root-one sha256 leaf [])
                (unfold create_leaf in refl),
        generate_merkle_root-build_root m' p [] one'
            ∙ rw (filled-one m' p (record { leaves = leaf ∷ []; nodes = [] }) one' refl, eb)
                (unfold create_leaf in refl),
      )
