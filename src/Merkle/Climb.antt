-- ===== src/Merkle/Climb.antt =====
-- The two loops of src/merkle_provenance.cpp side by side: `build_tree` and
-- `generate_proof_recursive` climb the same levels.
use mathlib.Core.List.{append_assoc}
use membra_l3_cpp.Base.{
  ℕ, zero, suc, ◌/◌, ◌<◌, ◌≡◌, refl, sym, ap, ◌∙◌, List, [], ◌∷◌, ◌++◌, arith, some, none, length,
  get_elem?, append-nil,
}
use membra_l3_cpp.Merkle.{
  Bytes, MerkleNode, Builder, returned, sibling_index, next_level, build_loop, proof_loop,
  build_root, generate_proof, back, root_of, build_tree, prove_leaf, generate_proof_recursive,
}
use membra_l3_cpp.Merkle.Levels.{build_loop_more, proof_loop_more}

module _ (sha256 : Bytes → Bytes) where
  -- From one level on the loops end with the root and with the siblings.
  abbrev pub Runs : ℕ → List MerkleNode → ℕ → MerkleNode → List Bytes → Type 0
  Runs fuel level i root siblings =
      ((nodes : List MerkleNode)
        → (before : List MerkleNode) × (build_loop sha256 (suc fuel) level nodes
            ≡ returned (before, root ∷ [])))
      × ((pushed : List Bytes)
          → proof_loop sha256 (suc fuel) level i pushed ≡ returned (pushed ++ siblings))

  pub Runs-one : (fuel i : ℕ) (a : MerkleNode) → Runs fuel (a ∷ []) i a []
  unfolding build_loop proof_loop
  Runs-one fuel i a = ((λ nodes. (nodes, refl)), λ pushed. ap returned (sym (append-nil pushed)))

  module _ (fuel i : ℕ) (level : List MerkleNode) {root : MerkleNode} {siblings : List Bytes}
      (more : 1 < length level)
      (up : Runs fuel (next_level sha256 level) (i / 2) root siblings) where
    build_up :
        (nodes : List MerkleNode)
        → (before : List MerkleNode) × (build_loop sha256 (suc (suc fuel)) level nodes
            ≡ returned (before, root ∷ []))
    build_up nodes =
        let (before, e) = up.0 (nodes ++ level) in
        (before, build_loop_more sha256 (suc fuel) level nodes more ∙ e)

    pub Runs-pair :
        (y : MerkleNode)
        → get_elem? level (sibling_index i) ≡ some y
        → Runs (suc fuel) level i root (y.hash ∷ siblings)
    Runs-pair y e = (
      build_up,
      λ pushed.
          proof_loop_more sha256 (suc fuel) level i pushed more
          ∙ rw e (
              up.1 (pushed ++ (y.hash ∷ []))
              ∙ ap returned (append_assoc pushed (y.hash ∷ []) siblings)),
    )

    pub Runs-promoted :
        get_elem? level (sibling_index i) ≡ none → Runs (suc fuel) level i root siblings
    Runs-promoted e = (
      build_up,
      λ pushed. proof_loop_more sha256 (suc fuel) level i pushed more ∙ rw e (up.1 pushed),
    )

  back-append :
      (d : Bytes) (before : List MerkleNode) (n : MerkleNode) → back d (before ++ (n ∷ [])) ≡ n.hash
  unfolding back
  back-append d [] n = refl
  back-append d (a ∷ []) n = refl
  back-append d (a ∷ b ∷ before) n = back-append d (b ∷ before) n

  -- `build_root` and `generate_proof` return the root and a proof of the leaf with the siblings.
  abbrev pub Gives : Builder → ℕ → MerkleNode → Bytes → List Bytes → Type 0
  Gives b i leaf root siblings =
      ((built : Builder) × (build_root sha256 b ≡ returned (root, built)))
      × ((proved : Builder) × (generate_proof sha256 b i
            ≡ returned
                (record { leaf_hash = leaf.hash; siblings = siblings; leaf_index = i }, proved)))

  Runs-Gives_leaves :
      (leaves nodes : List MerkleNode) (i : ℕ) (leaf root : MerkleNode) (siblings : List Bytes)
      → get_elem? leaves i ≡ some leaf
      → Runs (length leaves) leaves i root siblings
      → Gives (record { leaves = leaves; nodes = nodes }) i leaf root.hash siblings
  unfolding build_root root_of build_tree generate_proof prove_leaf generate_proof_recursive
  Runs-Gives_leaves [] nodes i leaf root siblings e r = absurd (ground arith)
  Runs-Gives_leaves (a ∷ []) nodes (suc i) leaf root siblings e r = absurd (ground arith)
  Runs-Gives_leaves (a ∷ []) nodes zero leaf root siblings e (built, proved) =
      let b : Builder = record { leaves = a ∷ []; nodes = nodes } in
      unfold build_loop proof_loop in
      ((b, ground (arith, (built []).1)), (b, ground (arith, proved [])))
  Runs-Gives_leaves (a ∷ a' ∷ rest) nodes i leaf root siblings e (built, proved) =
      let (before, eb) = built [] in
      let after : Builder = record { leaves = a ∷ a' ∷ rest; nodes = before ++ (root ∷ []) } in
      ((after, rw (eb, back-append) refl), (after, ground (arith, eb, proved [])))

  pub Runs-Gives :
      (b : Builder) (i : ℕ) (leaf root : MerkleNode) (siblings : List Bytes)
      → get_elem? b.leaves i ≡ some leaf
      → Runs (length b.leaves) b.leaves i root siblings
      → Gives b i leaf root.hash siblings
  Runs-Gives b i leaf root siblings e r =
      Runs-Gives_leaves b.leaves b.nodes i leaf root siblings e r
