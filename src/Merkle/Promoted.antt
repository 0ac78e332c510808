-- ===== src/Merkle/Promoted.antt =====
-- Odd levels of src/merkle_provenance.cpp: what `verify` accepts where `build_tree` promoted a node.
use mathlib.Core.Option.{some-injective}
use mathlib.Core.Path.{subst}
use native.Mathlib.Decide.{dec_lt}
use membra_l3_cpp.Base.{
  ℕ, zero, suc, ◌+◌, ◌*◌, ◌/◌, ◌%◌, ◌≤◌, ◌<◌, ◌≡◌, refl, sym, ap, ◌∙◌, ◌⊎◌, inl, inr, List, [], ◌∷◌,
  ◌++◌, arith, Bool-cases, some, none, length, get_elem?, All, false,
}
use membra_l3_cpp.Merkle.{
  bytes_eq, Bytes, MerkleNode, Builder, sibling_index, next_level, verify_step, verify_loop, verify,
  bytes_eq_iff, create_internal,
}
use membra_l3_cpp.Merkle.Levels.{length-next_level, next_level-sibling, next_level-promoted}
use membra_l3_cpp.Merkle.Climb.{Runs, Runs-one, Runs-pair, Runs-promoted, Gives, Runs-Gives}
use membra_l3_cpp.Merkle.Binding.{Collision, Hashes}
use membra_l3_cpp.Merkle.Folds.{
  Folds, done, verify_step-Folds, verify_loop-Folds, sides, pick, merge, Folds-inj,
}

module _ (sha256 : Bytes → Bytes) where
  module _ (sha256-length : (x : Bytes) → length (sha256 x) ≡ 32) where
    abbrev Sized : List MerkleNode → Type 0
    Sized = All (λ n. length n.hash ≡ 32)

    next_level-Sized : (level : List MerkleNode) → Sized level → Sized (next_level sha256 level)
    unfolding next_level create_internal
    next_level-Sized [] h = tt
    next_level-Sized (a ∷ []) h = h
    next_level-Sized (a ∷ b ∷ rest) h = (sha256-length _, next_level-Sized rest h.1.1)

    Sized-elem :
        (level : List MerkleNode) (i : ℕ) (x : MerkleNode)
        → Sized level
        → get_elem? level i ≡ some x
        → length x.hash ≡ 32
    Sized-elem [] i x h e = absurd (ground arith)
    Sized-elem (a ∷ level) zero x h e = ground arith
    Sized-elem (a ∷ level) (suc i) x h e = Sized-elem level i x h.1 e

    -- The last of several nodes has its first sibling on its left.
    abbrev LastFolds : ℕ → ℕ → Bytes → List Bytes → Bytes → Type 0
    LastFolds n i x siblings root =
        n ≡ i + 1
        → 1 < n
        → (s : Bytes) × (ss : List Bytes) × (siblings ≡ s ∷ ss)
          × Folds sha256 (sha256 (s ++ x)) ss root

    abbrev Ascent : ℕ → List MerkleNode → ℕ → MerkleNode → Type 0
    Ascent fuel level i x =
        (root : MerkleNode) × (siblings : List Bytes) × Runs sha256 fuel level i root siblings
        × Hashes sha256 siblings
        × Folds sha256 x.hash siblings root.hash
        × LastFolds (length level) i x.hash siblings root.hash

    last_right :
        (i : ℕ) (x s : Bytes) → sibling_index i < i + 1 → verify_step sha256 x i s ≡ sha256 (s ++ x)
    unfolding sibling_index verify_step
    last_right i x s h = ground arith

    Ascent-pair :
        (fuel i : ℕ) (level : List MerkleNode) (x y z : MerkleNode)
        → Sized level
        → 1 < length level
        → sibling_index i < length level
        → get_elem? level (sibling_index i) ≡ some y
        → z.hash ≡ verify_step sha256 x.hash i y.hash
        → Ascent fuel (next_level sha256 level) (i / 2) z
        → Ascent (suc fuel) level i x
    Ascent-pair fuel i level x y z sized more beside ey ehash (root, ss, runs, hashes, folds, _) = (
      root,
      y.hash ∷ ss,
      Runs-pair sha256 fuel i level more runs y ey,
      (Sized-elem level _ y sized ey, hashes),
      verify_step-Folds sha256 x.hash y.hash root.hash i ss (rw ehash at folds),
      λ last _. (y.hash, ss, refl, subst (λ h. Folds sha256 h ss root.hash) (right_of last) folds),
    )
      where
        right_of : length level ≡ i + 1 → z.hash ≡ sha256 (y.hash ++ x.hash)
        right_of last = ehash ∙ last_right i x.hash y.hash (omega arith)

    Ascent-promoted :
        (fuel i : ℕ) (level : List MerkleNode) (x : MerkleNode)
        → 1 < length level
        → get_elem? level (sibling_index i) ≡ none
        → (length level ≡ i + 1) × (i % 2 ≡ 0)
        → Ascent fuel (next_level sha256 level) (i / 2) x
        → Ascent (suc fuel) level i x
    Ascent-promoted fuel i level x more missing end (root, ss, runs, hashes, folds, last) = (
      root,
      ss,
      Runs-promoted sha256 fuel i level more runs missing,
      hashes,
      folds,
      λ _ _.
          last (omega (arith, length-next_level sha256 level))
            (omega (arith, length-next_level sha256 level)),
    )

    ascent :
        (fuel i : ℕ) (level : List MerkleNode) (x : MerkleNode)
        → Sized level
        → length level ≤ suc fuel
        → get_elem? level i ≡ some x
        → Ascent fuel level i x
    ascent fuel i [] x sized len e = absurd (ground arith)
    ascent fuel zero (a ∷ []) x sized len e = (
      a,
      [],
      Runs-one sha256 fuel 0 a,
      tt,
      subst (λ n. Folds sha256 n.hash [] a.hash) (some-injective _ _ e) (done a.hash),
      λ _ more. absurd (omega arith),
    )
    ascent fuel (suc i) (a ∷ []) x sized len e = absurd (ground arith)
    ascent zero i (a ∷ b ∷ rest) x sized len e = absurd (omega arith)
    ascent (suc fuel) i (a ∷ b ∷ rest) x sized len e =
        elim (dec_lt (sibling_index i) (length level)) [
          | yes beside ↦
              let (y, z, ey, ez, ehash) = next_level-sibling sha256 level i x e beside in
              Ascent-pair fuel i level x y z sized (omega arith) beside ey ehash (
                ascent fuel (i / 2) (next_level sha256 level) z (next_level-Sized level sized)
                  (omega (arith, length-next_level sha256 level)) ez)
          | no alone ↦
              let (missing, up, last, even) =
                next_level-promoted sha256 level i x e (omega arith) in
              Ascent-promoted fuel i level x (omega arith) missing (last, even)
                (ascent fuel (i / 2) (next_level sha256 level) x (next_level-Sized level sized)
                  (omega (arith, length-next_level sha256 level)) up)
        ]
      where
        level : List MerkleNode
        level = a ∷ b ∷ rest

    even_step : (i : ℕ) (x s : Bytes) → i % 2 ≡ 0 → verify_step sha256 x i s ≡ sha256 (x ++ s)
    unfolding verify_step
    even_step i x s even = ground arith

    wrong_side :
        (i : ℕ) (x s r : Bytes) (ss : List Bytes)
        → i % 2 ≡ 0
        → length x ≡ 32
        → Hashes sha256 (s ∷ ss)
        → Folds sha256 (sha256 (s ++ x)) ss r
        → verify_loop sha256 x i (s ∷ ss) ≡ r
        → (x ≡ s) ⊎ Collision sha256
    unfolding verify_loop
    wrong_side i x s r ss even lx h fold e =
        merge sha256 sha256-length
          (λ same.
            pick sha256 sha256-length (λ p. p.0)
              (sides sha256 sha256-length x s s x lx h.0 h.0 lx same))
          (Folds-inj sha256 sha256-length ss
            (subst (λ t. Folds sha256 (sha256 (x ++ s)) ss t)
              (ap (λ t. verify_loop sha256 t (i / 2) ss) (sym (even_step i x s even)) ∙ e)
              (verify_loop-Folds sha256 ss (sha256 (x ++ s)) (i / 2)))
            fold (sha256-length _) (sha256-length _) h.1)

    -- Promotion breaks the last proof: where the number of leaves is odd and at least 3, the proof of
    -- the last leaf that `generate_proof` returns is refused by `verify` against the root that
    -- `build_root` returns, unless the leaf's hash is also its first sibling's or SHA-256 has a
    -- collision.
    pub generate_proof-promoted :
        (b : Builder) (m : ℕ) (leaf : MerkleNode)
        → Sized b.leaves
        → length b.leaves ≡ 2 * m + 3
        → get_elem? b.leaves (2 * m + 2) ≡ some leaf
        → (root : Bytes) × (siblings : List Bytes) × Gives sha256 b (2 * m + 2) leaf root siblings
          × ((verify sha256
                  (record { leaf_hash = leaf.hash; siblings = siblings; leaf_index = 2 * m + 2 })
                  root
                ≡ false)
              ⊎ ((get_elem? siblings 0 ≡ some leaf.hash) ⊎ Collision sha256))
    unfolding verify
    generate_proof-promoted b m leaf sized odd e =
        let (root, siblings, runs, hashes, _, last) =
          ascent (length b.leaves) (2 * m + 2) b.leaves leaf sized (omega arith) e in
        let (s, ss, cons, onward) = last (omega arith) (omega arith) in
        (
          root.hash,
          siblings,
          Runs-Gives sha256 b (2 * m + 2) leaf root siblings e runs,
          elim (Bool-cases
              (bytes_eq (verify_loop sha256 leaf.hash (2 * m + 2) siblings) root.hash)) [
                | inr refused ↦ inl refused
                | inl accepted ↦
                    inr
                      (elim (wrong_side (2 * m + 2) leaf.hash s root.hash ss (omega arith)
                        (Sized-elem b.leaves _ leaf sized e) (rw cons at hashes) onward
                        (ap (verify_loop sha256 leaf.hash (2 * m + 2)) (sym cons)
                          ∙ (bytes_eq_iff _ _).0 accepted)) [
                            | inl same ↦ inl (rw cons (ap some (sym same)))
                            | inr c ↦ inr c
                          ])
              ],
        )
