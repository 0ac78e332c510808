-- ===== src/Merkle/Binding.antt =====
-- What `MerkleProof::verify` of src/merkle_provenance.cpp binds a prover to.
use membra_l3_cpp.Base.{
  ℕ, ◌/◌, ◌%◌, ◌≡◌, ◌≢◌, refl, ◌⊎◌, inl, inr, List, [], ◌∷◌, ◌++◌, arith, ◌==◌, true, Bool-cases,
  length, All, ◌∙◌, sym,
}
use mathlib.Core.Path.{ap₂, subst}
use membra_l3_cpp.Merkle.{
  Bytes, MerkleProof, verify_step, verify_loop, verify, bytes_eq_iff, bytes_eq,
}

pub append_inj :
    (xs ys zs ws : Bytes) → length xs ≡ length zs → xs ++ ys ≡ zs ++ ws → (xs ≡ zs) × (ys ≡ ws)
append_inj [] ys [] ws len e = (refl, e)
append_inj [] ys (z ∷ zs) ws len e = absurd (omega arith)
append_inj (x ∷ xs) ys [] ws len e = absurd (omega arith)
append_inj (x ∷ xs) ys (z ∷ zs) ws len e = ground (arith, append_inj xs ys zs ws (omega arith))

module _ (sha256 : Bytes → Bytes) where
  -- Two inputs with one hash.
  abbrev pub Collision : Type 0
  Collision = (x : Bytes) × (y : Bytes) × (x ≢ y) × (sha256 x ≡ sha256 y)

  abbrev pub Hashes : List Bytes → Type 0
  Hashes = All (λ h. length h ≡ 32)

  pub equal_or_collide : (x y : Bytes) → sha256 x ≡ sha256 y → (x ≡ y) ⊎ Collision
  equal_or_collide x y e = elim (Bool-cases (bytes_eq x y)) [
    | inl same ↦ inl ((bytes_eq_iff x y).0 same)
    | inr differ ↦ inr (x, y, (λ p. cc ((bytes_eq_iff x y).1 p)), e)
  ]

  verify_step_inj :
      (x y s t : Bytes) (i : ℕ)
      → length x ≡ length y
      → length s ≡ length t
      → verify_step sha256 x i s ≡ verify_step sha256 y i t
      → ((x ≡ y) × (s ≡ t)) ⊎ Collision
  verify_step_inj x y s t i lx ls e = elim (Bool-cases ((i % 2) == 0)) [
    | inl left ↦ elim (equal_or_collide (x ++ s) (y ++ t) (unfold verify_step in rw left at e)) [
      | inl same ↦ inl (append_inj x s y t lx same)
      | inr c ↦ inr c
    ]
    | inr right ↦ elim (equal_or_collide (s ++ x) (t ++ y) (unfold verify_step in rw right at e)) [
      | inl same ↦ let (p, q) = append_inj s x t y ls same in inl (q, p)
      | inr c ↦ inr c
    ]
  ]

  module _ (sha256-length : (x : Bytes) → length (sha256 x) ≡ 32) where
    verify_step-length : (x s : Bytes) (i : ℕ) → length (verify_step sha256 x i s) ≡ 32
    unfolding verify_step
    verify_step-length x s i = ground (arith, sha256-length (x ++ s), sha256-length (s ++ x))

    verify_loop_inj :
        (ss ts : List Bytes) (x y : Bytes) (i : ℕ)
        → length ss ≡ length ts
        → (length x ≡ 32) × (length y ≡ 32)
        → Hashes ss × Hashes ts
        → verify_loop sha256 x i ss ≡ verify_loop sha256 y i ts
        → ((x ≡ y) × (ss ≡ ts)) ⊎ Collision
    unfolding verify_loop
    verify_loop_inj [] [] x y i len l h e = inl (e, refl)
    verify_loop_inj [] (t ∷ ts) x y i len l h e = absurd (omega arith)
    verify_loop_inj (s ∷ ss) [] x y i len l h e = absurd (omega arith)
    verify_loop_inj (s ∷ ss) (t ∷ ts) x y i len l h e =
        elim (verify_loop_inj ss ts (verify_step sha256 x i s) (verify_step sha256 y i t) (i / 2)
          (omega arith) (verify_step-length x s i, verify_step-length y t i) (h.0.1, h.1.1) e) [
            | inl (same, tails) ↦
                elim (verify_step_inj x y s t i (omega arith) (omega arith) same) [
                  | inl (p, q) ↦ inl (p, ap₂ ◌∷◌ q tails)
                  | inr c ↦ inr c
                ]
            | inr c ↦ inr c
          ]

    -- Two proofs for one index, with as many siblings, that verify against one root agree in the
    -- leaf and in every sibling, or else they exhibit a collision of SHA-256.
    pub verify_binding :
        (p q : MerkleProof) (root : Bytes)
        → p.leaf_index ≡ q.leaf_index
        → length p.siblings ≡ length q.siblings
        → (length p.leaf_hash ≡ 32) × (length q.leaf_hash ≡ 32)
        → Hashes p.siblings × Hashes q.siblings
        → verify sha256 p root ≡ true
        → verify sha256 q root ≡ true
        → (p ≡ q) ⊎ Collision
    unfolding verify
    verify_binding p q root ei len l h vp vq =
        elim (verify_loop_inj p.siblings q.siblings p.leaf_hash q.leaf_hash p.leaf_index len l h (
          (bytes_eq_iff _ root).0 vp
          ∙ sym (
              subst (λ i. verify_loop sha256 q.leaf_hash i q.siblings ≡ root) (sym ei)
                ((bytes_eq_iff _ root).0 vq)))) [
                  | inl (same, tails) ↦ inl (ground arith)
                  | inr c ↦ inr c
                ]
