-- ===== src/Merkle/Folds.antt =====
-- Proofs of src/merkle_provenance.cpp read without their sides: lists of siblings, each hashed on either
-- side.
use membra_l3_cpp.Base.{
  ℕ, ◌/◌, ◌%◌, ◌≡◌, refl, sym, ◌∙◌, ◌⊎◌, inl, inr, List, [], ◌∷◌, ◌++◌, arith, ◌==◌, Bool-cases,
  length,
}
use membra_l3_cpp.Merkle.{Bytes, verify_step, verify_loop}
use membra_l3_cpp.Merkle.Binding.{Collision, Hashes, append_inj, equal_or_collide}

module _ (sha256 : Bytes → Bytes) where
  -- The siblings lead from one hash to the other, each on either side.
  pub data Folds : Bytes → List Bytes → Bytes → Type 0 where
    done : (x : Bytes) → Folds x [] x
    left : (x s r : Bytes) (ss : List Bytes) → Folds (sha256 (x ++ s)) ss r → Folds x (s ∷ ss) r
    right : (x s r : Bytes) (ss : List Bytes) → Folds (sha256 (s ++ x)) ss r → Folds x (s ∷ ss) r

  pub verify_step-Folds :
      (x s r : Bytes) (i : ℕ) (ss : List Bytes)
      → Folds (verify_step sha256 x i s) ss r
      → Folds x (s ∷ ss) r
  verify_step-Folds x s r i ss f = elim (Bool-cases ((i % 2) == 0)) [
    | inl even ↦ left x s r ss (unfold verify_step in rw even at f)
    | inr odd ↦ right x s r ss (unfold verify_step in rw odd at f)
  ]

  pub verify_loop-Folds :
      (ss : List Bytes) (x : Bytes) (i : ℕ) → Folds x ss (verify_loop sha256 x i ss)
  unfolding verify_loop
  verify_loop-Folds [] x i = done x
  verify_loop-Folds (s ∷ ss) x i =
      verify_step-Folds x s _ i ss (verify_loop-Folds ss (verify_step sha256 x i s) (i / 2))

  Folds-nil : {x r : Bytes} → Folds x [] r → x ≡ r
  Folds-nil (done x) = refl

  Folds-cons :
      {x s r : Bytes} {ss : List Bytes}
      → Folds x (s ∷ ss) r
      → Folds (sha256 (x ++ s)) ss r ⊎ Folds (sha256 (s ++ x)) ss r
  Folds-cons (left x s r ss f) = inl f
  Folds-cons (right x s r ss f) = inr f

  module _ (sha256-length : (x : Bytes) → length (sha256 x) ≡ 32) where
    pub sides :
        (x s y t : Bytes)
        → length x ≡ 32
        → length s ≡ 32
        → length y ≡ 32
        → length t ≡ 32
        → sha256 (x ++ s) ≡ sha256 (y ++ t)
        → ((x ≡ y) × (s ≡ t)) ⊎ Collision sha256
    sides x s y t lx ls ly lt e = elim (equal_or_collide sha256 (x ++ s) (y ++ t) e) [
      | inl same ↦ inl (append_inj x s y t (omega arith) same)
      | inr c ↦ inr c
    ]

    pub pick :
        {x y : Bytes} {P : Type 0} → (P → x ≡ y) → P ⊎ Collision sha256 → (x ≡ y) ⊎ Collision sha256
    pick k (inl p) = inl (k p)
    pick k (inr c) = inr c

    pub merge :
        {x y u v : Bytes}
        → (u ≡ v → (x ≡ y) ⊎ Collision sha256)
        → (u ≡ v) ⊎ Collision sha256
        → (x ≡ y) ⊎ Collision sha256
    merge k (inl e) = k e
    merge k (inr c) = inr c

    -- Whatever the sides, one list of siblings leads to one root from one leaf only.
    pub Folds-inj :
        (ss : List Bytes) {x y r : Bytes}
        → Folds x ss r
        → Folds y ss r
        → length x ≡ 32
        → length y ≡ 32
        → Hashes sha256 ss
        → (x ≡ y) ⊎ Collision sha256
    Folds-inj [] f g lx ly h = inl (Folds-nil f ∙ sym (Folds-nil g))
    Folds-inj (s ∷ ss) {x} {y} f g lx ly h = elim (Folds-cons f) [
      | inl f' ↦ elim (Folds-cons g) [
        | inl g' ↦
            merge (λ e. pick (λ p. p.0) (sides x s y s lx h.0 ly h.0 e))
              (Folds-inj ss f' g' (sha256-length _) (sha256-length _) h.1)
        | inr g' ↦
            merge (λ e. pick (λ p. p.0 ∙ p.1) (sides x s s y lx h.0 h.0 ly e))
              (Folds-inj ss f' g' (sha256-length _) (sha256-length _) h.1)
      ]
      | inr f' ↦ elim (Folds-cons g) [
        | inl g' ↦
            merge (λ e. pick (λ p. p.1 ∙ p.0) (sides s x y s h.0 lx ly h.0 e))
              (Folds-inj ss f' g' (sha256-length _) (sha256-length _) h.1)
        | inr g' ↦
            merge (λ e. pick (λ p. p.1) (sides s x s y h.0 lx h.0 ly e))
              (Folds-inj ss f' g' (sha256-length _) (sha256-length _) h.1)
      ]
    ]
