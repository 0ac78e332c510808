-- ===== src/Merkle/Complete.antt =====
-- Proofs of src/merkle_provenance.cpp that verify: `generate_proof` against `build_root`.
use mathlib.Core.Path.{subst}
use native.Mathlib.Nat.{pow-suc}
use membra_l3_cpp.Base.{
  ℕ, zero, suc, ◌+◌, ◌/◌, ◌*◌, ◌^◌, ◌≤◌, ◌<◌, ◌≡◌, refl, List, [], ◌∷◌, arith, some, true, length,
  get_elem?,
}
use membra_l3_cpp.Merkle.{
  Bytes, MerkleNode, Builder, sibling_index, next_level, verify_loop, verify, bytes_eq_iff,
}
use membra_l3_cpp.Merkle.Levels.{length-next_level, next_level-sibling}
use membra_l3_cpp.Merkle.Climb.{Runs, Runs-one, Runs-pair, Gives, Runs-Gives}

-- On the way up from node `i` of a level of `n` nodes no node is promoted without a sibling.
pub data Paired : ℕ → ℕ → Type 0 where
  top : (n i : ℕ) → n ≡ 1 → Paired n i
  pair : (n i : ℕ) → 1 < n → sibling_index i < n → Paired ((n + 1) / 2) (i / 2) → Paired n i

module _ (sha256 : Bytes → Bytes) where
  -- The loops from one level on, and where `verify` gets to with their siblings.
  abbrev Climb : ℕ → List MerkleNode → ℕ → MerkleNode → Type 0
  Climb fuel level i x =
      (root : MerkleNode) × (siblings : List Bytes) × Runs sha256 fuel level i root siblings
      × (verify_loop sha256 x.hash i siblings ≡ root.hash)

  Climb-top :
      (fuel i : ℕ) (level : List MerkleNode) (x : MerkleNode)
      → length level ≡ 1
      → get_elem? level i ≡ some x
      → Climb fuel level i x
  unfolding verify_loop
  Climb-top fuel i [] x len e = absurd (omega arith)
  Climb-top fuel zero (a ∷ []) x len e = (a, [], Runs-one sha256 fuel 0 a, ground arith)
  Climb-top fuel (suc i) (a ∷ []) x len e = absurd (ground arith)
  Climb-top fuel i (a ∷ b ∷ rest) x len e = absurd (omega arith)

  climb :
      (fuel n i : ℕ) (level : List MerkleNode) (x : MerkleNode)
      → Paired n i
      → length level ≡ n
      → n ≤ suc fuel
      → get_elem? level i ≡ some x
      → Climb fuel level i x
  unfolding verify_loop
  climb fuel n i level x (top _ _ one) len h e = Climb-top fuel i level x (omega arith) e
  climb zero n i level x (pair _ _ more sib up) len h e = absurd (omega arith)
  climb (suc fuel) n i level x (pair _ _ more sib up) len h e =
      let (y, z, ey, ez, ehash) = next_level-sibling sha256 level i x e (omega arith) in
      let (root, siblings, runs, ends) =
        climb fuel _ (i / 2) (next_level sha256 level) z up
          (omega (arith, length-next_level sha256 level)) (omega arith) ez in
      (
        root,
        y.hash ∷ siblings,
        Runs-pair sha256 fuel i level (omega arith) runs y ey,
        rw (← ehash) ends,
      )

  -- If no node on the way up is promoted, `generate_proof` returns a proof of the leaf at its index,
  -- `build_root` returns a root, and the proof verifies against that root.
  pub generate_proof-verify :
      (b : Builder) (i : ℕ) (leaf : MerkleNode)
      → get_elem? b.leaves i ≡ some leaf
      → Paired (length b.leaves) i
      → (root : Bytes) × (siblings : List Bytes) × Gives sha256 b i leaf root siblings
        × (verify sha256
              (record { leaf_hash = leaf.hash; siblings = siblings; leaf_index = i })
              root
            ≡ true)
  unfolding verify
  generate_proof-verify b i leaf e path =
      let (root, siblings, runs, ends) =
        climb (length b.leaves) _ i b.leaves leaf path refl (omega arith) e in
      (
        root.hash,
        siblings,
        Runs-Gives sha256 b i leaf root siblings e runs,
        (bytes_eq_iff _ _).1 ends,
      )

sibling_index-lt : (i m : ℕ) → i < 2 * m → sibling_index i < 2 * m
unfolding sibling_index
sibling_index-lt i m h = ground arith

pow-pos : (k : ℕ) → 0 < 2 ^ k
pow-pos zero = omega arith
pow-pos (suc k) = omega (arith, pow-suc 2 k, pow-pos k)

-- In a tree of 2 ^ k leaves no node is ever promoted.
pub Paired-pow : (k i : ℕ) → i < 2 ^ k → Paired (2 ^ k) i
Paired-pow zero i h = top _ _ (omega arith)
Paired-pow (suc k) i h =
    pair _ i (omega (arith, pow-suc 2 k, pow-pos k))
      (omega (arith, pow-suc 2 k, sibling_index-lt i (2 ^ k)))
      (subst (λ n. Paired n (i / 2)) halved (Paired-pow k (i / 2) (omega (arith, pow-suc 2 k))))
  where
    halved : 2 ^ k ≡ (2 ^ suc k + 1) / 2
    halved = omega (arith, pow-suc 2 k)
