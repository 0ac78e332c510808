-- ===== src/Merkle/Attestation.antt =====
-- Appraisals and attestations of include/merkle_provenance.hpp and src/merkle_provenance.cpp. The
-- clock's seconds are the argument `timestamp` of `create_attestation`.
use native.Mathlib.Nat.{mul-le-mul, zero-add}
use membra_l3_cpp.Base.{
  ℕ, ◌+◌, ◌*◌, ◌/◌, ◌%◌, ◌^◌, ◌≤◌, ◌<◌, ◌≡◌, refl, min, Bool, true, false, ◌&&◌, [], ◌∷◌, ◌++◌,
  arith, leb, if◌then◌else◌, length, All, ◌-◌,
}
use membra_l3_cpp.Merkle.{
  Bytes, MerkleProof, Builder, returned, verify, verify_loop, add_leaf, create_leaf, generate_proof,
  initial, bytes_eq_iff,
}

pub record TokenAppraisal : Type 0 where
  pub novelty_factors : Bytes
  pub rarity_factors : Bytes
  pub execution_factors : Bytes
  pub historical_data : Bytes

pub record ProvenanceAttestation : Type 0 where
  pub attestation_id : ℕ
  pub token_mint : Bytes
  pub merkle_root : Bytes
  pub market_cap_appraisal : ℕ
  pub novelty_score : ℕ
  pub rarity_score : ℕ
  pub execution_difficulty : ℕ
  pub attestation_timestamp : ℕ
  pub authority : Bytes
  pub verified : Bool

abbrev pub max_score_bps : ℕ
max_score_bps = 10_000

unfoldable pub validate_scores : ProvenanceAttestation → Bool
validate_scores a =
    leb a.novelty_score max_score_bps
    && leb a.rarity_score max_score_bps
    && leb a.execution_difficulty max_score_bps

-- The sum of the factors in a `uint32_t`.
unfoldable pub sum32 : ℕ → Bytes → ℕ
sum32 sum [] = sum
sum32 sum (f ∷ fs) = sum32 ((sum + f) % 2 ^ 32) fs

scaled : ℕ → ℕ
scaled average = min (average * 100 % 2 ^ 32 % 10_001 % 2 ^ 16) max_score_bps

-- The lambda of `calculate_scores`, with the widths of its casts.
unfoldable pub calculate_score : Bytes → ℕ
unfolding scaled
calculate_score [] = 0
calculate_score (f ∷ fs) = scaled (sum32 0 (f ∷ fs) / length (f ∷ fs) % 2 ^ 32)

unfoldable pub calculate_scores : TokenAppraisal → ℕ × ℕ × ℕ
calculate_scores a = (
  calculate_score a.novelty_factors,
  calculate_score a.rarity_factors,
  calculate_score a.execution_factors,
)

-- The products are taken in 128 bits, and the quotient is cast to 64.
unfoldable pub calculate_appraisal : ℕ → ℕ → ℕ → ℕ → ℕ
calculate_appraisal base novelty rarity difficulty =
    base
    * (10_000 + novelty)
    % 2 ^ 128
    * (10_000 + rarity)
    % 2 ^ 128
    * (10_000 + difficulty)
    % 2 ^ 128
    / 1_000_000_000
    % 2 ^ 64

module _ (sha256 : Bytes → Bytes) where
  unfoldable pub compute_merkle_root : TokenAppraisal → Bytes
  compute_merkle_root a =
      sha256 (a.novelty_factors ++ (a.rarity_factors ++ (a.execution_factors ++ a.historical_data)))

  unfoldable pub create_attestation :
      Bytes → TokenAppraisal → ℕ → Bytes → ℕ → ℕ → ProvenanceAttestation
  create_attestation token_mint appraisal base authority attestation_id timestamp =
      let (novelty, rarity, execution) = calculate_scores appraisal in
      record {
        attestation_id = attestation_id;
        token_mint = token_mint;
        merkle_root = compute_merkle_root appraisal;
        market_cap_appraisal = calculate_appraisal base novelty rarity execution;
        novelty_score = novelty;
        rarity_score = rarity;
        execution_difficulty = execution;
        attestation_timestamp = timestamp;
        authority = authority;
        verified = false;
      }

  unfoldable pub verify_attestation : ProvenanceAttestation → MerkleProof → Bool
  verify_attestation a proof = if a.verified then false else verify sha256 proof a.merkle_root

-- The exact sum.
abbrev sum : Bytes → ℕ
sum [] = 0
sum (f ∷ fs) = f + sum fs

abbrev pub AreBytes : Bytes → Type 0
AreBytes = All (λ f. f < 256)

sum-le : (fs : Bytes) → AreBytes fs → sum fs ≤ 255 * length fs
sum-le [] h = omega arith
sum-le (f ∷ fs) h = omega (arith, sum-le fs h.1)

sum32-eq-sum : (fs : Bytes) (acc : ℕ) → acc + sum fs < 2 ^ 32 → sum32 acc fs ≡ acc + sum fs
unfolding sum32
sum32-eq-sum [] acc h = omega arith
sum32-eq-sum (f ∷ fs) acc h = omega (arith, sum32-eq-sum fs ((acc + f) % 2 ^ 32) (omega arith))

mean-le : (fs : Bytes) → AreBytes fs → 0 < length fs → sum fs / length fs ≤ 255
mean-le fs h pos = grind (arith, sum-le fs h)

scaled-mean :
    (mean : ℕ)
    → mean ≤ 255
    → scaled (mean % 2 ^ 32) ≡ (
        if leb mean 100
        then 100 * mean
        else if leb mean 200
        then 100 * mean - 10_001
        else 100 * mean - 20_002)
unfolding scaled
scaled-mean mean h = ground arith

calculate_score-le : (fs : Bytes) → calculate_score fs ≤ max_score_bps
unfolding calculate_score
calculate_score-le [] = omega arith
calculate_score-le (f ∷ fs) = omega arith

-- The score of a list of fewer than 2 ^ 24 factors is 100 times the whole mean up to a mean of 100.
-- From there it starts again: 100 times the mean, less 10001 up to a mean of 200 and less 20002 above.
pub calculate_score-mean :
    (fs : Bytes)
    → AreBytes fs
    → 0 < length fs
    → length fs < 2 ^ 24
    → let mean = sum fs / length fs in
      calculate_score fs ≡ (
        if leb mean 100
        then 100 * mean
        else if leb mean 200
        then 100 * mean - 10_001
        else 100 * mean - 20_002)
unfolding calculate_score
calculate_score-mean [] h pos short = absurd (omega arith)
calculate_score-mean (f ∷ fs) h pos short =
    let small = sum-le (f ∷ fs) h in
    rw (sum32-eq-sum (f ∷ fs) 0 (omega arith))
      (rw zero-add (scaled-mean (sum (f ∷ fs) / length (f ∷ fs)) (mean-le (f ∷ fs) h pos)))

-- `validate_scores` accepts every attestation that `create_attestation` makes.
pub create_attestation-validate_scores :
    (sha256 : Bytes → Bytes) (token_mint : Bytes) (appraisal : TokenAppraisal) (base : ℕ)
    (authority : Bytes) (attestation_id timestamp : ℕ)
    → validate_scores
        (create_attestation sha256 token_mint appraisal base authority attestation_id timestamp)
      ≡ true
unfolding validate_scores create_attestation calculate_scores
create_attestation-validate_scores sha256 token_mint appraisal base authority attestation_id
      timestamp =
    ground (
      arith,
      calculate_score-le appraisal.novelty_factors,
      calculate_score-le appraisal.rarity_factors,
      calculate_score-le appraisal.execution_factors,
    )

product : (a b c d : ℕ) → a ≤ c → b ≤ d → a * b ≤ c * d
product a b c d h k = mul-le-mul h k

fits : (a : ℕ) → a ≤ 2 ^ 115 → a % 2 ^ 128 ≡ a
fits a h = omega arith

-- The 128-bit products do not wrap, and the appraisal is 1000 times the formula
-- base * (1 + novelty / 10000) * (1 + rarity / 10000) * (1 + difficulty / 10000), rounded down and
-- cut to 64 bits.
pub calculate_appraisal_lem :
    (base novelty rarity difficulty : ℕ)
    → base < 2 ^ 64
    → novelty < 2 ^ 16
    → rarity < 2 ^ 16
    → difficulty < 2 ^ 16
    → calculate_appraisal base novelty rarity difficulty
      ≡ 1000
        * (base * (10_000 + novelty) * (10_000 + rarity) * (10_000 + difficulty))
        / 10_000 ^ 3
        % 2 ^ 64
unfolding calculate_appraisal
calculate_appraisal_lem base novelty rarity difficulty hb hn hr hd =
    let n : base * (10_000 + novelty) ≤ 2 ^ 81 =
      omega
        (arith, product base (10_000 + novelty) (2 ^ 64) (2 ^ 17) (omega arith) (omega arith)) in
    let r : base * (10_000 + novelty) * (10_000 + rarity) ≤ 2 ^ 98 =
      omega (arith, product _ (10_000 + rarity) (2 ^ 81) (2 ^ 17) n (omega arith)) in
    let d : base * (10_000 + novelty) * (10_000 + rarity) * (10_000 + difficulty) ≤ 2 ^ 115 =
      omega (arith, product _ (10_000 + difficulty) (2 ^ 98) (2 ^ 17) r (omega arith)) in
    rw
      (
        fits (base * (10_000 + novelty)) (omega arith),
        fits (base * (10_000 + novelty) * (10_000 + rarity)) (omega arith),
        fits _ d,
      )
      (omega arith)

-- The one leaf of a fresh tree over the appraisal's bytes proves the attestation: `generate_proof`
-- returns a proof that `verify_attestation` accepts, as long as the attestation is not marked verified.
pub create_attestation-verify_attestation :
    (sha256 : Bytes → Bytes) (token_mint : Bytes) (a : TokenAppraisal) (base : ℕ)
    (authority : Bytes) (attestation_id timestamp : ℕ)
    → let attestation =
        create_attestation sha256 token_mint a base authority attestation_id timestamp in
      let leaf =
        a.novelty_factors ++ (a.rarity_factors ++ (a.execution_factors ++ a.historical_data)) in
      (proof : MerkleProof) × (b : Builder) × (generate_proof sha256
          (add_leaf sha256 leaf initial)
          0
        ≡ returned (proof, b))
      × (verify_attestation sha256 attestation proof ≡ true)
      × (verify_attestation sha256 (record attestation { verified = true }) proof ≡ false)
unfolding create_attestation calculate_scores verify_attestation verify generate_proof add_leaf
    create_leaf compute_merkle_root verify_loop
create_attestation-verify_attestation sha256 token_mint a base authority attestation_id timestamp =
    (_, _, refl, (bytes_eq_iff _ _).1 refl, refl)
