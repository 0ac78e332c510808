-- ===== src/Staking/Consume.antt =====
-- Gas allowances of include/compute_staking.hpp: what `consume_gas_allowance` takes, and from whom.
use membra_l3_cpp.Base.{
  ℕ, ◌+◌, ◌^◌, ◌<◌, ◌≡◌, refl, inl, inr, String, str_eq, true, false, ◌&&◌, Option, none, some,
  arith, Option-cases, Bool-cases, [], ◌∷◌, leb,
}
use membra_l3_cpp.Base.Dict.{Dict, lookup, insert, total}
use membra_l3_cpp.Staking.{
  ComputeStake, ComputeStaking, consume_loop, consume_gas_allowance, is_active_of, charged,
}

module _ {W : Type 0} where
  abbrev pub allowance : ComputeStake W → ℕ
  allowance k = k.gas_credit_allowance

  -- The amounts of a stake fit 64 bits.
  abbrev pub IsFit : ComputeStake W → Type 0
  IsFit k = (k.gas_credit_allowance < 2 ^ 64) × (k.cpu_cores < 2 ^ 64) × (k.compute_units < 2 ^ 64)

  abbrev pub Fit : Dict (ComputeStake W) → Type 0
  Fit [] = Unit
  Fit ((id, k) ∷ rest) = IsFit k × Fit rest

  pub Fit-insert :
      (id : String) (k : ComputeStake W) (stakes : Dict (ComputeStake W))
      → Fit stakes
      → IsFit k
      → Fit (insert id k stakes)
  unfolding insert
  Fit-insert id k [] fit h = (h, tt)
  Fit-insert id k ((j, l) ∷ rest) fit h = elim (Bool-cases (str_eq j id)) [
    | inl hit ↦ rw hit (h, fit.1)
    | inr miss ↦ rw miss (fit.0, Fit-insert id k rest fit.1 h)
  ]

  pub Fit-lookup :
      (id : String) (k : ComputeStake W) (stakes : Dict (ComputeStake W))
      → Fit stakes
      → lookup id stakes ≡ some k
      → IsFit k
  unfolding lookup
  Fit-lookup id k [] fit e = absurd (ground arith)
  Fit-lookup id k ((j, l) ∷ rest) fit e = ground (arith, Fit-lookup id k rest fit.1)

  -- No active stake of the address can pay.
  abbrev pub NonePays : String → ℕ → Dict (ComputeStake W) → Type 0
  NonePays address cost [] = Unit
  NonePays address cost ((id, k) ∷ rest) =
      (is_active_of address k ≡ true → k.gas_credit_allowance < cost) × NonePays address cost rest

  abbrev Consumed : String → ℕ → Dict (ComputeStake W) → Option (Dict (ComputeStake W)) → Type 0
  Consumed address cost stakes none = NonePays address cost stakes
  Consumed address cost stakes (some stakes') =
      Fit stakes' × (total allowance stakes ≡ total allowance stakes' + cost)

  keep_head :
      (address : String) (cost : ℕ) (id : String) (k : ComputeStake W)
      (rest : Dict (ComputeStake W))
      → (is_active_of address k && leb cost k.gas_credit_allowance) ≡ false
      → Fit ((id, k) ∷ rest)
      → (r : Option (Dict (ComputeStake W))) → Consumed address cost rest r
      → Consumed address cost
          ((id, k) ∷ rest)
          (elim r [ none ↦ none | some rest' ↦ some ((id, k) ∷ rest') ])
  unfolding total
  keep_head address cost id k rest passes fit none c = ((λ active. ground arith), c)
  keep_head address cost id k rest passes fit (some rest') c = ((fit.0, c.0), omega (arith, c.1))

  consume_loop-Consumed :
      (address : String) (cost : ℕ) (stakes : Dict (ComputeStake W))
      → Fit stakes
      → Consumed address cost stakes (consume_loop address cost stakes)
  unfolding consume_loop total
  consume_loop-Consumed address cost [] fit = tt
  consume_loop-Consumed address cost ((id, k) ∷ rest) fit =
      elim (Bool-cases (is_active_of address k && leb cost k.gas_credit_allowance)) [
        | inl pays ↦ rw pays (((omega arith, fit.0.1, fit.0.2), fit.1), ground arith)
        | inr passes ↦ rw passes (
            keep_head address cost id k rest passes fit (consume_loop address cost rest)
              (consume_loop-Consumed address cost rest fit.1))
      ]

  -- A charge changes no quantity but the allowance.
  pub consume_loop-total :
      (f : ComputeStake W → ℕ) (address : String) (cost : ℕ)
      (stakes stakes' : Dict (ComputeStake W))
      → ((k : ComputeStake W) → f (charged k cost) ≡ f k)
      → consume_loop address cost stakes ≡ some stakes'
      → total f stakes' ≡ total f stakes
  unfolding consume_loop total
  consume_loop-total f address cost [] stakes' same e = absurd (ground arith)
  consume_loop-total f address cost ((id, k) ∷ rest) stakes' same e =
      elim (Option-cases (consume_loop address cost rest)) [
        | inl stop ↦ ground (arith, same k)
        | inr (rest', go) ↦
            ground (arith, same k, consume_loop-total f address cost rest rest' same go)
      ]

  abbrev pub outstanding : ComputeStaking W → ℕ
  outstanding s = total allowance s.stakes

  -- A charge that succeeds takes the cost out of the allowances, and nothing else; one that fails
  -- changes nothing, and no active stake of the address could have paid.
  pub consume_gas_allowance_lem :
      (s : ComputeStaking W) (address : String) (cost : ℕ)
      → Fit s.stakes
      → let (paid, s') = consume_gas_allowance s address cost in
        Fit s'.stakes
        × (s'.total_credit_grants_issued ≡ s.total_credit_grants_issued)
        × (s'.total_cpu_cores ≡ s.total_cpu_cores)
        × (paid ≡ true → outstanding s ≡ outstanding s' + cost)
        × (paid ≡ false → (s' ≡ s) × NonePays address cost s.stakes)
  unfolding consume_gas_allowance
  consume_gas_allowance_lem s address cost fit =
      let loop = consume_loop-Consumed address cost s.stakes fit in
      elim (Option-cases (consume_loop address cost s.stakes)) [
        | inl e ↦
            rw (e, consume_gas_allowance)
              (fit, refl, refl, (λ absurd_paid. absurd (ground arith)), λ _. (refl, rw e at loop))
        | inr (stakes, e) ↦
            let (fit', sum) = cast_some stakes e loop in
            rw (e, consume_gas_allowance)
              (fit', refl, refl, (λ _. sum), λ not_paid. absurd (ground arith))
      ]
    where
      cast_some :
          (stakes : Dict (ComputeStake W))
          → consume_loop address cost s.stakes ≡ some stakes
          → Consumed address cost s.stakes (consume_loop address cost s.stakes)
          → Consumed address cost s.stakes (some stakes)
      cast_some stakes e c = rw e at c

  consume_loop-NonePays :
      (address : String) (cost : ℕ) (stakes : Dict (ComputeStake W))
      → NonePays address cost stakes
      → consume_loop address cost stakes ≡ none
  unfolding consume_loop
  consume_loop-NonePays address cost [] h = refl
  consume_loop-NonePays address cost ((id, k) ∷ rest) h =
      ground (arith, consume_loop-NonePays address cost rest h.1, h.0)

  pub consume_gas_allowance-NonePays :
      (s : ComputeStaking W) (address : String) (cost : ℕ)
      → NonePays address cost s.stakes
      → (consume_gas_allowance s address cost).0 ≡ false
  unfolding consume_gas_allowance
  consume_gas_allowance-NonePays s address cost h =
      ground (arith, consume_loop-NonePays address cost s.stakes h)
