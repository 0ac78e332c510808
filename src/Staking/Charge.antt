-- ===== src/Staking/Charge.antt =====
-- Which stake `consume_gas_allowance` of include/compute_staking.hpp charges.
use membra_l3_cpp.Base.{
  ℕ, ◌-◌, ◌^◌, ◌<◌, ◌≤◌, ◌≡◌, refl, ap, inl, inr, String, eq_iff, true, false, ◌&&◌, some, none,
  arith, Bool-cases, [], ◌∷◌, ◌++◌, leb, ◌⊎◌, All,
}
use membra_l3_cpp.Base.Dict.{Dict}
use membra_l3_cpp.Staking.{
  ComputeStake, ComputeStaking, consume_loop, consume_gas_allowance, is_active_of, charged,
}
use membra_l3_cpp.Staking.Consume.{Fit}

module _ {W : Type 0} where
  -- A stake that is not the address's own, or not active, or whose allowance is not enough.
  abbrev pub CannotPay : String → ℕ → String × ComputeStake W → Type 0
  CannotPay address cost (id, k) =
      ¬ ((k.staker_address ≡ address) × (k.active ≡ true) × (cost ≤ k.gas_credit_allowance))

  -- The stake that pays, the stakes before it, which cannot, and those after it.
  pub record Charge (address : String) (cost : ℕ) (stakes stakes' : Dict (ComputeStake W))
      : Type 0 where
    pub before : Dict (ComputeStake W)
    pub id : String
    pub payer : ComputeStake W
    pub rest : Dict (ComputeStake W)
    pub split : stakes ≡ before ++ ((id, payer) ∷ rest)
    pub none_before : All (CannotPay address cost) before
    pub owner : payer.staker_address ≡ address
    pub active : payer.active ≡ true
    pub enough : cost ≤ payer.gas_credit_allowance
    pub paid :
        stakes'
        ≡ before
          ++ ((id, record payer { gas_credit_allowance = payer.gas_credit_allowance - cost })
              ∷ rest)

  cannot :
      (address : String) (cost : ℕ) (id : String) (k : ComputeStake W)
      → (is_active_of address k && leb cost k.gas_credit_allowance) ≡ false
      → CannotPay address cost (id, k)
  cannot address cost id k h (owner, active, enough) =
      absurd (ground (arith, (eq_iff k.staker_address address).1 owner))

  charged-eq :
      (k : ComputeStake W) (cost : ℕ)
      → k.gas_credit_allowance < 2 ^ 64
      → cost ≤ k.gas_credit_allowance
      → charged k cost ≡ record k { gas_credit_allowance = k.gas_credit_allowance - cost }
  charged-eq k cost small enough = ap (λ a. record k { gas_credit_allowance = a }) (omega arith)

  abbrev Outcome : String → ℕ → Dict (ComputeStake W) → Type 0
  Outcome address cost stakes =
      ((stakes' : Dict (ComputeStake W)) × (consume_loop address cost stakes ≡ some stakes')
        × Charge address cost stakes stakes')
      ⊎ ((consume_loop address cost stakes ≡ none) × All (CannotPay address cost) stakes)

  consume_loop-pays :
      (address : String) (cost : ℕ) (stakes : Dict (ComputeStake W))
      → Fit stakes
      → Outcome address cost stakes
  unfolding consume_loop
  consume_loop-pays address cost [] fit = inr (refl, tt)
  consume_loop-pays address cost ((id, k) ∷ rest) fit =
      elim (Bool-cases (is_active_of address k && leb cost k.gas_credit_allowance)) [
        | inl pays ↦ inl (
          (id, charged k cost) ∷ rest,
          rw pays refl,
          record {
            before = [];
            id = id;
            payer = k;
            rest = rest;
            split = refl;
            none_before = tt;
            owner = (eq_iff k.staker_address address).0 (ground arith);
            active = ground arith;
            enough = ground arith;
            paid = ap (λ l. (id, l) ∷ rest) (charged-eq k cost fit.0.0 (ground arith));
          },
        )
        | inr passes ↦ elim (consume_loop-pays address cost rest fit.1) [
          | inr (stop, others) ↦
              inr (rw (passes, stop) refl, (cannot address cost id k passes, others))
          | inl (rest', go, c) ↦ inl (
            (id, k) ∷ rest',
            rw (passes, go) refl,
            record {
              before = (id, k) ∷ c.before;
              id = c.id;
              payer = c.payer;
              rest = c.rest;
              split = ap (λ l. (id, k) ∷ l) c.split;
              none_before = (cannot address cost id k passes, c.none_before);
              owner = c.owner;
              active = c.active;
              enough = c.enough;
              paid = ap (λ l. (id, k) ∷ l) c.paid;
            },
          )
        ]
      ]

  -- Where the amounts of the stakes fit 64 bits, a charge takes the cost out of the allowance of one
  -- stake, the first that is the address's own, active, and has an allowance that is enough; it changes no
  -- other stake and nothing else. If there is no such stake it fails and changes nothing.
  pub consume_gas_allowance-outcome :
      (s : ComputeStaking W) (address : String) (cost : ℕ)
      → Fit s.stakes
      → let (paid, s') = consume_gas_allowance s address cost in
        ((paid ≡ true)
          × Charge address cost s.stakes s'.stakes
          × (s' ≡ record s { stakes = s'.stakes }))
        ⊎ ((paid ≡ false) × (s' ≡ s) × All (CannotPay address cost) s.stakes)
  unfolding consume_gas_allowance
  consume_gas_allowance-outcome s address cost fit =
      elim (consume_loop-pays address cost s.stakes fit) [
        | inl (stakes', go, c) ↦ rw (consume_gas_allowance, go) (inl (refl, c, refl))
        | inr (stop, others) ↦ rw (consume_gas_allowance, stop) (inr (refl, refl, others))
      ]
