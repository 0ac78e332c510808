-- ===== src/GasVault/Accounts.antt =====
-- Conservation of gas in include/gas_vault.hpp.
use membra_l3_cpp.Base.{
  ℕ, ◌+◌, ◌%◌, ◌^◌, ◌<◌, ◌≡◌, refl, inl, inr, String, Bool, true, ◌&&◌, arith, Bool-cases, ltb,
}
use membra_l3_cpp.Staking.{ComputeStaking, consume_gas_allowance}
use membra_l3_cpp.Staking.Consume.{Fit, outstanding, consume_gas_allowance_lem}
use membra_l3_cpp.GasVault.{
  GasVault, System, tx_count, note_user, pay_gas, pay_within_limit, pay_from_reserves,
}

and_right : (a b : Bool) → (a && b) ≡ true → b ≡ true
and_right a b h = ground arith

module _ {W : Type 0} where
  -- The amounts fit 64 bits.
  pub record IsFit (s : System W) : Type 0 where
    pub reserves : s.vault.sol_reserves < 2 ^ 64
    pub paid : s.vault.total_gas_paid < 2 ^ 64
    pub by_compute : s.vault.gas_paid_by_compute < 2 ^ 64
    pub stakes : Fit s.staking.stakes

  -- Between two states: no credit is granted, what the stakes still allow and what they paid stay the
  -- same together, and so do the reserves and what they paid; all modulo 2 ^ 64.
  pub record Conserves (s s' : System W) : Type 0 where
    pub grants : s'.staking.total_credit_grants_issued ≡ s.staking.total_credit_grants_issued
    pub credits :
        (s'.vault.gas_paid_by_compute + outstanding s'.staking) % 2 ^ 64
        ≡ (s.vault.gas_paid_by_compute + outstanding s.staking) % 2 ^ 64
    pub lamports :
        (s'.vault.sol_reserves + s'.vault.total_gas_paid + s.vault.gas_paid_by_compute) % 2 ^ 64
        ≡ (s.vault.sol_reserves + s.vault.total_gas_paid + s'.vault.gas_paid_by_compute) % 2 ^ 64

  abbrev both : GasVault → ComputeStaking W → System W
  both v k = record { vault = v; staking = k }

  pay_from_reserves_lem :
      (v : GasVault) (k : ComputeStaking W) (user : String) (gas : ℕ)
      → IsFit (both v k)
      → let s' = (pay_from_reserves v k user gas).1 in IsFit s' × Conserves (both v k) s'
  unfolding pay_from_reserves
  pay_from_reserves_lem v k user gas fit = elim (Bool-cases (ltb v.sol_reserves gas)) [
    | inl short ↦ rw short (fit, record { grants = refl; credits = refl; lamports = refl })
    | inr covered ↦ rw covered (
      record {
        reserves = omega arith;
        paid = omega arith;
        by_compute = fit.by_compute;
        stakes = fit.stakes;
      },
      record { grants = refl; credits = refl; lamports = ground arith },
    )
  ]

  pay_within_limit_lem :
      (v : GasVault) (k : ComputeStaking W) (user : String) (gas : ℕ)
      → IsFit (both v k)
      → let s' = (pay_within_limit v k user gas).1 in IsFit s' × Conserves (both v k) s'
  unfolding pay_within_limit
  pay_within_limit_lem v k user gas fit =
      let charge = consume_gas_allowance_lem k user gas fit.stakes in
      elim (Bool-cases (v.attached && (consume_gas_allowance k user gas).0)) [
        | inl consumed ↦
            let sum = charge.3 (and_right v.attached _ consumed) in
            rw consumed (
              record {
                reserves = fit.reserves;
                paid = omega arith;
                by_compute = omega arith;
                stakes = charge.0;
              },
              record { grants = charge.1; credits = omega (arith, sum); lamports = omega arith },
            )
        | inr refused ↦ rw refused (pay_from_reserves_lem v k user gas fit)
      ]

  -- `pay_gas` conserves gas, whoever pays: it grants no credit; the allowances of all stakes and
  -- `gas_paid_by_compute` stay the same together, and so do the reserves and the part of
  -- `total_gas_paid` that compute did not pay; modulo 2 ^ 64.
  pub pay_gas-Conserves :
      (s : System W) (user : String) (gas : ℕ)
      → IsFit s
      → let s' = (pay_gas s user gas).1 in IsFit s' × Conserves s s'
  unfolding pay_gas
  pay_gas-Conserves s user gas fit = elim (Bool-cases (ltb 1000 (tx_count s.vault user))) [
    | inl limited ↦ rw limited (
      record {
        reserves = fit.reserves;
        paid = fit.paid;
        by_compute = fit.by_compute;
        stakes = fit.stakes;
      },
      record { grants = refl; credits = refl; lamports = refl },
    )
    | inr free ↦
        let (kept, conserved) =
          pay_within_limit_lem (note_user s.vault user) s.staking user gas (record {
            reserves = fit.reserves;
            paid = fit.paid;
            by_compute = fit.by_compute;
            stakes = fit.stakes;
          }) in
        rw free (
          kept,
          record {
            grants = conserved.grants;
            credits = conserved.credits;
            lamports = conserved.lamports;
          },
        )
  ]
