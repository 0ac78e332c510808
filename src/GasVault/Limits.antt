-- ===== src/GasVault/Limits.antt =====
-- Refusals and the rate limit of include/gas_vault.hpp.
use membra_l3_cpp.Base.{
  ℕ, ◌+◌, ◌≤◌, ◌<◌, ◌≡◌, ◌⊎◌, inl, inr, String, str_eq, eq_iff, Bool, true, false, ◌&&◌, arith,
  Bool-cases, if◌then◌else◌, List, [], ◌∷◌, ltb,
}
use membra_l3_cpp.Base.Dict.{lookup, lookup-insert}
use membra_l3_cpp.Base.Double.{Double}
use membra_l3_cpp.Base.Word.{add64}
use membra_l3_cpp.Staking.{ComputeStaking, consume_gas_allowance, current_gas_credit_rate}
use membra_l3_cpp.Staking.Consume.{
  Fit, NonePays, consume_gas_allowance_lem, consume_gas_allowance-NonePays,
}
use membra_l3_cpp.GasVault.{
  GasVault, System, initial_vault, tx_count, note_user, count_tx, pay_gas, pay_within_limit,
  pay_from_reserves, can_cover_gas,
}

tx_count-note_user : (v : GasVault) (user j : String) → tx_count (note_user v user) j ≡ tx_count v j
tx_count-note_user v user j =
    ground (arith, lookup-insert user j (tx_count v user) v.user_tx_counts, eq_iff user j)

tx_count-count_tx :
    (v : GasVault) (user j : String)
    → tx_count (count_tx (note_user v user) user) j
      ≡ (if str_eq user j then add64 (tx_count v user) 1 else tx_count v j)
tx_count-count_tx v user j =
    let noted = note_user v user in
    ground (
      arith,
      lookup-insert user j (add64 (tx_count noted user) 1) noted.user_tx_counts,
      tx_count-note_user v user user,
      tx_count-note_user v user j,
    )

module _ {W : Type 0} where
  -- `pay_gas` succeeds for a user with at most 1000 counted transactions wherever the reserves cover
  -- the gas.
  pub pay_gas-covered :
      (s : System W) (user : String) (gas : ℕ)
      → tx_count s.vault user ≤ 1000
      → gas ≤ s.vault.sol_reserves
      → (pay_gas s user gas).0 ≡ true
  unfolding pay_gas pay_within_limit pay_from_reserves
  pay_gas-covered s user gas few covered = ground arith

  -- `pay_gas` refuses for two reasons only: more than 1000 counted transactions of the user, or
  -- reserves below the gas where no active stake of the user allows it or the staking system is not
  -- attached.
  pub pay_gas-refused :
      (s : System W) (user : String) (gas : ℕ)
      → Fit s.staking.stakes
      → (pay_gas s user gas).0 ≡ false
      → (1000 < tx_count s.vault user)
        ⊎ ((s.vault.sol_reserves < gas)
            × ((s.vault.attached ≡ false) ⊎ NonePays user gas s.staking.stakes))
  unfolding pay_gas pay_within_limit pay_from_reserves
  pay_gas-refused s user gas fit refused =
      let charge = consume_gas_allowance_lem s.staking user gas fit in
      elim (Bool-cases (ltb 1000 (tx_count s.vault user))) [
        | inl limited ↦ inl (ground arith)
        | inr free ↦ inr (
          ground arith,
          elim (Bool-cases s.vault.attached) [
            | inl attached ↦ inr (charge.4 (ground arith)).1
            | inr detached ↦ inl detached
          ],
        )
      ]

  -- The counts of a call that succeeded, or did not.
  abbrev Counted : GasVault → String → String → Bool × System W → Type 0
  Counted v user j (paid, s') =
      tx_count s'.vault j
      ≡ (if paid && str_eq user j then add64 (tx_count v user) 1 else tx_count v j)

  pay_within_limit-Counted :
      (v : GasVault) (k : ComputeStaking W) (user j : String) (gas : ℕ)
      → Counted v user j (pay_within_limit (note_user v user) k user gas)
  unfolding pay_within_limit pay_from_reserves
  pay_within_limit-Counted v k user j gas =
      elim (Bool-cases (v.attached && (consume_gas_allowance k user gas).0)) [
        | inl consumed ↦ rw consumed (tx_count-count_tx v user j)
        | inr refused ↦ rw refused (elim (Bool-cases (ltb v.sol_reserves gas)) [
          | inl short ↦ rw short (tx_count-note_user v user j)
          | inr covered ↦ rw covered (tx_count-count_tx v user j)
        ])
      ]

  pay_gas-Counted :
      (s : System W) (user j : String) (gas : ℕ) → Counted s.vault user j (pay_gas s user gas)
  unfolding pay_gas
  pay_gas-Counted s user j gas = elim (Bool-cases (ltb 1000 (tx_count s.vault user))) [
    | inl limited ↦ rw limited (tx_count-note_user s.vault user j)
    | inr free ↦ rw free (pay_within_limit-Counted s.vault s.staking user j gas)
  ]

  pay_gas-limited :
      (s : System W) (user : String) (gas : ℕ)
      → 1000 < tx_count s.vault user
      → (pay_gas s user gas).0 ≡ false
  unfolding pay_gas
  pay_gas-limited s user gas many = ground arith

  unfoldable pub pay_all : System W → List (String × ℕ) → System W
  pay_all s [] = s
  pay_all s ((user, gas) ∷ rest) = pay_all (pay_gas s user gas).1 rest

  -- The payments of one user that succeed.
  unfoldable pub successes : String → System W → List (String × ℕ) → ℕ
  successes j s [] = 0
  successes j s ((user, gas) ∷ rest) =
      (if (pay_gas s user gas).0 && str_eq user j then 1 else 0)
      + successes j (pay_gas s user gas).1 rest

  pay_all-count_from :
      (calls : List (String × ℕ)) (s : System W) (j : String)
      → tx_count s.vault j ≤ 1001
      → (tx_count (pay_all s calls).vault j ≡ tx_count s.vault j + successes j s calls)
        × (tx_count (pay_all s calls).vault j ≤ 1001)
  unfolding pay_all successes
  pay_all-count_from [] s j few = (omega arith, few)
  pay_all-count_from ((user, gas) ∷ rest) s j few =
      let counted = pay_gas-Counted s user j gas in
      let within : tx_count (pay_gas s user gas).1.vault j ≤ 1001 =
        ground (arith, counted, pay_gas-limited s user gas, eq_iff user j) in
      let (count, below) = pay_all-count_from rest (pay_gas s user gas).1 j within in
      (ground (arith, count, counted, eq_iff user j), below)

  abbrev pub initial : ℕ → Bool → ComputeStaking W → System W
  initial lamports attached k = record { vault = initial_vault lamports attached; staking = k }

  -- Whatever the calls, from a new vault on a user's count is the number of the user's payments that
  -- succeeded, and at most 1001 of them do.
  pub pay_all-count :
      (calls : List (String × ℕ)) (lamports : ℕ) (attached : Bool) (k : ComputeStaking W)
      (j : String)
      → let s = initial lamports attached k in
        (tx_count (pay_all s calls).vault j ≡ successes j s calls) × (successes j s calls ≤ 1001)
  unfolding lookup
  pay_all-count calls lamports attached k j =
      let s = initial lamports attached k in
      let (count, few) = pay_all-count_from calls s j (omega arith) in
      (omega (arith, count), omega (arith, count, few))

  -- `can_cover_gas` promises more than `pay_gas` does: with any cores staked it holds for every
  -- amount, and yet `pay_gas` refuses a user without an active stake that allows it where the reserves
  -- are short.
  pub can_cover_gas-refused :
      ⦃d : Double W⦄ (s : System W) (user : String) (gas : ℕ)
      → Fit s.staking.stakes
      → s.vault.attached ≡ true
      → 0 < current_gas_credit_rate s.staking
      → s.vault.sol_reserves < gas
      → NonePays user gas s.staking.stakes
      → (can_cover_gas s gas ≡ true) × ((pay_gas s user gas).0 ≡ false)
  unfolding can_cover_gas pay_gas pay_within_limit pay_from_reserves
  can_cover_gas-refused s user gas fit attached rate short none_pays =
      (ground arith, ground (arith, consume_gas_allowance-NonePays s.staking user gas none_pays))
