-- ===== src/Reimbursement/Estimator.antt =====
-- `GasEstimator` of src/gas_reimbursement.cpp. A call of `rand()` is the argument `random`.
use native.Mathlib.Nat.{mul-le-mul, le_refl}
use membra_l3_cpp.Base.{
  ℕ, ◌+◌, ◌*◌, ◌/◌, ◌%◌, ◌^◌, ◌≤◌, ◌<◌, String, none, some, List, [], ◌∷◌, arith, length,
}
use membra_l3_cpp.Base.Dict.{Dict, lookup, insert, get_or}
use membra_l3_cpp.Base.Word.{add64, mul64}

pub record GasEstimator : Type 0 where
  pub current_gas_price : ℕ
  pub base_gas_costs : Dict ℕ

-- The constructor.
abbrev pub initial : GasEstimator
initial = record {
  current_gas_price = 1000;
  base_gas_costs =
      ("transfer", 5000)
      ∷ ("swap", 150_000)
      ∷ ("stake", 100_000)
      ∷ ("unstake", 100_000)
      ∷ ("mint", 200_000)
      ∷ ("burn", 100_000)
      ∷ ("approve", 50_000)
      ∷ ("revoke", 50_000)
      ∷ ("custom", 100_000)
      ∷ [];
}

-- A missing type costs what "custom" costs; `operator[]` would enter a missing "custom" as 0.
unfoldable pub get_base_gas_cost : GasEstimator → String → ℕ × GasEstimator
get_base_gas_cost e kind = elim (lookup kind e.base_gas_costs) [
  | some cost ↦ (cost, e)
  | none ↦
      let cost = get_or 0 (lookup "custom" e.base_gas_costs) in
      (cost, record e { base_gas_costs = insert "custom" cost e.base_gas_costs })
]

abbrev gas_units : ℕ → ℕ → ℕ → ℕ
gas_units base size random = add64 (add64 base (mul64 size 10)) (mul64 (base / 10) (random % 3))

unfoldable pub estimate_gas : GasEstimator → String → List ℕ → ℕ → ℕ × GasEstimator
estimate_gas e kind bytes random =
    let (base, e') = get_base_gas_cost e kind in (gas_units base (length bytes) random, e')

unfoldable pub get_gas_price : GasEstimator → ℕ
get_gas_price e = e.current_gas_price

unfoldable pub calculate_total_cost : ℕ → ℕ → ℕ
calculate_total_cost units price = mul64 units price

unfoldable pub update_gas_price : GasEstimator → ℕ → GasEstimator
update_gas_price e price = record e { current_gas_price = price }

gas_units_bounds :
    (base size random : ℕ)
    → base < 2 ^ 62
    → size < 2 ^ 58
    → (base + 10 * size ≤ gas_units base size random)
      × (5 * gas_units base size random ≤ 6 * base + 50 * size)
gas_units_bounds base size random hb hs =
    let variance : base / 10 * (random % 3) ≤ base / 10 * 2 =
      mul-le-mul (le_refl (base / 10)) (omega arith) in
    omega arith

-- The variance is at most a fifth of the base cost, so for costs and data that fit the estimate is
-- between the base cost with 10 units for each byte, and that with 20% of the base cost added.
pub estimate_gas_bounds :
    (e : GasEstimator) (kind : String) (bytes : List ℕ) (random : ℕ)
    → (get_base_gas_cost e kind).0 < 2 ^ 62
    → length bytes < 2 ^ 58
    → let base = (get_base_gas_cost e kind).0 in
      (base + 10 * length bytes ≤ (estimate_gas e kind bytes random).0)
      × (5 * (estimate_gas e kind bytes random).0 ≤ 6 * base + 50 * length bytes)
unfolding estimate_gas
estimate_gas_bounds e kind bytes random hb hl =
    gas_units_bounds (get_base_gas_cost e kind).0 (length bytes) random hb hl
