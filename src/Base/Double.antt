-- ===== src/Base/Double.antt =====
-- What the code does with a `double`: the interface that the components take as an instance.
use Prim.Native.Nat.{ℕ}
use Prim.Native.String.{String}
use mathlib.Core.Bool.{Bool}

-- `lit m n` is the literal m / n; `neg`, `abs`, `eq`, `lt` and `le` are `-`, `std::abs`, `==`, `<` and
-- `<=`; `of_u64` and `to_u64` are the conversions, `shown` is `std::to_string`, and `printed` what a
-- stream prints.
pub record Double {ℓ} (W : Type ℓ) : Type ℓ where
  pub lit : ℕ → ℕ → W
  pub add : W → W → W
  pub sub : W → W → W
  pub mul : W → W → W
  pub div : W → W → W
  pub neg : W → W
  pub abs : W → W
  pub eq : W → W → Bool
  pub lt : W → W → Bool
  pub le : W → W → Bool
  pub of_u64 : ℕ → W
  pub to_u64 : W → ℕ
  pub shown : W → String
  pub printed : W → String
