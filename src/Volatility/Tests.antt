-- ===== src/Volatility/Tests.antt =====
-- The volatility oracle, include/volatility_oracle.hpp, at concrete inputs.
use membra_l3_cpp.Base.{
  ℕ, ◌≡◌, refl, List, [], ◌∷◌, ◌++◌, replicate, length, if◌then◌else◌, ltb, ◌||◌, arith,
}
use membra_l3_cpp.Base.Double.{Double}
use membra_l3_cpp.Base.Fixed.{fixed}
use membra_l3_cpp.Volatility.{PricePoint, VolatilityOracle, new_volatility_oracle, compute_twap}
use membra_l3_cpp.Volatility.Rotation.{drop}
use membra_l3_cpp.Volatility.Measure.{valid_of, sum_of, weight_of, value_of, relative_change}
use membra_l3_cpp.Volatility.Queue.{feed_all, queue_of, IsRing, feed_all-compute_twap}

abbrev price : PricePoint ℕ
price = record { price_usd = 2_000_000; timestamp = 9_000_000; volume_usd = 1_000_000 }

abbrev later_price : PricePoint ℕ
later_price = record { price_usd = 3_000_000; timestamp = 10_000_000; volume_usd = 1_000_000 }

-- Eleven prices, and one higher.
abbrev prices : List (PricePoint ℕ)
prices = replicate 11 price ++ later_price ∷ []

abbrev oracle : VolatilityOracle ℕ
oracle = feed_all new_volatility_oracle prices

feed_all-compute_twap_example :
    let stored = valid_of oracle.price_history in
    let valid = valid_of (drop 12 (queue_of new_volatility_oracle ++ prices)) in
    let weight = sum_of weight_of 0 stored in
    IsRing oracle
    × (queue_of oracle ≡ drop 12 (queue_of new_volatility_oracle ++ prices))
    × (compute_twap oracle ≡ (
        if ltb (length valid) 12 || Double.eq fixed weight 0
        then (0, 0)
        else (Double.div fixed (sum_of value_of 0 stored) weight, relative_change valid)))
feed_all-compute_twap_example =
    feed_all-compute_twap new_volatility_oracle prices (refl, omega arith)
