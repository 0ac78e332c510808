-- ===== src/Futures/Tests.antt =====
-- The futures market, include/compute_futures.hpp, at concrete inputs.
use membra_l3_cpp.Base.{ℕ, ◌≡◌, refl, some, List, [], ◌∷◌, arith}
use membra_l3_cpp.Base.Decimal.{to_string}
use membra_l3_cpp.Base.Dict.{lookup, insert}
use membra_l3_cpp.Base.Fixed.{fixed}
use membra_l3_cpp.Prices.{ComputePriceOracle, new_oracle}
use membra_l3_cpp.Futures.{ComputeFuture, empty_market, open_long, speculative_long, opened}
use membra_l3_cpp.Futures.Lifecycle.{Call, long, Advances, check}
use membra_l3_cpp.Futures.Histories.{run, run-Advances}

abbrev oracle : ComputePriceOracle ℕ
oracle = new_oracle

-- One long position, opened at the price 1.
abbrev calls : List (Call ℕ)
calls = long oracle "alice" 10 0 2_000_000 3_000_000 3_600_000_000 0 5 ∷ []

abbrev position : ComputeFuture ℕ
position =
    opened oracle "long_0" "alice" speculative_long 10 0 1_500_000 2_000_000 3_000_000 2_000_000
      3_600_000_000 0 5

run-Advances_example :
    (g : ComputeFuture ℕ) × (lookup "long_0"
        (run (run empty_market calls) (check oracle ∷ [])).futures
      ≡ some g)
    × Advances position g
unfolding open_long insert lookup to_string
run-Advances_example = run-Advances calls (check oracle ∷ []) "long_0" position (omega arith) refl
