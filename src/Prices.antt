-- ===== src/Prices.antt =====
-- `ComputePriceOracle` of include/compute_futures.hpp, over any type `W` of doubles. Its history is a
-- vector that is written round and round. Each method holds the mutex from start to end and is one step;
-- readings of the clock are arguments.
pub mod Ring
use Prim.Native.String.{◌++◌}
use membra_l3_cpp.Base.{
  ℕ, zero, suc, ◌+◌, ◌%◌, String, Bool, true, false, not, ◌&&◌, Option, none, some, List, [], ◌∷◌,
  if◌then◌else◌, replicate,
}
use membra_l3_cpp.Base.Decimal.{to_string}
use membra_l3_cpp.Base.Dict.{Dict, lookup, insert}
use membra_l3_cpp.Base.Double.{Double}
use membra_l3_cpp.Base.Word.{add64}

pub record ComputePricePoint (W : Type 0) : Type 0 where
  pub cpu_price_sol : W
  pub ram_price_sol : W
  pub compute_index : W
  pub timestamp : W

pub record ComputePriceOracle (W : Type 0) : Type 0 where
  pub price_history : List (ComputePricePoint W)
  pub price_index : ℕ
  pub current_index : W
  pub current_cpu_price : W
  pub current_ram_price : W

abbrev pub price_history_size : ℕ
price_history_size = 100

-- `xs[i] = x`.
unfoldable pub set_at {ℓ} : {A : Type ℓ} → ℕ → A → List A → List A
set_at i x [] = []
set_at zero x (y ∷ ys) = x ∷ ys
set_at (suc i) x (y ∷ ys) = y ∷ set_at i x ys

module _ {W : Type 0} ⦃d : Double W⦄ where
  abbrev pub no_point : ComputePricePoint W
  no_point = record {
    cpu_price_sol = d.lit 0 1;
    ram_price_sol = d.lit 0 1;
    compute_index = d.lit 0 1;
    timestamp = d.lit 0 1;
  }

  abbrev pub new_oracle : ComputePriceOracle W
  new_oracle = record {
    price_history = replicate price_history_size no_point;
    price_index = 0;
    current_index = d.lit 1 1;
    current_cpu_price = d.lit 1 10;
    current_ram_price = d.lit 5 100;
  }

  abbrev pub index_of : W → W → W
  index_of cpu ram = d.add (d.mul cpu (d.lit 6 10)) (d.mul ram (d.lit 4 10))

  unfoldable pub feed_price : ComputePriceOracle W → W → W → W → ComputePriceOracle W
  feed_price o cpu ram now = record {
    price_history =
        set_at o.price_index
          (record {
            cpu_price_sol = cpu;
            ram_price_sol = ram;
            compute_index = index_of cpu ram;
            timestamp = now;
          })
          o.price_history;
    price_index = (o.price_index + 1) % price_history_size;
    current_index = index_of cpu ram;
    current_cpu_price = cpu;
    current_ram_price = ram;
  }

  abbrev pub compute_index_for_cpu_ram : ComputePriceOracle W → ℕ → ℕ → W
  compute_index_for_cpu_ram o cores ram =
      d.add (d.mul (d.of_u64 cores) o.current_cpu_price) (d.mul (d.of_u64 ram) o.current_ram_price)

  unfoldable pub oldest_loop : W → W → List (ComputePricePoint W) → W
  oldest_loop target oldest [] = oldest
  oldest_loop target oldest (p ∷ rest) =
      oldest_loop target
        (if d.lt (d.lit 0 1) p.timestamp && d.lt p.timestamp target
          then p.compute_index
          else oldest)
        rest

  unfoldable pub price_change_pct : ComputePriceOracle W → W → W → W
  price_change_pct o seconds_ago now =
      let oldest = oldest_loop (d.sub now seconds_ago) (d.lit 0 1) o.price_history in
      if d.eq oldest (d.lit 0 1)
      then d.lit 0 1
      else d.mul (d.div (d.sub o.current_index oldest) oldest) (d.lit 100 1)
