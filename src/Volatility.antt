-- ===== src/Volatility.antt =====
-- `VolatilityOracle` of include/volatility_oracle.hpp, over any type `W` of doubles. The history is a
-- vector that is written round and round. Its mutexes guard the history and the gas apart: `assess`
-- holds the first while it reads the history, and is one step here, as the other methods are. Readings
-- of the clock are arguments.
pub mod Rotation
pub mod Measure
pub mod Queue
mod Tests
use membra_l3_cpp.Base.{
  ℕ, zero, suc, ◌+◌, ◌%◌, Bool, true, false, not, ◌||◌, Option, none, some, List, [], ◌∷◌, ltb,
  get_elem?, replicate, if◌then◌else◌,
}
use membra_l3_cpp.Base.Double.{Double}
use membra_l3_cpp.Prices.{set_at}

pub data VolatilitySignal : Type 0 where
  volatility_detected volatility_paused gas_spike gas_normal : VolatilitySignal
  coverage_warning coverage_healthy oracle_stale oracle_fresh : VolatilitySignal

pub record PricePoint (W : Type 0) : Type 0 where
  pub price_usd : W
  pub timestamp : W
  pub volume_usd : W

pub record GasConditions (W : Type 0) : Type 0 where
  pub base_fee_lamports : ℕ
  pub priority_fee_lamports : ℕ
  pub congested : Bool
  pub timestamp : W

pub record VolatilityReport (W : Type 0) : Type 0 where
  pub signal : VolatilitySignal
  pub confidence : W
  pub membra_twap : W
  pub price_change_pct : W
  pub coverage_ratio : W
  pub oracle_age_seconds : W
  pub timestamp : W

pub record VolatilityOracle (W : Type 0) : Type 0 where
  pub price_history : List (PricePoint W)
  pub price_index : ℕ
  pub latest_gas : GasConditions W
  pub last_oracle_update : W
  pub last_twap : W
  pub last_price_change : W

abbrev pub history_size : ℕ
history_size = 100

abbrev pub min_data_points : ℕ
min_data_points = 12

-- The prices of the first and of the last valid entry.
pub record Edges (W : Type 0) : Type 0 where
  pub first_price : W
  pub last_price : W
  pub found_first : Bool

module _ {W : Type 0} ⦃d : Double W⦄ where
  abbrev pub volatility_threshold : W
  volatility_threshold = d.lit 2 100

  abbrev pub oracle_stale_seconds : W
  oracle_stale_seconds = d.lit 300 1

  abbrev pub new_volatility_oracle : VolatilityOracle W
  new_volatility_oracle = record {
    price_history =
        replicate history_size
          (record { price_usd = d.lit 0 1; timestamp = d.lit 0 1; volume_usd = d.lit 0 1 });
    price_index = 0;
    latest_gas = record {
      base_fee_lamports = 5000;
      priority_fee_lamports = 0;
      congested = false;
      timestamp = d.lit 0 1;
    };
    last_oracle_update = d.lit 0 1;
    last_twap = d.lit 0 1;
    last_price_change = d.lit 0 1;
  }

  unfoldable pub feed_price : VolatilityOracle W → W → W → W → VolatilityOracle W
  feed_price o price volume now = record o {
    price_history =
        set_at o.price_index (record { price_usd = price; timestamp = now; volume_usd = volume })
          o.price_history;
    price_index = (o.price_index + 1) % history_size;
    last_oracle_update = now;
  }

  unfoldable pub feed_gas : VolatilityOracle W → ℕ → ℕ → Bool → W → VolatilityOracle W
  feed_gas o base_fee priority_fee congested now = record o {
    latest_gas = record {
      base_fee_lamports = base_fee;
      priority_fee_lamports = priority_fee;
      congested = congested;
      timestamp = now;
    };
  }

  abbrev pub is_valid : PricePoint W → Bool
  is_valid p = d.lt (d.lit 0 1) p.timestamp

  -- The first loop of `compute_twap`: the total price, the total volume and the count.
  unfoldable pub twap_loop : W → W → ℕ → List (PricePoint W) → W × W × ℕ
  twap_loop price volume count [] = (price, volume, count)
  twap_loop price volume count (p ∷ rest) =
      if is_valid p
      then (if d.lt (d.lit 0 1) p.volume_usd
          then twap_loop (d.add price (d.mul p.price_usd p.volume_usd)) (d.add volume p.volume_usd)
              (count + 1) rest
          else twap_loop (d.add price p.price_usd) (d.add volume (d.lit 1 1)) (count + 1) rest)
      else twap_loop price volume count rest

  -- One round of the second loop.
  abbrev pub widen : Edges W → PricePoint W → Edges W
  widen e p =
      if is_valid p
      then record {
        first_price = if e.found_first then e.first_price else p.price_usd;
        last_price = p.price_usd;
        found_first = true;
      }
      else e

  -- No read is past the end of a full history.
  abbrev pub widen_at : Edges W → Option (PricePoint W) → Edges W
  widen_at e none = e
  widen_at e (some p) = widen e p

  -- The second loop: `n` rounds from the round `i` on.
  unfoldable pub edge_loop : ℕ → List (PricePoint W) → ℕ → ℕ → Edges W → Edges W
  edge_loop zero history index i e = e
  edge_loop (suc n) history index i e =
      edge_loop n history index (i + 1)
        (widen_at e (get_elem? history ((index + i) % history_size)))

  abbrev pub no_edges : Edges W
  no_edges = record { first_price = d.lit 0 1; last_price = d.lit 0 1; found_first = false }

  -- The relative change between the edges.
  abbrev pub change_of : Edges W → W
  change_of e =
      if d.lt (d.lit 0 1) e.first_price
      then d.div (d.sub e.last_price e.first_price) e.first_price
      else d.lit 0 1

  -- The average price and the change.
  unfoldable pub compute_twap : VolatilityOracle W → W × W
  compute_twap o =
      let (price, volume, count) = twap_loop (d.lit 0 1) (d.lit 0 1) 0 o.price_history in
      if ltb count min_data_points || d.eq volume (d.lit 0 1) then (d.lit 0 1, d.lit 0 1) else (
        d.div price volume,
        change_of (edge_loop history_size o.price_history o.price_index 0 no_edges),
      )

  -- `std::abs(change) >= VOLATILITY_THRESHOLD`.
  abbrev pub is_volatile : W → Bool
  is_volatile change = d.le volatility_threshold (d.abs change)

  -- `std::min(0.95, x)`.
  abbrev pub at_most_95 : W → W
  at_most_95 x = if d.lt x (d.lit 95 100) then x else d.lit 95 100

  -- The signal and its confidence.
  unfoldable pub signal_of : Bool → Bool → W → VolatilitySignal × W
  signal_of stale low change =
      if stale
      then (oracle_stale, d.lit 95 100)
      else if low
      then (coverage_warning, d.lit 9 10)
      else if is_volatile change
      then (
        volatility_detected,
        at_most_95 (d.add (d.lit 5 10) (d.mul (d.abs change) (d.lit 10 1))),
      )
      else (volatility_paused, d.lit 7 10)

  abbrev pub is_stale : VolatilityOracle W → W → Bool
  is_stale o now = d.lt oracle_stale_seconds (d.sub now o.last_oracle_update)

  abbrev pub is_low : W → Bool
  is_low coverage = d.lt coverage (d.lit 15 10)

  unfoldable pub assess : VolatilityOracle W → W → W → VolatilityReport W × VolatilityOracle W
  assess o coverage now =
      let (twap, change) = compute_twap o in
      let (signal, confidence) = signal_of (is_stale o now) (is_low coverage) change in
      (
        record {
          signal = signal;
          confidence = confidence;
          membra_twap = twap;
          price_change_pct = d.mul change (d.lit 100 1);
          coverage_ratio = coverage;
          oracle_age_seconds = d.sub now o.last_oracle_update;
          timestamp = now;
        },
        record o { last_twap = twap; last_price_change = change },
      )

  unfoldable pub can_unlock_rebase : VolatilityOracle W → Bool
  can_unlock_rebase o = is_volatile o.last_price_change
