-- ===== src/Futures.antt =====
-- `ComputeFuturesMarket` of include/compute_futures.hpp, over any type `W` of doubles. Each method holds
-- the mutex from start to end and is one step, and is given the oracle that the market points to.
-- Readings of the clock are arguments.
pub mod Lifecycle
pub mod Ids
pub mod Histories
mod Tests
use Prim.Native.String.{◌++◌}
use membra_l3_cpp.Base.{
  ℕ, zero, suc, ◌+◌, ◌%◌, String, Bool, true, false, not, ◌&&◌, Option, none, some, List, [], ◌∷◌,
  if◌then◌else◌, replicate,
}
use membra_l3_cpp.Base.Decimal.{to_string}
use membra_l3_cpp.Base.Dict.{Dict, lookup, insert}
use membra_l3_cpp.Base.Double.{Double}
use membra_l3_cpp.Base.Word.{add64}
use membra_l3_cpp.Prices.{ComputePriceOracle, compute_index_for_cpu_ram}

pub data FutureType : Type 0 where
  forward_contract speculative_long speculative_short : FutureType

pub data FutureStatus : Type 0 where
  open_status settled liquidated expired : FutureStatus

pub record ComputeFuture (W : Type 0) : Type 0 where
  pub future_id : String
  pub trader_address : String
  pub kind : FutureType
  pub status : FutureStatus
  pub cpu_cores : ℕ
  pub ram_gb : ℕ
  pub entry_price : W
  pub target_price : W
  pub strike_price : W
  pub leverage : W
  pub collateral_sol : W
  pub notional_value : W
  pub opened_at : W
  pub expires_at : W
  pub settled_at : W
  pub pnl : W

pub record ComputeFuturesMarket (W : Type 0) : Type 0 where
  pub futures : Dict (ComputeFuture W)
  pub future_counter : ℕ

abbrev pub empty_market : {W : Type 0} → ComputeFuturesMarket W
empty_market = record { futures = []; future_counter = 0 }

abbrev pub is_open : FutureStatus → Bool
is_open open_status = true
is_open _ = false

module _ {W : Type 0} where
  abbrev pub get_future : ComputeFuturesMarket W → String → Option (ComputeFuture W)
  get_future m id = lookup id m.futures

  unfoldable pub count_open : Dict (ComputeFuture W) → ℕ
  count_open [] = 0
  count_open ((id, f) ∷ rest) = (if is_open f.status then 1 else 0) + count_open rest

  unfoldable pub open_futures_count : ComputeFuturesMarket W → ℕ
  open_futures_count m = count_open m.futures

  abbrev pub next_future_id : String → ComputeFuturesMarket W → String
  next_future_id prefix m = prefix ++ to_string m.future_counter

  -- `futures_[id] = future` after the counter was read and advanced.
  abbrev pub enter : ComputeFuturesMarket W → ComputeFuture W → String × ComputeFuturesMarket W
  enter m f = (
    f.future_id,
    record { futures = insert f.future_id f m.futures; future_counter = add64 m.future_counter 1 },
  )

module _ {W : Type 0} ⦃d : Double W⦄ where
  -- What the three ways of opening share; `strike` stands for the field that none of them sets.
  abbrev pub opened :
      ComputePriceOracle W
      → String
      → String
      → FutureType
      → ℕ
      → ℕ
      → W
      → W
      → W
      → W
      → W
      → W
      → W
      → ComputeFuture W
  opened o id trader kind cores ram target leverage collateral notional duration strike now =
      record {
        future_id = id;
        trader_address = trader;
        kind = kind;
        status = open_status;
        cpu_cores = cores;
        ram_gb = ram;
        entry_price = o.current_index;
        target_price = target;
        strike_price = strike;
        leverage = leverage;
        collateral_sol = collateral;
        notional_value = notional;
        opened_at = now;
        expires_at = d.add now duration;
        settled_at = d.lit 0 1;
        pnl = d.lit 0 1;
      }

  unfoldable pub open_forward :
      ComputeFuturesMarket W
      → ComputePriceOracle W
      → String
      → ℕ
      → ℕ
      → W
      → W
      → W
      → W
      → String × ComputeFuturesMarket W
  open_forward m o trader cores ram duration collateral strike now = enter m (
      opened o (next_future_id "fwd_" m) trader forward_contract cores ram o.current_index
        (d.lit 1 1) collateral (compute_index_for_cpu_ram o cores ram) duration strike now)

  unfoldable pub open_long :
      ComputeFuturesMarket W
      → ComputePriceOracle W
      → String
      → ℕ
      → ℕ
      → W
      → W
      → W
      → W
      → W
      → String × ComputeFuturesMarket W
  open_long m o trader cores ram leverage collateral duration strike now = enter m (
      opened o (next_future_id "long_" m) trader speculative_long cores ram
        (d.mul o.current_index (d.lit 15 10)) leverage collateral
        (d.mul (compute_index_for_cpu_ram o cores ram) leverage) duration strike now)

  unfoldable pub open_short :
      ComputeFuturesMarket W
      → ComputePriceOracle W
      → String
      → ℕ
      → ℕ
      → W
      → W
      → W
      → W
      → W
      → String × ComputeFuturesMarket W
  open_short m o trader cores ram leverage collateral duration strike now = enter m (
      opened o (next_future_id "short_" m) trader speculative_short cores ram
        (d.mul o.current_index (d.lit 5 10)) leverage collateral
        (d.mul (compute_index_for_cpu_ram o cores ram) leverage) duration strike now)

  abbrev pub size_of : ComputeFuture W → W
  size_of f =
      d.add (d.mul (d.of_u64 f.cpu_cores) (d.lit 1 10)) (d.mul (d.of_u64 f.ram_gb) (d.lit 5 100))

  unfoldable pub settlement : ComputeFuture W → W → W
  settlement f price = elim f.kind [
    | speculative_long ↦ d.mul (d.mul (d.sub price f.entry_price) f.leverage) (size_of f)
    | speculative_short ↦ d.mul (d.mul (d.sub f.entry_price price) f.leverage) (size_of f)
    | forward_contract ↦ d.mul (d.sub f.target_price price) (size_of f)
  ]

  abbrev pub settle : ComputeFuture W → W → W → ComputeFuture W
  settle f price now = record f { pnl = settlement f price; settled_at = now; status = settled }

  -- `none` is false; else the profit or loss.
  unfoldable pub settle_future :
      ComputeFuturesMarket W → ComputePriceOracle W → String → W → Option W × ComputeFuturesMarket W
  settle_future m o id now = elim (lookup id m.futures) [
    | none ↦ (none, m)
    | some f ↦ if not (is_open f.status) then (none, m) else (
      some (settlement f o.current_index),
      record m { futures = insert id (settle f o.current_index now) m.futures },
    )
  ]

  unfoldable pub unrealized_pnl : ComputeFuture W → W → W
  unrealized_pnl f price = elim f.kind [
    | speculative_long ↦ d.mul (d.sub price f.entry_price) f.leverage
    | speculative_short ↦ d.mul (d.sub f.entry_price price) f.leverage
    | forward_contract ↦ d.lit 0 1
  ]

  -- The test of `check_liquidations` on an open future.
  abbrev pub is_under : ComputeFuture W → W → Bool
  is_under f price =
      d.lt (d.div (d.add f.collateral_sol (unrealized_pnl f price)) f.notional_value) (d.lit 1 2)

  abbrev pub liquidate : ComputeFuture W → ComputeFuture W
  liquidate f = record f { status = liquidated; pnl = d.neg f.collateral_sol }

  unfoldable pub liquidate_loop : W → Dict (ComputeFuture W) → List String × Dict (ComputeFuture W)
  liquidate_loop price [] = ([], [])
  liquidate_loop price ((id, f) ∷ rest) =
      let later = liquidate_loop price rest in
      if is_open f.status && is_under f price
      then (f.future_id ∷ later.0, (id, liquidate f) ∷ later.1)
      else (later.0, (id, f) ∷ later.1)

  unfoldable pub check_liquidations :
      ComputeFuturesMarket W → ComputePriceOracle W → List String × ComputeFuturesMarket W
  check_liquidations m o =
      let out = liquidate_loop o.current_index m.futures in (out.0, record m { futures = out.1 })
