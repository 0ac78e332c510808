-- ===== src/Futures/Lifecycle.antt =====
-- The status of a future in include/compute_futures.hpp.
use mathlib.Core.Path.{subst}
use membra_l3_cpp.Base.{
  ℕ, ◌≡◌, ◌≢◌, refl, sym, ◌∙◌, inl, inr, String, str_eq, eq_iff, true, false, ◌&&◌, some, none,
  arith, Option-cases, Bool-cases, if◌then◌else◌, [], ◌∷◌,
}
use membra_l3_cpp.Base.Dict.{
  Dict, lookup, insert, lookup-insert, lookup-insert_self, lookup-insert_ne,
}
use membra_l3_cpp.Base.Double.{Double}
use membra_l3_cpp.Prices.{ComputePriceOracle}
use membra_l3_cpp.Futures.{
  FutureStatus, open_status, settled, liquidated, expired, ComputeFuture, ComputeFuturesMarket,
  is_open, next_future_id, open_forward, open_long, open_short, settle, settle_future, is_under,
  liquidate, liquidate_loop, check_liquidations,
}

-- The edges of the status diagram.
pub data ◌⟶◌ : FutureStatus → FutureStatus → Type 0 where
  stay : (s : FutureStatus) → s ⟶ s
  settles : open_status ⟶ settled
  falls : open_status ⟶ liquidated

infix 40 ◌⟶◌
-- One call of an operation that changes the market, with the oracle at its time.
pub data Call (W : Type 0) : Type 0 where
  forward : ComputePriceOracle W → String → ℕ → ℕ → W → W → W → W → Call W
  long short : ComputePriceOracle W → String → ℕ → ℕ → W → W → W → W → W → Call W
  settle_it : ComputePriceOracle W → String → W → Call W
  check : ComputePriceOracle W → Call W

is_open-eq : (s : FutureStatus) → is_open s ≡ true → s ≡ open_status
is_open-eq open_status h = refl
is_open-eq settled h = absurd (ground arith)
is_open-eq liquidated h = absurd (ground arith)
is_open-eq expired h = absurd (ground arith)

module _ {W : Type 0} ⦃d : Double W⦄ where
  -- A future as `check_liquidations` leaves it.
  abbrev pub checked : W → ComputeFuture W → ComputeFuture W
  checked price f = if is_open f.status && is_under f price then liquidate f else f

  lookup-liquidate_loop :
      (price : W) (id : String) (m : Dict (ComputeFuture W)) (f : ComputeFuture W)
      → lookup id m ≡ some f
      → lookup id (liquidate_loop price m).1 ≡ some (checked price f)
  unfolding lookup liquidate_loop
  lookup-liquidate_loop price id [] f h = absurd (ground arith)
  lookup-liquidate_loop price id ((k, g) ∷ rest) f h = elim (Bool-cases (str_eq k id)) [
    | inl hit ↦ ground arith
    | inr miss ↦ ground (arith, lookup-liquidate_loop price id rest f)
  ]

  abbrev pub step : ComputeFuturesMarket W → Call W → ComputeFuturesMarket W
  step m (forward o trader cores ram duration collateral strike now) =
      (open_forward m o trader cores ram duration collateral strike now).1
  step m (long o trader cores ram leverage collateral duration strike now) =
      (open_long m o trader cores ram leverage collateral duration strike now).1
  step m (short o trader cores ram leverage collateral duration strike now) =
      (open_short m o trader cores ram leverage collateral duration strike now).1
  step m (settle_it o id now) = (settle_future m o id now).1
  step m (check o) = (check_liquidations m o).1

  -- The call gives out another identifier, or none.
  abbrev pub Spares : ComputeFuturesMarket W → Call W → String → Type 0
  Spares m (forward _ _ _ _ _ _ _ _) id = next_future_id "fwd_" m ≢ id
  Spares m (long _ _ _ _ _ _ _ _ _) id = next_future_id "long_" m ≢ id
  Spares m (short _ _ _ _ _ _ _ _ _) id = next_future_id "short_" m ≢ id
  Spares m (settle_it _ _ _) id = Unit
  Spares m (check _) id = Unit

  -- What was agreed stays, and the status stays or follows the diagram.
  abbrev pub Advances : ComputeFuture W → ComputeFuture W → Type 0
  Advances f g =
      (f.status ⟶ g.status)
      × (f.trader_address ≡ g.trader_address)
      × (f.cpu_cores ≡ g.cpu_cores)
      × (f.ram_gb ≡ g.ram_gb)
      × (f.entry_price ≡ g.entry_price)
      × (f.leverage ≡ g.leverage)
      × (f.collateral_sol ≡ g.collateral_sol)
      × (f.expires_at ≡ g.expires_at)

  still : (f : ComputeFuture W) → Advances f f
  still f = (stay f.status, refl, refl, refl, refl, refl, refl, refl)

  settle-Advances :
      (f : ComputeFuture W) (price now : W)
      → is_open f.status ≡ true
      → Advances f (settle f price now)
  settle-Advances f price now h = (
    subst (λ s. s ⟶ settled) (sym (is_open-eq f.status h)) settles,
    refl,
    refl,
    refl,
    refl,
    refl,
    refl,
    refl,
  )

  checked-Advances : (f : ComputeFuture W) (price : W) → Advances f (checked price f)
  checked-Advances f price = elim (Bool-cases (is_open f.status && is_under f price)) [
    | inl under ↦ rw under (
      subst (λ s. s ⟶ liquidated) (sym (is_open-eq f.status (ground arith))) falls,
      refl,
      refl,
      refl,
      refl,
      refl,
      refl,
      refl,
    )
    | inr safe ↦ rw safe (still f)
  ]

  same_future :
      (m : Dict (ComputeFuture W)) (k id : String) (g f : ComputeFuture W)
      → str_eq k id ≡ true
      → lookup k m ≡ some g
      → lookup id m ≡ some f
      → g ≡ f
  same_future m k id g f same found h = ground (arith, eq_iff k id)

  abbrev Kept : ComputeFuturesMarket W → String → ComputeFuture W → Type 0
  Kept m id f = (g : ComputeFuture W) × (lookup id m.futures ≡ some g) × Advances f g

  settle_future-Kept :
      (m : ComputeFuturesMarket W) (o : ComputePriceOracle W) (k id : String) (now : W)
      (f : ComputeFuture W)
      → lookup id m.futures ≡ some f
      → Kept (settle_future m o k now).1 id f
  unfolding settle_future
  settle_future-Kept m o k id now f h = elim (Option-cases (lookup k m.futures)) [
    | inl gone ↦ (f, rw (settle_future, gone) h, still f)
    | inr (g, found) ↦ elim (Bool-cases (is_open g.status)) [
      | inr closed ↦ (f, rw (settle_future, found, closed) h, still f)
      | inl ready ↦
          let new = settle g o.current_index now in
          let placed = lookup-insert k id new m.futures in
          elim (Bool-cases (str_eq k id)) [
            | inl same ↦ (
              new,
              rw (settle_future, found, ready) (ground arith),
              subst (λ x. Advances x new) (same_future m.futures k id g f same found h)
                  (settle-Advances g o.current_index now ready),
            )
            | inr other ↦ (f, rw (settle_future, found, ready) (ground arith), still f)
          ]
    ]
  ]

  -- Every call keeps every future whose identifier it does not give out anew: the future stays in the
  -- market, its status stays or goes from open to settled or to liquidated, and its trader, size, entry
  -- price, leverage, collateral and expiry stay. No call expires a future.
  pub step-Advances :
      (m : ComputeFuturesMarket W) (c : Call W) (id : String) (f : ComputeFuture W)
      → lookup id m.futures ≡ some f
      → Spares m c id
      → (g : ComputeFuture W) × (lookup id (step m c).futures ≡ some g) × Advances f g
  unfolding open_forward open_long open_short check_liquidations
  step-Advances m (forward o trader cores ram duration collateral strike now) id f h ne =
      (f, lookup-insert_ne (next_future_id "fwd_" m) id _ m.futures ne ∙ h, still f)
  step-Advances m (long o trader cores ram leverage collateral duration strike now) id f h ne =
      (f, lookup-insert_ne (next_future_id "long_" m) id _ m.futures ne ∙ h, still f)
  step-Advances m (short o trader cores ram leverage collateral duration strike now) id f h ne =
      (f, lookup-insert_ne (next_future_id "short_" m) id _ m.futures ne ∙ h, still f)
  step-Advances m (settle_it o k now) id f h ne = settle_future-Kept m o k id now f h
  step-Advances m (check o) id f h ne = (
    checked o.current_index f,
    lookup-liquidate_loop o.current_index id m.futures f h,
    checked-Advances f o.current_index,
  )

  settle_future-eq :
      (m m' : ComputeFuturesMarket W) (o : ComputePriceOracle W) (id : String) (now profit : W)
      → settle_future m o id now ≡ (some profit, m')
      → (f : ComputeFuture W) × (m' ≡ record m { futures = insert id f m.futures })
        × (f.status ≡ settled)
        × (f.pnl ≡ profit)
  unfolding settle_future
  settle_future-eq m m' o id now profit h = elim (Option-cases (lookup id m.futures)) [
    | inl gone ↦ absurd (ground arith)
    | inr (g, found) ↦ elim (Bool-cases (is_open g.status)) [
      | inl ready ↦ (settle g o.current_index now, ground arith, refl, ground arith)
      | inr closed ↦ absurd (ground arith)
    ]
  ]

  settled-stays :
      (m : ComputeFuturesMarket W) (o : ComputePriceOracle W) (id : String) (later : W)
      (f : ComputeFuture W)
      → lookup id m.futures ≡ some f
      → f.status ≡ settled
      → (settle_future m o id later ≡ (none, m))
        × (lookup id (check_liquidations m o).1.futures ≡ some f)
  unfolding settle_future check_liquidations
  settled-stays m o id later f found over = (
    rw (settle_future, found, over) refl,
    ground (arith, lookup-liquidate_loop o.current_index id m.futures f),
  )

  -- A future is settled at most once: after `settle_future` succeeds the future is settled with the profit
  -- or loss that was returned, each later call for it is refused and changes nothing, whatever the price,
  -- and `check_liquidations` leaves it as it is.
  pub settle_future-once :
      (m m' : ComputeFuturesMarket W) (o o' : ComputePriceOracle W) (id : String)
      (now later profit : W)
      → settle_future m o id now ≡ (some profit, m')
      → (f : ComputeFuture W) × (lookup id m'.futures ≡ some f)
        × (f.status ≡ settled)
        × (f.pnl ≡ profit)
        × (settle_future m' o' id later ≡ (none, m'))
        × (lookup id (check_liquidations m' o').1.futures ≡ some f)
  settle_future-once m m' o o' id now later profit h =
      let (f, after, over, paid) = settle_future-eq m m' o id now profit h in
      let found : lookup id m'.futures ≡ some f =
        ground (arith, lookup-insert_self id f m.futures) in
      let rest = settled-stays m' o' id later f found over in (f, found, over, paid, rest.0, rest.1)

  -- `check_liquidations` leaves no open future under the ratio: a future of the market that is open after
  -- it is as it was before, and its collateral ratio at the oracle's price is not below a half.
  pub check_liquidations-open :
      (m : ComputeFuturesMarket W) (o : ComputePriceOracle W) (id : String) (f g : ComputeFuture W)
      → lookup id m.futures ≡ some f
      → lookup id (check_liquidations m o).1.futures ≡ some g
      → g.status ≡ open_status
      → (f ≡ g) × (is_under g o.current_index ≡ false)
  unfolding check_liquidations
  check_liquidations-open m o id f g h e status =
      let moved = lookup-liquidate_loop o.current_index id m.futures f h in
      elim (Bool-cases (is_open f.status && is_under f o.current_index)) [
        | inl under ↦ absurd (ground arith)
        | inr safe ↦ ground arith
      ]
