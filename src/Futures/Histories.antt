-- ===== src/Futures/Histories.antt =====
-- The futures of include/compute_futures.hpp over histories of calls.
use membra_l3_cpp.Base.{
  ℕ, ◌+◌, ◌^◌, ◌<◌, ◌≤◌, ◌≡◌, ◌≢◌, refl, ap, ◌∙◌, inl, inr, String, str_eq, some, none, arith,
  Option-cases, Bool-cases, List, [], ◌∷◌, length, not,
}
use membra_l3_cpp.Base.Dict.{Dict, lookup, insert}
use membra_l3_cpp.Base.Double.{Double}
use membra_l3_cpp.Base.Word.{add64, add64-eq_of_lt}
use membra_l3_cpp.Prices.{ComputePriceOracle}
use membra_l3_cpp.Futures.{
  FutureType, forward_contract, speculative_long, speculative_short, ComputeFuture,
  ComputeFuturesMarket, FutureStatus, empty_market, is_open, open_forward, open_long, open_short,
  settle, settle_future, liquidate_loop, check_liquidations,
}
use membra_l3_cpp.Futures.Lifecycle.{
  ◌⟶◌, stay, settles, falls, Call, forward, long, short, settle_it, check, step, Spares, Advances,
  step-Advances,
}
use membra_l3_cpp.Futures.Ids.{future_id_of, Named, insert-Named, update-Named, Named-fresh}

moves_trans : (s t u : FutureStatus) → s ⟶ t → t ⟶ u → s ⟶ u
moves_trans s _ u (stay _) b = b
moves_trans _ _ _ settles (stay _) = settles
moves_trans _ _ _ falls (stay _) = falls

module _ {W : Type 0} ⦃d : Double W⦄ where
  lookup-liquidate_loop-none :
      (price : W) (id : String) (m : Dict (ComputeFuture W))
      → lookup id m ≡ none
      → lookup id (liquidate_loop price m).1 ≡ none
  unfolding lookup liquidate_loop
  lookup-liquidate_loop-none price id [] h = refl
  lookup-liquidate_loop-none price id ((k, g) ∷ rest) h = elim (Bool-cases (str_eq k id)) [
    | inl hit ↦ absurd (ground arith)
    | inr miss ↦ ground (arith, lookup-liquidate_loop-none price id rest)
  ]

  liquidate_loop-Named :
      (n : ℕ) (price : W) (m : Dict (ComputeFuture W))
      → Named n m
      → Named n (liquidate_loop price m).1
  liquidate_loop-Named n price m named id f h = elim (Option-cases (lookup id m)) [
    | inr (old, found) ↦ named id old found
    | inl gone ↦ absurd (ground (arith, lookup-liquidate_loop-none price id m gone))
  ]

  -- The identifiers of the market's futures were given out by its counter.
  abbrev pub IsNamed : ComputeFuturesMarket W → Type 0
  IsNamed m = Named m.future_counter m.futures

  -- One more call, by which the counter goes up by at most one.
  abbrev Continues : ComputeFuturesMarket W → ComputeFuturesMarket W → Type 0
  Continues m m' = (m'.future_counter ≤ m.future_counter + 1) × IsNamed m'

  open-Continues :
      (m : ComputeFuturesMarket W) (kind : FutureType) (f : ComputeFuture W)
      → m.future_counter + 1 < 2 ^ 64
      → IsNamed m
      → Continues m (record {
        futures = insert (future_id_of kind m.future_counter) f m.futures;
        future_counter = add64 m.future_counter 1;
      })
  open-Continues m kind f room named =
      let counted = add64-eq_of_lt m.future_counter 1 room in
      (omega (arith, counted), rw counted (insert-Named m.future_counter kind f m.futures named))

  settle_future-Continues :
      (m : ComputeFuturesMarket W) (o : ComputePriceOracle W) (id : String) (now : W)
      → IsNamed m
      → Continues m (settle_future m o id now).1
  unfolding settle_future
  settle_future-Continues m o id now named = elim (Option-cases (lookup id m.futures)) [
    | inl gone ↦ rw (settle_future, gone) (omega arith, named)
    | inr (f, found) ↦ elim (Bool-cases (not (is_open f.status))) [
      | inl closed ↦ rw (settle_future, found, closed) (omega arith, named)
      | inr ready ↦
          rw (settle_future, found, ready)
            (
              omega arith,
              update-Named m.future_counter id (settle f o.current_index now) f m.futures named
                  found,
            )
    ]
  ]

  step-Continues :
      (m : ComputeFuturesMarket W) (c : Call W)
      → m.future_counter + 1 < 2 ^ 64
      → IsNamed m
      → Continues m (step m c)
  unfolding open_forward open_long open_short check_liquidations
  step-Continues m (forward o trader cores ram duration collateral strike now) room named =
      open-Continues m forward_contract _ room named
  step-Continues m (long o trader cores ram leverage collateral duration strike now) room named =
      open-Continues m speculative_long _ room named
  step-Continues m (short o trader cores ram leverage collateral duration strike now) room named =
      open-Continues m speculative_short _ room named
  step-Continues m (settle_it o id now) room named = settle_future-Continues m o id now named
  step-Continues m (check o) room named =
      (omega arith, liquidate_loop-Named m.future_counter o.current_index m.futures named)

  other_id :
      (m : ComputeFuturesMarket W) (kind : FutureType) (id : String) (f : ComputeFuture W)
      → IsNamed m
      → lookup id m.futures ≡ some f
      → future_id_of kind m.future_counter ≢ id
  other_id m kind id f named found same =
      let fresh = Named-fresh m.future_counter kind m.futures named in
      absurd (ground (arith, ap (λ j. lookup j m.futures) same))

  step-Spares :
      (m : ComputeFuturesMarket W) (c : Call W) (id : String) (f : ComputeFuture W)
      → IsNamed m
      → lookup id m.futures ≡ some f
      → Spares m c id
  step-Spares m (forward o trader cores ram duration collateral strike now) id f named found =
      other_id m forward_contract id f named found
  step-Spares m (long o trader cores ram leverage collateral duration strike now) id f named found =
      other_id m speculative_long id f named found
  step-Spares m (short o trader cores ram leverage collateral duration strike now) id f named
        found =
      other_id m speculative_short id f named found
  step-Spares m (settle_it o k now) id f named found = tt
  step-Spares m (check o) id f named found = tt

  abbrev pub run : ComputeFuturesMarket W → List (Call W) → ComputeFuturesMarket W
  run m [] = m
  run m (c ∷ cs) = run (step m c) cs

  run-IsNamed :
      (m : ComputeFuturesMarket W) (cs : List (Call W))
      → m.future_counter + length cs < 2 ^ 64
      → IsNamed m
      → ((run m cs).future_counter ≤ m.future_counter + length cs) × IsNamed (run m cs)
  run-IsNamed m [] room named = (omega arith, named)
  run-IsNamed m (c ∷ cs) room named =
      let (le, named') = step-Continues m c (omega arith) named in
      let (le', named'') = run-IsNamed (step m c) cs (omega arith) named' in (omega arith, named'')

  Advances-trans : (f g h : ComputeFuture W) → Advances f g → Advances g h → Advances f h
  Advances-trans f g h (a₀, a₁, a₂, a₃, a₄, a₅, a₆, a₇) (b₀, b₁, b₂, b₃, b₄, b₅, b₆, b₇) = (
    moves_trans f.status g.status h.status a₀ b₀,
    a₁ ∙ b₁,
    a₂ ∙ b₂,
    a₃ ∙ b₃,
    a₄ ∙ b₄,
    a₅ ∙ b₅,
    a₆ ∙ b₆,
    a₇ ∙ b₇,
  )

  run-Advances_from :
      (m : ComputeFuturesMarket W) (cs : List (Call W)) (id : String) (f : ComputeFuture W)
      → m.future_counter + length cs < 2 ^ 64
      → IsNamed m
      → lookup id m.futures ≡ some f
      → (g : ComputeFuture W) × (lookup id (run m cs).futures ≡ some g) × Advances f g
  run-Advances_from m [] id f room named found =
      (f, found, (stay f.status, refl, refl, refl, refl, refl, refl, refl))
  run-Advances_from m (c ∷ cs) id f room named found =
      let (le, named') = step-Continues m c (omega arith) named in
      let (g, found', a) = step-Advances m c id f found (step-Spares m c id f named found) in
      let (h, found'', b) = run-Advances_from (step m c) cs id g (omega arith) named' found' in
      (h, found'', Advances-trans f g h a b)

  -- A future is never lost or overwritten: from the empty market, over fewer than 2 ^ 64 calls, a future
  -- that is in the market after the first of them is there after the others, under its identifier, with
  -- the trader, size, entry price, leverage, collateral and expiry that it had, and with the status that
  -- it had, or settled or liquidated if it was open.
  pub run-Advances :
      (cs later : List (Call W)) (id : String) (f : ComputeFuture W)
      → length cs + length later < 2 ^ 64
      → lookup id (run empty_market cs).futures ≡ some f
      → (g : ComputeFuture W) × (lookup id (run (run empty_market cs) later).futures ≡ some g)
        × Advances f g
  unfolding lookup
  run-Advances cs later id f room found =
      let (le, named) =
        run-IsNamed empty_market cs (omega arith) (λ id' f' h. absurd (ground arith)) in
      run-Advances_from (run empty_market cs) later id f (omega arith) named found
