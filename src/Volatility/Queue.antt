-- ===== src/Volatility/Queue.antt =====
-- The ring of prices of include/volatility_oracle.hpp as a queue of `HISTORY_SIZE` prices, which
-- `feed_price` pushes to and `compute_twap` reads.
use membra_l3_cpp.Base.{
  ℕ, zero, suc, ◌+◌, ◌%◌, ◌≤◌, ◌<◌, ◌≡◌, refl, sym, ap, ◌∙◌, List, [], ◌∷◌, ◌++◌, arith, ltb,
  length, ◌||◌, if◌then◌else◌, inl, inr, Bool-cases,
}
use mathlib.Core.List.{append_assoc, append-nil}
use membra_l3_cpp.Base.Bytes.{take}
use membra_l3_cpp.Base.Double.{Double}
use membra_l3_cpp.Prices.{set_at}
use membra_l3_cpp.Prices.Ring.{length-set_at}
use membra_l3_cpp.Volatility.{
  PricePoint, VolatilityOracle, history_size, feed_price, no_edges, compute_twap,
}
use membra_l3_cpp.Volatility.Measure.{
  valid_of, sum_of, weight_of, value_of, relative_change, twap_loop_lem, change_of-edges,
  length-valid_of-rotated,
}
use membra_l3_cpp.Volatility.Rotation.{drop, rotated, drop_all, length-rotated, edge_loop_lem}

module _ {A : Type 0} where
  drop-set_at : (k : ℕ) (x : A) (xs : List A) → drop (suc k) (set_at k x xs) ≡ drop (suc k) xs
  unfolding set_at
  drop-set_at k x [] = refl
  drop-set_at zero x (y ∷ ys) = refl
  drop-set_at (suc k) x (y ∷ ys) = drop-set_at k x ys

  take-set_at :
      (k : ℕ) (x : A) (xs : List A)
      → k < length xs
      → take (suc k) (set_at k x xs) ≡ take k xs ++ x ∷ []
  unfolding set_at
  take-set_at k x [] h = absurd (omega arith)
  take-set_at zero x (y ∷ ys) h = refl
  take-set_at (suc k) x (y ∷ ys) h = ap (λ zs. y ∷ zs) (take-set_at k x ys (omega arith))

  take_all : (k : ℕ) (xs : List A) → length xs ≤ k → take k xs ≡ xs
  take_all zero [] h = refl
  take_all (suc k) [] h = refl
  take_all zero (x ∷ xs) h = absurd (omega arith)
  take_all (suc k) (x ∷ xs) h = ap (λ zs. x ∷ zs) (take_all k xs (omega arith))

  drop-append :
      (k : ℕ) (xs ys : List A) → k < length xs → drop 1 (drop k xs ++ ys) ≡ drop (suc k) xs ++ ys
  drop-append k [] ys h = absurd (omega arith)
  drop-append zero (x ∷ xs) ys h = refl
  drop-append (suc k) (x ∷ xs) ys h = drop-append k xs ys (omega arith)

  -- A turn by all of the list is none.
  rotated_all : (k : ℕ) (xs : List A) → length xs ≡ k → rotated k xs ≡ rotated 0 xs
  rotated_all k xs full =
      rw (drop_all k xs (omega arith), take_all k xs (omega arith)) (sym (append-nil xs))

  rotated-wrap :
      (k : ℕ) (xs : List A) → length xs ≡ 100 → k ≤ 100 → rotated (k % 100) xs ≡ rotated k xs
  rotated-wrap k xs full h = elim (Bool-cases (ltb k 100)) [
    | inl less ↦ (let same : k % 100 ≡ k = ground arith in ap (λ j. rotated j xs) same)
    | inr more ↦ (let last : k ≡ 100 = ground arith in rw (last, rotated_all 100 xs full) refl)
  ]

  -- A write at the turn of the ring takes out its first entry and puts the new one at the end.
  rotated-set_at :
      (k : ℕ) (x : A) (xs : List A)
      → length xs ≡ 100
      → k < 100
      → rotated ((k + 1) % 100) (set_at k x xs) ≡ drop 1 (rotated k xs) ++ x ∷ []
  rotated-set_at k x xs full h =
      let next : k + 1 ≡ suc k = omega arith in
      rotated-wrap (k + 1) (set_at k x xs) (length-set_at k x xs ∙ full) (omega arith)
      ∙ rw
          (
            next,
            drop-set_at k x xs,
            take-set_at k x xs (omega arith),
            drop-append k xs (take k xs) (omega arith),
          )
          (sym (append_assoc (drop (suc k) xs) (take k xs) (x ∷ [])))

  -- One push more.
  drop_push :
      (n : ℕ) (x : A) (queue points : List A)
      → zero < length queue
      → drop n ((drop 1 queue ++ x ∷ []) ++ points) ≡ drop (suc n) (queue ++ x ∷ points)
  drop_push n x [] points h = absurd (omega arith)
  drop_push n x (q ∷ queue) points h = ap (drop n) (append_assoc queue (x ∷ []) points)

module _ {W : Type 0} ⦃d : Double W⦄ where
  abbrev pub feed_all : VolatilityOracle W → List (PricePoint W) → VolatilityOracle W
  feed_all o [] = o
  feed_all o (p ∷ rest) = feed_all (feed_price o p.price_usd p.volume_usd p.timestamp) rest

  -- The prices from the oldest to the newest.
  abbrev pub queue_of : VolatilityOracle W → List (PricePoint W)
  queue_of o = rotated o.price_index o.price_history

  -- What the ring promises: a full history, and a place to write at.
  abbrev pub IsRing : VolatilityOracle W → Type 0
  IsRing o = (length o.price_history ≡ history_size) × (o.price_index < history_size)

  feed_price-IsRing :
      (o : VolatilityOracle W) (price volume now : W)
      → IsRing o
      → IsRing (feed_price o price volume now)
  unfolding feed_price
  feed_price-IsRing o price volume now (full, inside) =
      (length-set_at o.price_index _ o.price_history ∙ full, omega arith)

  feed_price-queue_of :
      (o : VolatilityOracle W) (p : PricePoint W)
      → IsRing o
      → queue_of (feed_price o p.price_usd p.volume_usd p.timestamp) ≡ drop 1 (queue_of o) ++ p ∷ []
  unfolding feed_price
  feed_price-queue_of o p (full, inside) =
      rotated-set_at o.price_index p o.price_history full inside

  feed_all-queue_of :
      (o : VolatilityOracle W) (points : List (PricePoint W))
      → IsRing o
      → IsRing (feed_all o points)
        × (queue_of (feed_all o points) ≡ drop (length points) (queue_of o ++ points))
  feed_all-queue_of o [] ring = (ring, sym (append-nil (queue_of o)))
  feed_all-queue_of o (p ∷ rest) ring =
      let o' = feed_price o p.price_usd p.volume_usd p.timestamp in
      let (full, inside) = ring in
      let (ring', same) =
        feed_all-queue_of o' rest (feed_price-IsRing o p.price_usd p.volume_usd p.timestamp ring) in
      (
        ring',
        same
            ∙ rw (feed_price-queue_of o p ring) (
                drop_push (length rest) p (queue_of o) rest
                  (omega (arith, length-rotated o.price_index o.price_history (omega arith)))),
      )

  compute_twap_lem :
      (o : VolatilityOracle W)
      → IsRing o
      → let stored = valid_of o.price_history in
        let valid = valid_of (queue_of o) in
        let weight = sum_of weight_of (d.lit 0 1) stored in
        compute_twap o ≡ (
          if ltb (length valid) 12 || d.eq weight (d.lit 0 1)
          then (d.lit 0 1, d.lit 0 1)
          else (d.div (sum_of value_of (d.lit 0 1) stored) weight, relative_change valid))
  unfolding compute_twap
  compute_twap_lem o (full, inside) =
      let h = o.price_history in
      let count : 0 + length (valid_of h) ≡ length (valid_of h) = omega arith in
      rw
        (
          twap_loop_lem (d.lit 0 1) (d.lit 0 1) 0 h,
          edge_loop_lem 100 o.price_index 0 h no_edges full inside refl,
          change_of-edges (rotated o.price_index h),
          length-valid_of-rotated o.price_index h,
          count,
        )
        refl

  -- The ring refines a queue: after any prices are fed to a full history with its place to write at
  -- inside, read from the oldest entry to the newest, it is what was there followed by the prices fed,
  -- less as many from the front as were fed. Let `stored` be the entries with a time stamp above 0 as
  -- they stand in the history, and `valid` those of the queue. If `valid` has fewer than 12 entries, or
  -- the sum of the weights of `stored` equals 0, `compute_twap` gives (0, 0); else it gives the average
  -- of the stored prices by weight, and the change from the first valid price to the last one, relative
  -- to the first, or 0 if that is not above 0.
  pub feed_all-compute_twap :
      (o : VolatilityOracle W) (points : List (PricePoint W))
      → IsRing o
      → let o' = feed_all o points in
        let stored = valid_of o'.price_history in
        let valid = valid_of (drop (length points) (queue_of o ++ points)) in
        let weight = sum_of weight_of (d.lit 0 1) stored in
        IsRing o'
        × (queue_of o' ≡ drop (length points) (queue_of o ++ points))
        × (compute_twap o' ≡ (
            if ltb (length valid) 12 || d.eq weight (d.lit 0 1)
            then (d.lit 0 1, d.lit 0 1)
            else (d.div (sum_of value_of (d.lit 0 1) stored) weight, relative_change valid)))
  feed_all-compute_twap o points ring =
      let (ring', same) = feed_all-queue_of o points ring in
      (ring', same, rw (← same) (compute_twap_lem (feed_all o points) ring'))
