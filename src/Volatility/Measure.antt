-- ===== src/Volatility/Measure.antt =====
-- What `compute_twap` of include/volatility_oracle.hpp measures, told without its loops.
use membra_l3_cpp.Base.{
  ℕ, zero, suc, ◌+◌, ◌≡◌, refl, ap, ◌∙◌, inl, inr, true, List, [], ◌∷◌, ◌++◌, arith, length,
  if◌then◌else◌, Bool-cases,
}
use membra_l3_cpp.Base.Bytes.{take}
use membra_l3_cpp.Base.Double.{Double}
use membra_l3_cpp.Volatility.{PricePoint, Edges, widen, no_edges, change_of, twap_loop, is_valid}
use membra_l3_cpp.Volatility.Rotation.{drop, rotated, edges}

module _ {W : Type 0} ⦃d : Double W⦄ where
  -- The entries that were fed: their time stamp is above 0.
  abbrev pub valid_of : List (PricePoint W) → List (PricePoint W)
  valid_of [] = []
  valid_of (p ∷ ps) = if d.lt (d.lit 0 1) p.timestamp then p ∷ valid_of ps else valid_of ps

  abbrev pub first_of : List (PricePoint W) → W
  first_of [] = d.lit 0 1
  first_of (p ∷ ps) = p.price_usd

  -- The last price, or another one if there is none.
  abbrev pub last_of : W → List (PricePoint W) → W
  last_of x [] = x
  last_of x (p ∷ ps) = last_of p.price_usd ps

  -- The volume counts as the weight, and one without volume has the weight 1.
  abbrev pub weight_of : PricePoint W → W
  weight_of p = if d.lt (d.lit 0 1) p.volume_usd then p.volume_usd else d.lit 1 1

  abbrev pub value_of : PricePoint W → W
  value_of p = if d.lt (d.lit 0 1) p.volume_usd then d.mul p.price_usd p.volume_usd else p.price_usd

  -- The sum from the left.
  abbrev pub sum_of : (PricePoint W → W) → W → List (PricePoint W) → W
  sum_of f x [] = x
  sum_of f x (p ∷ ps) = sum_of f (d.add x (f p)) ps

  -- The change relative to the first price, if that is above 0.
  abbrev pub relative_change : List (PricePoint W) → W
  relative_change ps =
      if d.lt (d.lit 0 1) (first_of ps)
      then d.div (d.sub (last_of (d.lit 0 1) ps) (first_of ps)) (first_of ps)
      else d.lit 0 1

  twap_loop-valid :
      (price volume : W) (count : ℕ) (p : PricePoint W) (ps : List (PricePoint W))
      → is_valid p ≡ true
      → twap_loop price volume count (p ∷ ps)
        ≡ twap_loop (d.add price (value_of p)) (d.add volume (weight_of p)) (count + 1) ps
  unfolding twap_loop
  twap_loop-valid price volume count p ps fed = elim (Bool-cases (d.lt (d.lit 0 1) p.volume_usd)) [
    | inl traded ↦ rw (fed, value_of, weight_of, traded) refl
    | inr idle ↦ rw (fed, value_of, weight_of, idle) refl
  ]

  pub twap_loop_lem :
      (price volume : W) (count : ℕ) (ps : List (PricePoint W))
      → twap_loop price volume count ps ≡ (
        sum_of value_of price (valid_of ps),
        sum_of weight_of volume (valid_of ps),
        count + length (valid_of ps),
      )
  unfolding twap_loop
  twap_loop_lem price volume count [] = ap (λ n. (price, volume, n)) (omega arith)
  twap_loop_lem price volume count (p ∷ ps) = elim (Bool-cases (is_valid p)) [
    | inr empty ↦ rw empty (twap_loop_lem price volume count ps)
    | inl fed ↦
        let next : count + 1 + length (valid_of ps) ≡ count + suc (length (valid_of ps)) =
          omega arith in
        twap_loop-valid price volume count p ps fed
        ∙ rw (fed, ← next)
            (twap_loop_lem (d.add price (value_of p)) (d.add volume (weight_of p)) (count + 1) ps)
  ]

  edges-found :
      (first last : W) (ps : List (PricePoint W))
      → edges (record { first_price = first; last_price = last; found_first = true }) ps ≡ record {
        first_price = first;
        last_price = last_of last (valid_of ps);
        found_first = true;
      }
  unfolding edges
  edges-found first last [] = refl
  edges-found first last (p ∷ ps) = elim (Bool-cases (is_valid p)) [
    | inl fed ↦ rw fed (edges-found first p.price_usd ps)
    | inr empty ↦ rw empty (edges-found first last ps)
  ]

  pub change_of-edges :
      (ps : List (PricePoint W)) → change_of (edges no_edges ps) ≡ relative_change (valid_of ps)
  unfolding edges
  change_of-edges [] = refl
  change_of-edges (p ∷ ps) = elim (Bool-cases (is_valid p)) [
    | inl fed ↦
        let one : Edges W = record {
          first_price = p.price_usd;
          last_price = p.price_usd;
          found_first = true;
        } in
        let start : widen no_edges p ≡ one = rw fed refl in
        ap (λ e. change_of (edges e ps)) start
        ∙ (ap change_of (edges-found p.price_usd p.price_usd ps) ∙ rw fed refl)
    | inr empty ↦
        let start : widen no_edges p ≡ no_edges = rw empty refl in
        ap (λ e. change_of (edges e ps)) start ∙ rw empty (change_of-edges ps)
  ]

  length-valid_of-append :
      (xs ys : List (PricePoint W))
      → length (valid_of (xs ++ ys)) ≡ length (valid_of xs) + length (valid_of ys)
  length-valid_of-append [] ys = omega arith
  length-valid_of-append (p ∷ ps) ys = elim (Bool-cases (is_valid p)) [
    | inl fed ↦ rw fed (omega (arith, length-valid_of-append ps ys))
    | inr empty ↦ rw empty (length-valid_of-append ps ys)
  ]

  take-drop : (k : ℕ) (xs : List (PricePoint W)) → take k xs ++ drop k xs ≡ xs
  take-drop zero xs = refl
  take-drop (suc k) [] = refl
  take-drop (suc k) (x ∷ xs) = ap (λ l. x ∷ l) (take-drop k xs)

  -- A turn of the ring loses no valid entry.
  pub length-valid_of-rotated :
      (k : ℕ) (xs : List (PricePoint W)) → length (valid_of (rotated k xs)) ≡ length (valid_of xs)
  length-valid_of-rotated k xs = omega (
    arith,
    length-valid_of-append (drop k xs) (take k xs),
    length-valid_of-append (take k xs) (drop k xs),
    ap (λ l. length (valid_of l)) (take-drop k xs),
  )
