-- ===== src/Prices/Ring.antt =====
-- The price history of include/compute_futures.hpp.
use membra_l3_cpp.Base.{
  ℕ, zero, suc, ◌+◌, ◌<◌, ◌≡◌, refl, ◌∙◌, some, List, [], ◌∷◌, arith, length, get_elem?,
  if◌then◌else◌, ◌==◌,
}
use membra_l3_cpp.Base.Double.{Double}
use membra_l3_cpp.Prices.{ComputePriceOracle, price_history_size, set_at, new_oracle, feed_price}

pub length-set_at {ℓ} :
    {A : Type ℓ} (i : ℕ) (x : A) (xs : List A) → length (set_at i x xs) ≡ length xs
unfolding set_at
length-set_at i x [] = refl
length-set_at zero x (y ∷ ys) = refl
length-set_at (suc i) x (y ∷ ys) = omega (arith, length-set_at i x ys)

get_elem?-set_at {ℓ} :
    {A : Type ℓ} (i j : ℕ) (x : A) (xs : List A)
    → i < length xs
    → get_elem? (set_at i x xs) j ≡ (if i == j then some x else get_elem? xs j)
unfolding set_at
get_elem?-set_at i j x [] h = absurd (omega arith)
get_elem?-set_at zero zero x (y ∷ ys) h = refl
get_elem?-set_at zero (suc j) x (y ∷ ys) h = ground arith
get_elem?-set_at (suc i) zero x (y ∷ ys) h = ground arith
get_elem?-set_at (suc i) (suc j) x (y ∷ ys) h = ground (arith, get_elem?-set_at i j x ys)

module _ {W : Type 0} ⦃d : Double W⦄ where
  -- The history is full and the next place is in it.
  pub record IsRing (o : ComputePriceOracle W) : Type 0 where
    pub full : length o.price_history ≡ price_history_size
    pub within : o.price_index < price_history_size

  pub new_oracle-IsRing : IsRing new_oracle
  new_oracle-IsRing = record { full = refl; within = omega arith }

  -- `feed_price` writes within the history: it keeps the ring, the new price stands at the place that was
  -- next and at no other does a price change, and the place after it is next.
  pub feed_price-IsRing :
      (o : ComputePriceOracle W) (cpu ram now : W) (j : ℕ)
      → IsRing o
      → let o' = feed_price o cpu ram now in
        IsRing o'
        × (get_elem? o'.price_history j ≡ (
            if o.price_index == j
            then some (record {
              cpu_price_sol = cpu;
              ram_price_sol = ram;
              compute_index = o'.current_index;
              timestamp = now;
            })
            else get_elem? o.price_history j))
        × (o'.price_index ≡ (if o.price_index == 99 then 0 else o.price_index + 1))
  unfolding feed_price
  feed_price-IsRing o cpu ram now j ring = (
    record {
      full = length-set_at o.price_index _ o.price_history ∙ ring.full;
      within = omega arith;
    },
    get_elem?-set_at o.price_index j _ o.price_history (ground (arith, ring.full, ring.within)),
    ground (arith, ring.within),
  )
