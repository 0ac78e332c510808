-- ===== src/Volatility/Rotation.antt =====
-- The order in which `compute_twap` of include/volatility_oracle.hpp walks its history.
use membra_l3_cpp.Base.{
  ℕ, zero, suc, ◌+◌, ◌-◌, ◌%◌, ◌≤◌, ◌<◌, ◌≡◌, refl, sym, ap, ◌∙◌, some, List, [], ◌∷◌, ◌++◌, arith,
  ltb, length, get_elem?, length-append, if◌then◌else◌, Bool-cases, inl, inr,
}
use membra_l3_cpp.Base.Bytes.{take}
use membra_l3_cpp.Base.Double.{Double}
use membra_l3_cpp.Volatility.{PricePoint, Edges, widen, edge_loop}

module _ {A : Type 0} where
  abbrev pub drop : ℕ → List A → List A
  drop zero xs = xs
  drop (suc k) [] = []
  drop (suc k) (x ∷ xs) = drop k xs

  length-drop : (k : ℕ) (xs : List A) → length (drop k xs) ≡ length xs - k
  length-drop zero xs = omega arith
  length-drop (suc k) [] = omega arith
  length-drop (suc k) (x ∷ xs) = omega (arith, length-drop k xs)

  length-take : (k : ℕ) (xs : List A) → k ≤ length xs → length (take k xs) ≡ k
  length-take zero xs h = refl
  length-take (suc k) [] h = omega arith
  length-take (suc k) (x ∷ xs) h = omega (arith, length-take k xs)

  get_elem?-drop : (k i : ℕ) (xs : List A) → get_elem? (drop k xs) i ≡ get_elem? xs (k + i)
  get_elem?-drop zero i xs = ap (get_elem? xs) (omega arith)
  get_elem?-drop (suc k) i [] = refl
  get_elem?-drop (suc k) i (x ∷ xs) =
      let next : suc k + i ≡ suc (k + i) = omega arith in rw next (get_elem?-drop k i xs)

  get_elem?-append :
      (xs ys : List A) (i : ℕ)
      → get_elem? (xs ++ ys) i
        ≡ (if ltb i (length xs) then get_elem? xs i else get_elem? ys (i - length xs))
  get_elem?-append [] ys i = ground arith
  get_elem?-append (x ∷ xs) ys zero = ground arith
  get_elem?-append (x ∷ xs) ys (suc i) = ground (arith, get_elem?-append xs ys i)

  get_elem?-take : (k i : ℕ) (xs : List A) → i < k → get_elem? (take k xs) i ≡ get_elem? xs i
  get_elem?-take zero i xs h = absurd (omega arith)
  get_elem?-take (suc k) i [] h = refl
  get_elem?-take (suc k) zero (x ∷ xs) h = refl
  get_elem?-take (suc k) (suc i) (x ∷ xs) h = get_elem?-take k i xs (omega arith)

  get_elem?-some : (i : ℕ) (xs : List A) → i < length xs → (x : A) × (get_elem? xs i ≡ some x)
  get_elem?-some i [] h = absurd (omega arith)
  get_elem?-some zero (x ∷ xs) h = (x, refl)
  get_elem?-some (suc i) (x ∷ xs) h = get_elem?-some i xs (omega arith)

  drop-get_elem? :
      (i : ℕ) (xs : List A) (x : A) → get_elem? xs i ≡ some x → drop i xs ≡ x ∷ drop (suc i) xs
  drop-get_elem? i [] x h = absurd (ground arith)
  drop-get_elem? zero (y ∷ ys) x h = ground arith
  drop-get_elem? (suc i) (y ∷ ys) x h = drop-get_elem? i ys x h

  pub drop_all : (i : ℕ) (xs : List A) → length xs ≤ i → drop i xs ≡ []
  drop_all zero [] h = refl
  drop_all (suc i) [] h = refl
  drop_all zero (x ∷ xs) h = absurd (omega arith)
  drop_all (suc i) (x ∷ xs) h = drop_all i xs (omega arith)

  -- The list from a place on, and then the part before it.
  abbrev pub rotated : ℕ → List A → List A
  rotated k xs = drop k xs ++ take k xs

  pub length-rotated : (k : ℕ) (xs : List A) → k ≤ length xs → length (rotated k xs) ≡ length xs
  length-rotated k xs h =
      omega (arith, length-append (drop k xs) (take k xs), length-drop k xs, length-take k xs h)

  get_elem?-rotated :
      (k i : ℕ) (xs : List A)
      → length xs ≡ 100
      → k < 100
      → i < 100
      → get_elem? (rotated k xs) i ≡ get_elem? xs ((k + i) % 100)
  get_elem?-rotated k i xs full hk hi =
      get_elem?-append (drop k xs) (take k xs) i ∙ elim (Bool-cases (ltb i (length (drop k xs)))) [
        | inl before ↦
            rw before (get_elem?-drop k i xs ∙ ap (get_elem? xs) (ground (arith, length-drop k xs)))
        | inr after ↦ rw after (
            get_elem?-take k (i - length (drop k xs)) xs (ground (arith, length-drop k xs))
            ∙ ap (get_elem? xs) (ground (arith, length-drop k xs)))
      ]

module _ {W : Type 0} ⦃d : Double W⦄ where
  -- The edges of a list, from its first entry to its last.
  unfoldable pub edges : Edges W → List (PricePoint W) → Edges W
  edges e [] = e
  edges e (p ∷ rest) = edges (widen e p) rest

  pub edge_loop_lem :
      (n k i : ℕ) (history : List (PricePoint W)) (e : Edges W)
      → length history ≡ 100
      → k < 100
      → n + i ≡ 100
      → edge_loop n history k i e ≡ edges e (drop i (rotated k history))
  unfolding edge_loop
  edge_loop_lem zero k i history e full hk hn =
      rw (drop_all i (rotated k history) (omega (arith, length-rotated k history)))
        (unfold edges in refl)
  edge_loop_lem (suc n) k i history e full hk hn =
      let (p, found) =
        get_elem?-some i (rotated k history) (omega (arith, length-rotated k history)) in
      let here : get_elem? history ((k + i) % 100) ≡ some p =
        sym (get_elem?-rotated k i history full hk (omega arith)) ∙ found in
      let next : i + 1 ≡ suc i = omega arith in
      let rest : edge_loop n history k (suc i) (widen e p)
          ≡ edges (widen e p) (drop (suc i) (rotated k history)) =
        edge_loop_lem n k (suc i) history (widen e p) full hk (omega arith) in
      rw (here, next, drop-get_elem? i (rotated k history) p found) (rest ∙ (unfold edges in refl))
