-- ===== src/Base/Selects.antt =====
-- Which elements of a list a loop with a test picks out, told without the loop.
use mathlib.Core.Path.{◌≡◌, refl, ap}
use mathlib.Core.List.{List, [], ◌∷◌}

-- `Selects P xs ys`: `ys` are the elements of `xs` with `P`, all of them, in their order.
pub data Selects {A : Type 0} (P : A → Type 0) : List A → List A → Type 0 where
  at_end : Selects P [] []
  taken : (x : A) {xs ys : List A} → P x → Selects P xs ys → Selects P (x ∷ xs) (x ∷ ys)
  passed : (x : A) {xs ys : List A} → ¬ P x → Selects P xs ys → Selects P (x ∷ xs) ys

-- They are determined.
pub Selects-unique :
    {A : Type 0} {P : A → Type 0} {xs ys zs : List A} → Selects P xs ys → Selects P xs zs → ys ≡ zs
Selects-unique at_end at_end = refl
Selects-unique (taken x p s) (taken _ q t) = ap (λ l. x ∷ l) (Selects-unique s t)
Selects-unique (taken x p s) (passed _ q t) = absurd (q p)
Selects-unique (passed x p s) (taken _ q t) = absurd (p q)
Selects-unique (passed x p s) (passed _ q t) = Selects-unique s t
