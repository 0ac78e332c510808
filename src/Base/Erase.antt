-- ===== src/Base/Erase.antt =====
-- `erase` of a `std::map`, and maps with one entry for each key.
use Prim.Native.Nat.{ℕ, ◌+◌}
use Prim.Native.String.{String}
use mathlib.Core.Path.{◌≡◌, refl}
use mathlib.Core.Logic.{◌≢◌, inl, inr}
use mathlib.Core.List.{[], ◌∷◌}
use mathlib.Core.Option.{none, some}
use native.Mathlib.Omega.{arith}
use text.Mathlib.Text.{◌==◌}
use text.Mathlib.TextEquality.{eq_iff}
use membra_l3_cpp.Base.Tests.{if◌then◌else◌, Bool-cases}
use membra_l3_cpp.Base.Dict.{Dict, lookup, insert, total, lookup-insert, Entries}

module _ {ℓ} {V : Type ℓ} where
  unfoldable pub erase : String → Dict V → Dict V
  erase key [] = []
  erase key ((k, x) ∷ rest) =
      let later = erase key rest in if k == key then rest else (k, x) ∷ later

  pub erase-insert : (k : String) (v : V) (m : Dict V) → erase k (insert k v m) ≡ erase k m
  unfolding erase insert
  erase-insert k v [] = ground (arith, eq_iff k k)
  erase-insert k v ((i, w) ∷ m) = ground (arith, erase-insert k v m, eq_iff k k)

  pub erase_absent : (k : String) (m : Dict V) → lookup k m ≡ none → erase k m ≡ m
  unfolding erase lookup
  erase_absent k [] h = refl
  erase_absent k ((i, w) ∷ m) h = ground (arith, erase_absent k m)

  pub insert-insert : (k : String) (v w : V) (m : Dict V) → insert k v (insert k w m) ≡ insert k v m
  unfolding insert
  insert-insert k v w [] = ground (arith, eq_iff k k)
  insert-insert k v w ((i, u) ∷ m) = ground (arith, insert-insert k v w m, eq_iff k k)

  pub insert_present : (k : String) (v : V) (m : Dict V) → lookup k m ≡ some v → insert k v m ≡ m
  unfolding insert lookup
  insert_present k v [] h = absurd (ground arith)
  insert_present k v ((i, u) ∷ m) h = ground (arith, insert_present k v m, eq_iff i k)

  pub total-erase :
      (f : V → ℕ) (k : String) (v : V) (m : Dict V)
      → lookup k m ≡ some v
      → total f (erase k m) + f v ≡ total f m
  unfolding lookup erase total
  total-erase f k v [] h = absurd (ground arith)
  total-erase f k v ((i, w) ∷ m) h = ground (arith, total-erase f k v m)

  pub lookup-erase_ne : (k j : String) (m : Dict V) → k ≢ j → lookup j (erase k m) ≡ lookup j m
  unfolding lookup erase
  lookup-erase_ne k j [] ne = refl
  lookup-erase_ne k j ((i, w) ∷ m) ne =
      ground (arith, lookup-erase_ne k j m, eq_iff i k, eq_iff i j)

  -- One entry for each key.
  abbrev pub Distinct : Dict V → Type ℓ
  Distinct [] = Unit
  Distinct ((k, v) ∷ m) = (lookup k m ≡ none) × Distinct m

  pub insert-Distinct : (k : String) (v : V) (m : Dict V) → Distinct m → Distinct (insert k v m)
  unfolding insert lookup
  insert-Distinct k v [] h = (refl, tt)
  insert-Distinct k v ((i, w) ∷ m) h =
      ground (arith, lookup-insert k i v m, eq_iff i k, eq_iff k i, insert-Distinct k v m h.1)

  pub erase-Distinct : (k : String) (m : Dict V) → Distinct m → Distinct (erase k m)
  unfolding erase
  erase-Distinct k [] h = tt
  erase-Distinct k ((i, w) ∷ m) h =
      ground (arith, lookup-erase_ne k i m, eq_iff i k, eq_iff k i, erase-Distinct k m h.1)

  pub lookup-erase_self : (k : String) (m : Dict V) → Distinct m → lookup k (erase k m) ≡ none
  unfolding lookup erase
  lookup-erase_self k [] h = refl
  lookup-erase_self k ((i, w) ∷ m) h = ground (arith, lookup-erase_self k m h.1, eq_iff i k)

  pub erase-Entries {κ} :
      (P : String → V → Type κ) (k : String) (m : Dict V)
      → Distinct m
      → Entries P m
      → Entries P (erase k m)
  erase-Entries P k m distinct h j w e = elim (Bool-cases (k == j)) [
    | inl hit ↦ absurd (ground (arith, lookup-erase_self k m distinct, (eq_iff k j).0 hit))
    | inr miss ↦ h j w (ground (arith, lookup-erase_ne k j m, eq_iff k j))
  ]
