-- ===== src/Base/Dict.antt =====
-- `std::map` and `std::unordered_map` with string keys, as association lists. The order of the list
-- stands for the order in which a loop over the map meets its entries. A write to the reference that
-- `find` or `operator[]` gave is an `insert` at its key, which keeps the entry's place.
use Prim.Native.Nat.{ℕ, ◌+◌, ◌≤◌}
use Prim.Native.String.{String}
use mathlib.Core.Path.{◌≡◌, refl, subst₂}
use mathlib.Core.Logic.{◌≢◌, inl, inr}
use mathlib.Core.List.{List, [], ◌∷◌}
use mathlib.Core.Option.{Option, none, some}
use native.Mathlib.Omega.{arith}
use text.Mathlib.Text.{◌==◌}
use text.Mathlib.TextEquality.{eq_iff}
use membra_l3_cpp.Base.Tests.{if◌then◌else◌, Bool-cases}

abbrev pub Dict {ℓ} : Type ℓ → Type ℓ
Dict V = List (String × V)

module _ {ℓ} {V : Type ℓ} where
  -- `find`: the value of the first entry with the key.
  unfoldable pub lookup : String → Dict V → Option V
  lookup key [] = none
  lookup key ((k, x) ∷ rest) = let later = lookup key rest in if k == key then some x else later

  -- `m[key] = x`: the first entry with the key is replaced, and a missing key enters at the end.
  unfoldable pub insert : String → V → Dict V → Dict V
  insert key x [] = (key, x) ∷ []
  insert key x ((k, y) ∷ rest) =
      let later = insert key x rest in if k == key then (key, x) ∷ rest else (k, y) ∷ later

  -- `m[k]`: a missing key is given the value `d`.
  abbrev pub get_or : V → Option V → V
  get_or d none = d
  get_or d (some v) = v

  pub lookup-insert :
      (key other : String) (x : V) (m : Dict V)
      → lookup other (insert key x m) ≡ (if key == other then some x else lookup other m)
  unfolding insert lookup
  lookup-insert key other x [] = refl
  lookup-insert key other x ((k, y) ∷ rest) =
      let onward = lookup-insert key other x rest in
      ground (arith, eq_iff k key, eq_iff k other, eq_iff key other)

  pub lookup-insert_self : (k : String) (v : V) (m : Dict V) → lookup k (insert k v m) ≡ some v
  lookup-insert_self k v m = ground (arith, lookup-insert k k v m, eq_iff k k)

  pub lookup-insert_ne :
      (k j : String) (v : V) (m : Dict V) → k ≢ j → lookup j (insert k v m) ≡ lookup j m
  lookup-insert_ne k j v m ne = ground (arith, lookup-insert k j v m, eq_iff k j)

  pub lookup-insert_new :
      (k j : String) (v w : V) (m : Dict V)
      → lookup k m ≡ none
      → lookup j m ≡ some w
      → lookup j (insert k v m) ≡ some w
  lookup-insert_new k j v w m free found = ground (arith, lookup-insert k j v m, eq_iff k j)

  -- The sum of a quantity over the entries.
  unfoldable pub total : (V → ℕ) → Dict V → ℕ
  total f [] = 0
  total f ((k, v) ∷ m) = f v + total f m

  pub total-insert :
      (f : V → ℕ) (k : String) (v old : V) (m : Dict V)
      → lookup k m ≡ some old
      → total f (insert k v m) + f old ≡ total f m + f v
  unfolding lookup insert total
  total-insert f k v old [] h = absurd (ground arith)
  total-insert f k v old ((i, w) ∷ m) h = ground (arith, total-insert f k v old m)

  pub total-insert_new :
      (f : V → ℕ) (k : String) (v : V) (m : Dict V)
      → lookup k m ≡ none
      → total f (insert k v m) ≡ total f m + f v
  unfolding lookup insert total
  total-insert_new f k v [] h = ground arith
  total-insert_new f k v ((i, w) ∷ m) h = ground (arith, total-insert_new f k v m)

  pub le-total :
      (f : V → ℕ) (k : String) (v : V) (m : Dict V) → lookup k m ≡ some v → f v ≤ total f m
  unfolding lookup total
  le-total f k v [] h = absurd (ground arith)
  le-total f k v ((i, w) ∷ m) h = ground (arith, le-total f k v m)

  -- Every entry satisfies the predicate.
  abbrev pub Entries {κ} : (String → V → Type κ) → Dict V → Type (ℓ ⊔ κ)
  Entries P m = (k : String) (v : V) → lookup k m ≡ some v → P k v

  pub insert-Entries {κ} :
      (P : String → V → Type κ) (k : String) (v : V) (m : Dict V)
      → Entries P m
      → P k v
      → Entries P (insert k v m)
  insert-Entries P k v m h p j w e = elim (Bool-cases (k == j)) [
    | inl hit ↦ subst₂ P ((eq_iff k j).0 hit) (ground (arith, lookup-insert k j v m)) p
    | inr miss ↦ h j w (ground (arith, lookup-insert k j v m))
  ]

  -- What a loop over a fresh map can rely on.
  pub nil-Entries {κ} : (P : String → V → Type κ) → Entries P []
  unfolding lookup
  nil-Entries P k v e = cc
