-- ===== src/Base/Fresh.antt =====
-- Identifiers made of a prefix and a counter, and maps whose keys were given out by the counter.
use Prim.Native.Nat.{ℕ, ◌+◌, ◌<◌}
use Prim.Native.String.{String, ◌++◌}
use mathlib.Core.Path.{◌≡◌, sym, ◌∙◌}
use mathlib.Core.Logic.{inl, inr}
use mathlib.Core.Option.{none, some}
use mathlib.Core.List.{[]}
use native.Mathlib.Omega.{arith}
use text.Mathlib.Text.{◌==◌}
use text.Mathlib.TextEquality.{eq_iff}
use text.Mathlib.TextLemmas.{append_cancel_left}
use membra_l3_cpp.Base.Tests.{Bool-cases, Option-cases}
use membra_l3_cpp.Base.Decimal.{to_string, to_string_inj}
use membra_l3_cpp.Base.Dict.{Dict, lookup, insert, lookup-insert}

module _ {ℓ} {V : Type ℓ} (prefix : String) where
  -- Every key is the prefix and a number below the counter.
  abbrev pub Issued : ℕ → Dict V → Type ℓ
  Issued n m =
      (id : String) (v : V)
      → lookup id m ≡ some v
      → (k : ℕ) × (k < n) × (id ≡ prefix ++ to_string k)

  pub nil-Issued : (n : ℕ) → Issued n []
  unfolding lookup
  nil-Issued n id v h = absurd (ground arith)

  pub insert-Issued :
      (n : ℕ) (v : V) (m : Dict V)
      → Issued n m
      → Issued (n + 1) (insert (prefix ++ to_string n) v m)
  insert-Issued n v m issued id w h = elim (Bool-cases ((prefix ++ to_string n) == id)) [
    | inl hit ↦ (n, omega arith, sym ((eq_iff (prefix ++ to_string n) id).0 hit))
    | inr miss ↦
        let (k, lt, e) =
          issued id w (ground (arith, lookup-insert (prefix ++ to_string n) id v m)) in
        (k, omega arith, e)
  ]

  pub update-Issued :
      (n : ℕ) (id : String) (v old : V) (m : Dict V)
      → Issued n m
      → lookup id m ≡ some old
      → Issued n (insert id v m)
  update-Issued n id v old m issued found j w h = elim (Bool-cases (id == j)) [
    | inl hit ↦ let (k, lt, e) = issued id old found in (k, lt, sym ((eq_iff id j).0 hit) ∙ e)
    | inr miss ↦ issued j w (ground (arith, lookup-insert id j v m))
  ]

  pub Issued-fresh : (n : ℕ) (m : Dict V) → Issued n m → lookup (prefix ++ to_string n) m ≡ none
  Issued-fresh n m issued = elim (Option-cases (lookup (prefix ++ to_string n) m)) [
    | inl gone ↦ gone
    | inr (v, found) ↦
        let (k, lt, e) = issued (prefix ++ to_string n) v found in
        let same = to_string_inj n k (append_cancel_left prefix (to_string n) (to_string k) e) in
        absurd (omega arith)
  ]
