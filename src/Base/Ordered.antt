-- ===== src/Base/Ordered.antt =====
-- `std::map` in the order of its keys: what a loop over it walks. `Dict` keeps the entries in any order.
use Prim.Native.Nat.{suc}
use Prim.Native.Char.{code}
use Prim.Native.String.{String}
use mathlib.Core.Path.{◌≡◌, refl, subst}
use mathlib.Core.Logic.{inl, inr}
use mathlib.Core.Bool.{Bool, true, false, ◌||◌, ◌&&◌}
use mathlib.Core.List.{[], ◌∷◌}
use mathlib.Core.Option.{some}
use native.Mathlib.Omega.{arith}
use text.Mathlib.Text.{◌==◌ as str_eq}
use text.Mathlib.TextEquality.{eq_iff}
use membra_l3_cpp.Base.Tests.{ltb, ◌==◌, if◌then◌else◌, Bool-cases}
use membra_l3_cpp.Base.Lists.{length, All}
use membra_l3_cpp.Base.Dict.{Dict, lookup, insert}

-- `operator<` on strings.
unfoldable pub str_lt : String → String → Bool
str_lt String.[] String.[] = false
str_lt String.[] (String.◌∷◌ d t) = true
str_lt (String.◌∷◌ c s) String.[] = false
str_lt (String.◌∷◌ c s) (String.◌∷◌ d t) =
    ltb (code c) (code d) || ((code c == code d) && str_lt s t)

pub str_lt_irrefl : (s : String) → str_lt s s ≡ false
unfolding str_lt
str_lt_irrefl String.[] = refl
str_lt_irrefl (String.◌∷◌ c s) = ground (arith, str_lt_irrefl s)

module _ {ℓ} {V : Type ℓ} where
  -- Before the first entry whose key is not smaller.
  unfoldable pub place : String × V → Dict V → Dict V
  place e [] = e ∷ []
  place e (x ∷ rest) =
      let later = place e rest in if str_lt x.0 e.0 then x ∷ later else e ∷ x ∷ rest

  unfoldable pub in_key_order : Dict V → Dict V
  in_key_order [] = []
  in_key_order (e ∷ rest) = place e (in_key_order rest)

  lookup-place :
      (j k : String) (v : V) (m : Dict V)
      → lookup j (place (k, v) m) ≡ (if str_eq k j then some v else lookup j m)
  unfolding place lookup
  lookup-place j k v [] = refl
  lookup-place j k v ((i, w) ∷ m) =
      ground (arith, lookup-place j k v m, eq_iff k j, eq_iff i j, str_lt_irrefl j)

  pub lookup-in_key_order : (j : String) (m : Dict V) → lookup j (in_key_order m) ≡ lookup j m
  unfolding in_key_order lookup
  lookup-in_key_order j [] = refl
  lookup-in_key_order j ((k, v) ∷ m) =
      ground (arith, lookup-place j k v (in_key_order m), lookup-in_key_order j m)

  length-place : (e : String × V) (m : Dict V) → length (place e m) ≡ suc (length m)
  unfolding place
  length-place e [] = refl
  length-place e (x ∷ rest) = ground (arith, length-place e rest)

  pub length-in_key_order : (m : Dict V) → length (in_key_order m) ≡ length m
  unfolding in_key_order
  length-in_key_order [] = refl
  length-in_key_order (e ∷ rest) =
      omega (arith, length-place e (in_key_order rest), length-in_key_order rest)

  place-All {κ} :
      (P : String × V → Type κ) (e : String × V) (m : Dict V) → P e → All P m → All P (place e m)
  unfolding place
  place-All P e [] p h = (p, tt)
  place-All P e (x ∷ rest) p h = elim (Bool-cases (str_lt x.0 e.0)) [
    | inl less ↦ rw less (h.0, place-All P e rest p h.1)
    | inr less ↦ rw less (p, h)
  ]

  pub in_key_order-All {κ} :
      (P : String × V → Type κ) (m : Dict V) → All P m → All P (in_key_order m)
  unfolding in_key_order
  in_key_order-All P [] h = tt
  in_key_order-All P (e ∷ rest) h =
      place-All P e (in_key_order rest) h.0 (in_key_order-All P rest h.1)

  pub insert-All {κ} :
      (P : String × V → Type κ) (k : String) (v : V) (m : Dict V)
      → P (k, v)
      → All P m
      → All P (insert k v m)
  unfolding insert
  insert-All P k v [] p h = (p, tt)
  insert-All P k v ((i, w) ∷ rest) p h = elim (Bool-cases (str_eq i k)) [
    | inl hit ↦ rw hit (p, h.1)
    | inr miss ↦ rw miss (h.0, insert-All P k v rest p h.1)
  ]

  pub All-lookup {κ} :
      (P : String × V → Type κ) (k : String) (v : V) (m : Dict V)
      → lookup k m ≡ some v
      → All P m
      → P (k, v)
  unfolding lookup
  All-lookup P k v [] found h = absurd (ground arith)
  All-lookup P k v ((i, w) ∷ rest) found h = elim (Bool-cases (str_eq i k)) [
    | inl hit ↦ subst P (ground (arith, eq_iff i k)) h.0
    | inr miss ↦ All-lookup P k v rest (rw miss at found) h.1
  ]
