-- ===== src/Futures/Ids.antt =====
-- The identifiers of the futures of include/compute_futures.hpp: the three kinds share a counter, and
-- their identifiers never meet.
use Prim.Native.Char as Char
use Prim.Native.String as String
use Prim.Native.String.append
use mathlib.Core.Path.{subst}
use text.Mathlib.TextLemmas.{append_cancel_left}
use membra_l3_cpp.Base.{
  ℕ, ◌+◌, ◌<◌, ◌≡◌, refl, sym, ap, ◌∙◌, inl, inr, String, str_eq, eq_iff, some, none, arith,
  Option-cases, Bool-cases,
}
use membra_l3_cpp.Base.Decimal.{to_string, to_string_inj}
use membra_l3_cpp.Base.Dict.{Dict, lookup, insert, lookup-insert}
use membra_l3_cpp.Futures.{
  FutureType, forward_contract, speculative_long, speculative_short, ComputeFuture,
}

abbrev pub prefix_of : FutureType → String
prefix_of forward_contract = "fwd_"
prefix_of speculative_long = "long_"
prefix_of speculative_short = "short_"

abbrev pub future_id_of : FutureType → ℕ → String
future_id_of kind n = String.◌++◌ (prefix_of kind) (to_string n)

abbrev first_letter : String → ℕ
first_letter String.[] = 0
first_letter (String.◌∷◌ c s) = Char.code c

abbrev letter_of : FutureType → ℕ
letter_of forward_contract = 102
letter_of speculative_long = 108
letter_of speculative_short = 115

first_letter-append :
    (kind : FutureType) (s : String)
    → first_letter (String.◌++◌ (prefix_of kind) s) ≡ letter_of kind
first_letter-append forward_contract s = ap first_letter (append.cons _ "wd_" s)
first_letter-append speculative_long s = ap first_letter (append.cons _ "ong_" s)
first_letter-append speculative_short s = ap first_letter (append.cons _ "hort_" s)

letter_of_inj : (k l : FutureType) → letter_of k ≡ letter_of l → k ≡ l
letter_of_inj forward_contract forward_contract h = refl
letter_of_inj speculative_long speculative_long h = refl
letter_of_inj speculative_short speculative_short h = refl
letter_of_inj forward_contract speculative_long h = absurd (omega arith)
letter_of_inj forward_contract speculative_short h = absurd (omega arith)
letter_of_inj speculative_long forward_contract h = absurd (omega arith)
letter_of_inj speculative_long speculative_short h = absurd (omega arith)
letter_of_inj speculative_short forward_contract h = absurd (omega arith)
letter_of_inj speculative_short speculative_long h = absurd (omega arith)

-- Identifiers of different kinds differ, and so do those of different numbers.
future_id_of_inj : (k l : FutureType) (m n : ℕ) → future_id_of k m ≡ future_id_of l n → m ≡ n
future_id_of_inj k l m n same =
    let kind = letter_of_inj k l (
      sym (first_letter-append k (to_string m))
      ∙ (ap first_letter same ∙ first_letter-append l (to_string n))) in
    let tail : String.◌++◌ (prefix_of l) (to_string m) ≡ String.◌++◌ (prefix_of l) (to_string n) =
      subst (λ j. future_id_of j m ≡ future_id_of l n) kind same in
    to_string_inj m n (append_cancel_left (prefix_of l) (to_string m) (to_string n) tail)

-- Each future stands under an identifier whose number was given out.
abbrev pub Named : {W : Type 0} → ℕ → Dict (ComputeFuture W) → Type 0
Named n m =
    (id : String) (f : _)
    → lookup id m ≡ some f
    → (kind : FutureType) × (k : ℕ) × (k < n) × (id ≡ future_id_of kind k)

module _ {W : Type 0} where
  pub insert-Named :
      (n : ℕ) (kind : FutureType) (f : ComputeFuture W) (m : Dict (ComputeFuture W))
      → Named n m
      → Named (n + 1) (insert (future_id_of kind n) f m)
  insert-Named n kind f m named id g h = elim (Bool-cases (str_eq (future_id_of kind n) id)) [
    | inl hit ↦ (kind, n, omega arith, sym ((eq_iff (future_id_of kind n) id).0 hit))
    | inr miss ↦
        let (kind', k, lt, e) =
          named id g (ground (arith, lookup-insert (future_id_of kind n) id f m)) in
        (kind', k, omega arith, e)
  ]

  pub update-Named :
      (n : ℕ) (id : String) (f old : ComputeFuture W) (m : Dict (ComputeFuture W))
      → Named n m
      → lookup id m ≡ some old
      → Named n (insert id f m)
  update-Named n id f old m named found j g h = elim (Bool-cases (str_eq id j)) [
    | inl hit ↦
        let (kind, k, lt, e) = named id old found in (kind, k, lt, sym ((eq_iff id j).0 hit) ∙ e)
    | inr miss ↦ named j g (ground (arith, lookup-insert id j f m))
  ]

  pub Named-fresh :
      (n : ℕ) (kind : FutureType) (m : Dict (ComputeFuture W))
      → Named n m
      → lookup (future_id_of kind n) m ≡ none
  Named-fresh n kind m named = elim (Option-cases (lookup (future_id_of kind n) m)) [
    | inl gone ↦ gone
    | inr (f, found) ↦
        let (kind', k, lt, e) = named (future_id_of kind n) f found in
        let same = future_id_of_inj kind kind' n k e in absurd (omega arith)
  ]
