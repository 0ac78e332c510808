-- ===== src/ProofBook/Entries.antt =====
-- `get_entries` of include/proof_book.hpp against the list it stands for.
use membra_l3_cpp.Base.{
  ℕ, zero, suc, ◌+◌, ◌≡◌, refl, sym, List, [], ◌∷◌, ◌==◌, if◌then◌else◌, arith, inl, inr,
  Bool-cases,
}
use mathlib.Core.List.{reverse}
use membra_l3_cpp.ProofBook.{ProofType, code, ProofEntry, ProofBook, get_loop, get_entries}

module _ {W : Type 0} where
  abbrev pub of_kind : ProofType → List (ProofEntry W) → List (ProofEntry W)
  of_kind kind [] = []
  of_kind kind (e ∷ rest) =
      if code e.kind == code kind then e ∷ of_kind kind rest else of_kind kind rest

  abbrev pub first : ℕ → List (ProofEntry W) → List (ProofEntry W)
  first zero es = []
  first (suc n) [] = []
  first (suc n) (e ∷ rest) = e ∷ first n rest

  first-nil : (n : ℕ) → first n [] ≡ []
  first-nil zero = refl
  first-nil (suc n) = refl

  get_loop_lem :
      (kind : ProofType) (room count limit : ℕ) (es : List (ProofEntry W))
      → count + room ≡ limit
      → get_loop kind limit count es ≡ first room (of_kind kind es)
  unfolding get_loop
  get_loop_lem kind room count limit [] h = sym (first-nil room)
  get_loop_lem kind zero count limit (e ∷ rest) h = ground arith
  get_loop_lem kind (suc room) count limit (e ∷ rest) h =
      elim (Bool-cases (code e.kind == code kind)) [
        | inl hit ↦
            rw hit (ground (arith, get_loop_lem kind room (count + 1) limit rest (omega arith)))
        | inr miss ↦ rw miss (ground (arith, get_loop_lem kind (suc room) count limit rest h))
      ]

  -- `get_entries` gives the entries of the kind, the newest first, and no more than the limit: exactly
  -- the first `limit` of them.
  pub get_entries_lem :
      (b : ProofBook W) (kind : ProofType) (limit : ℕ)
      → get_entries b kind limit ≡ first limit (of_kind kind (reverse b.entries))
  unfolding get_entries
  get_entries_lem b kind limit = get_loop_lem kind limit 0 limit (reverse b.entries) (omega arith)
