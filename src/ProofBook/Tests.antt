-- ===== src/ProofBook/Tests.antt =====
-- The proof book, include/proof_book.hpp, at concrete inputs; the text itself stands for its hash.
use Prim.Native.String.{◌++◌}
use membra_l3_cpp.Base.{ℕ, ◌≡◌, refl, ◌⊎◌, true, String, List, [], ◌∷◌}
use membra_l3_cpp.Base.Decimal.{to_string}
use membra_l3_cpp.Base.Fixed.{fixed}
use membra_l3_cpp.ProofBook.{
  ProofType, treasury, oracle_update, ProofEntry, genesis_hash, empty_book, compute_hash,
  verify_chain, verify_loop,
}
use membra_l3_cpp.ProofBook.Chain.{
  Collision, hashed_text, append_all, append_all-verify_chain, verify_loop-tampered,
}

abbrev itself : String → String
itself s = s

abbrev calls : List (ProofType × String × ℕ)
calls = (treasury, "a", 1) ∷ (oracle_update, "b", 2) ∷ (treasury, "c", 3) ∷ []

append_all-verify_chain_example : verify_chain itself (append_all itself empty_book calls) ≡ true
append_all-verify_chain_example = append_all-verify_chain itself calls

-- Two entries that read alike when their fields are joined, and one after them.
abbrev sealed : String → ℕ → String → ProofEntry ℕ
sealed payload time prev = record {
  kind = treasury;
  payload = payload;
  timestamp = time;
  prev_hash = prev;
  entry_hash = "7" ++ (payload ++ (to_string time ++ prev));
}

abbrev next : ProofEntry ℕ
next = sealed "z" 4 ("712" ++ genesis_hash)

verify_loop-tampered_example :
    (hashed_text (sealed "1" 2 genesis_hash) ≡ hashed_text (sealed "" 12 genesis_hash))
    ⊎ Collision itself
unfolding verify_loop compute_hash to_string
verify_loop-tampered_example =
    verify_loop-tampered itself genesis_hash [] [] (sealed "1" 2 genesis_hash)
      (sealed "" 12 genesis_hash) next refl refl
