-- ===== src/ProofBook.antt =====
-- `ProofBook` of include/proof_book.hpp, over any type `W` of doubles. The mutex, which each operation
-- holds from its first line to its last, is not shown: each call is one step.
pub mod Chain
pub mod Entries
mod Tests
use Prim.Native.String.{◌++◌}
use membra_l3_cpp.Base.{
  ℕ, ◌+◌, String, str_eq, Bool, true, false, not, List, [], ◌∷◌, ltb, ◌==◌, if◌then◌else◌,
}
use mathlib.Core.List.{reverse, ◌++◌ as append_lists}
use membra_l3_cpp.Base.Decimal.{to_string}
use membra_l3_cpp.Base.Double.{Double}

pub data ProofType : Type 0 where
  volatility development zk_compute governance fee_credit : ProofType
  route_validation oracle_update treasury identity_link : ProofType

-- `static_cast<int>` of the type.
abbrev pub code : ProofType → ℕ
code volatility = 0
code development = 1
code zk_compute = 2
code governance = 3
code fee_credit = 4
code route_validation = 5
code oracle_update = 6
code treasury = 7
code identity_link = 8

pub record ProofEntry (W : Type 0) : Type 0 where
  pub kind : ProofType
  pub payload : String
  pub timestamp : W
  pub prev_hash : String
  pub entry_hash : String

pub record ProofBook (W : Type 0) : Type 0 where
  pub entries : List (ProofEntry W)
  pub last_hash : String

-- The hash before the first entry: sixty-four characters 0.
abbrev pub genesis_hash : String
genesis_hash = "0000000000000000000000000000000000000000000000000000000000000000"

abbrev pub empty_book : {W : Type 0} → ProofBook W
empty_book = record { entries = []; last_hash = genesis_hash }

unfoldable pub get_loop :
    {W : Type 0} → ProofType → ℕ → ℕ → List (ProofEntry W) → List (ProofEntry W)
get_loop kind limit count [] = []
get_loop kind limit count (e ∷ older) =
    let taken = get_loop kind limit (count + 1) older in
    let left = get_loop kind limit count older in
    if ltb count limit then (if code e.kind == code kind then e ∷ taken else left) else []

-- The newest first.
unfoldable pub get_entries : {W : Type 0} → ProofBook W → ProofType → ℕ → List (ProofEntry W)
get_entries b kind limit = get_loop kind limit 0 (reverse b.entries)

-- `hash_to_hex(sha256(payload))` is the parameter `sha256_hex`.
module _ {W : Type 0} ⦃d : Double W⦄ (sha256_hex : String → String) where
  unfoldable pub compute_hash : ProofEntry W → String
  compute_hash e =
      sha256_hex (to_string (code e.kind) ++ (e.payload ++ (d.shown e.timestamp ++ e.prev_hash)))

  abbrev pub seal : ProofEntry W → String → ProofEntry W
  seal e prev =
      let linked = record e { prev_hash = prev } in
      record linked { entry_hash = compute_hash linked }

  unfoldable pub append : ProofBook W → ProofType → String → W → ProofEntry W × ProofBook W
  append b kind payload now =
      let entry =
        seal
          (record {
            kind = kind;
            payload = payload;
            timestamp = now;
            prev_hash = "";
            entry_hash = "";
          })
          b.last_hash in
      (
        entry,
        record { entries = append_lists b.entries (entry ∷ []); last_hash = entry.entry_hash },
      )

  unfoldable pub verify_loop : String → List (ProofEntry W) → Bool
  verify_loop expected [] = true
  verify_loop expected (e ∷ rest) =
      let later = verify_loop (compute_hash e) rest in
      if not (str_eq e.prev_hash expected)
      then false
      else if not (str_eq e.entry_hash (compute_hash e))
      then false
      else later

  unfoldable pub verify_chain : ProofBook W → Bool
  verify_chain b = verify_loop genesis_hash b.entries
