-- ===== src/Artifacts.antt =====
-- include/ipfs_verifier.hpp and src/ipfs_verifier.cpp: the records, and IPFSVerifier, whose requests over
-- HTTP are placeholders in the source and are given with the answers they have there. SHA-256 is
-- OpenSSL's and stands as the parameter `sha256`; a byte is a number. What `std::ifstream` reads is the
-- parameter `files`, from a path to the content of the file, if it can be opened.
pub mod Analyzer
pub mod Attesting
pub mod Registry
mod Tests
use Prim.Native.String.{String, ◌++◌}
use membra_l3_cpp.Base.{
  ℕ, zero, suc, ◌+◌, ◌%◌, str_eq, Bool, true, false, not, ◌&&◌, Option, none, some, List, [], ◌∷◌,
  get_elem?, if◌then◌else◌,
}
use membra_l3_cpp.Base.Bytes.{hash_to_hex}
use membra_l3_cpp.Base.Dict.{Dict, get_or}
use membra_l3_cpp.Merkle.{Bytes, zero_hash, bytes_eq}

pub record IpfsConfig : Type 0 where
  pub gateway_url : String
  pub local_api_url : String
  pub pinata_api_key : String
  pub pinata_secret_key : String
  pub use_local_ipfs : Bool
  pub timeout_seconds : ℕ

abbrev pub new_config : IpfsConfig
new_config = record {
  gateway_url = "https://ipfs.io/ipfs/";
  local_api_url = "http://localhost:5001/api/v0";
  pinata_api_key = "";
  pinata_secret_key = "";
  use_local_ipfs = true;
  timeout_seconds = 30;
}

pub record ArtifactAnalysis : Type 0 where
  pub artifact_type : String
  pub size_bytes : ℕ
  pub content_hash : Bytes
  pub format : String
  pub timestamp : ℕ

pub record ArtifactAttestation : Type 0 where
  pub attestation_id : String
  pub artifact_type : String
  pub ipfs_cid : String
  pub content_hash : Bytes
  pub perceptual_hash : Bytes
  pub size_bytes : ℕ
  pub format : String
  pub creator_wallet : String
  pub created_at : ℕ
  pub metadata : Dict String
  pub verification_status : String
  pub oracle_signature : String

-- A call returns or throws; the text is the message of the exception.
pub data Outcome {ℓ} (A : Type ℓ) : Type ℓ where
  returned : A → Outcome A
  thrown : String → Outcome A

infixl 5 ◌>>=◌
abbrev pub ◌>>=◌ {ℓ κ} : {A : Type ℓ} {B : Type κ} → Outcome A → (A → Outcome B) → Outcome B
returned a >>= f = f a
thrown message >>= f = thrown message

abbrev pub Files : Type 0
Files = String → Option Bytes

-- Opening and reading a file to its end.
unfoldable pub read_file : Files → String → Outcome Bytes
read_file files path = elim (files path) [
  | none ↦ thrown ("Failed to open file: " ++ path)
  | some content ↦ returned content
]

-- The first characters of a text.
abbrev pub take_text : ℕ → String → String
take_text zero s = ""
take_text (suc n) String.[] = ""
take_text (suc n) (String.◌∷◌ c s) = String.◌∷◌ c (take_text n s)

-- `hash[i % 32]` for `n` indices from `i` on.
abbrev pub cycle : ℕ → ℕ → Bytes → Bytes
cycle zero i hash = []
cycle (suc n) i hash = get_or 0 (get_elem? hash (i % 32)) ∷ cycle n (i + 1) hash

-- The placeholders: `http_get` answers with no bytes, and neither upload can throw.
unfoldable pub http_get : String → Bytes
http_get url = []

unfoldable pub upload_to_local_ipfs : Bytes → String
upload_to_local_ipfs content = "QmHash123456789"

unfoldable pub upload_to_pinata : Bytes → String
upload_to_pinata content = "QmPinataMockCID123456"

unfoldable pub retrieve_from_ipfs : IpfsConfig → String → Bytes
retrieve_from_ipfs config cid = http_get (config.gateway_url ++ cid)

module _ (sha256 : Bytes → Bytes) where
  unfoldable pub generate_mock_cid : Bytes → String
  generate_mock_cid content = take_text 46 ("Qm" ++ hash_to_hex (cycle 44 0 (sha256 content)))

  unfoldable pub upload_to_ipfs : IpfsConfig → Bytes → String
  upload_to_ipfs config content =
      if not (str_eq config.pinata_api_key "") && not (str_eq config.pinata_secret_key "")
      then upload_to_pinata content
      else if config.use_local_ipfs
      then upload_to_local_ipfs content
      else generate_mock_cid content

  unfoldable pub upload_file_to_ipfs : Files → IpfsConfig → String → Outcome String
  upload_file_to_ipfs files config path =
      read_file files path >>= λ content. returned (upload_to_ipfs config content)

  unfoldable pub verify_content_integrity : IpfsConfig → String → Bytes → Bool
  verify_content_integrity config cid expected_hash =
      bytes_eq (sha256 (retrieve_from_ipfs config cid)) expected_hash
