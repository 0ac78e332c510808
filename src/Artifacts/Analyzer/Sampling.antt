-- ===== src/Artifacts/Analyzer/Sampling.antt =====
-- What the verification of an artifact of src/ipfs_verifier.cpp can find.
use membra_l3_cpp.Base.{ℕ, ◌≡◌, String, [], arith}
use membra_l3_cpp.Base.Dict.{Dict}
use membra_l3_cpp.Merkle.{Bytes, bytes_eq}
use membra_l3_cpp.Artifacts.{
  IpfsConfig, ArtifactAttestation, returned, http_get, retrieve_from_ipfs, verify_content_integrity,
}
use membra_l3_cpp.Artifacts.Analyzer.{analyze}
use membra_l3_cpp.Artifacts.Attesting.{create_artifact_attestation, verify_artifact_attestation}

-- An attestation of a content verifies if and only if the content has the hash of the empty one: the
-- verifier fetches no bytes, whatever was uploaded.
pub create_artifact_attestation-verify :
    (sha256 : Bytes → Bytes) (config : IpfsConfig) (content : Bytes) (format creator : String)
    (metadata : Dict String) (now ms : ℕ) (a : ArtifactAttestation)
    → create_artifact_attestation sha256 config content format creator metadata now ms ≡ returned a
    → verify_artifact_attestation sha256 config a ≡ bytes_eq (sha256 []) (sha256 content)
unfolding create_artifact_attestation verify_artifact_attestation verify_content_integrity
    retrieve_from_ipfs http_get analyze
create_artifact_attestation-verify sha256 config content format creator metadata now ms a h =
    ground arith
