-- ===== src/Artifacts/Attesting.antt =====
-- `ProvenanceAttestationBuilder` of src/ipfs_verifier.cpp, for artifacts. `now` and `ms` are the readings
-- of the clock for the analysis and for the id. A file does not change during a call.
use Prim.Native.String.{◌++◌}
use membra_l3_cpp.Base.{ℕ, String, str_eq, Bool, if◌then◌else◌}
use membra_l3_cpp.Base.Bytes.{bytes_of, hash_to_hex, take}
use membra_l3_cpp.Base.Decimal.{to_string}
use membra_l3_cpp.Base.Dict.{Dict}
use membra_l3_cpp.Merkle.{Bytes}
use membra_l3_cpp.Artifacts.{
  IpfsConfig, ArtifactAnalysis, ArtifactAttestation, Outcome, returned, thrown, ◌>>=◌, Files,
  upload_to_ipfs, upload_file_to_ipfs, verify_content_integrity,
}
use membra_l3_cpp.Artifacts.Analyzer.{
  type_of_extension, detect_artifact_type, analyze, analyze_file, generate_perceptual_hash,
  perceptual_hash_of_file,
}

module _ (sha256 : Bytes → Bytes) where
  unfoldable pub generate_attestation_id : String → String → ℕ → String
  generate_attestation_id cid creator ms =
      hash_to_hex (take 16 (sha256 (bytes_of (cid ++ (creator ++ to_string ms)))))

  -- The attestation of an analysis.
  abbrev pub attestation_of :
      ArtifactAnalysis
      → String
      → String
      → Bytes
      → String
      → String
      → Dict String
      → ℕ
      → ArtifactAttestation
  attestation_of analysis kind cid perceptual format creator metadata ms = record {
    attestation_id = generate_attestation_id cid creator ms;
    artifact_type = kind;
    ipfs_cid = cid;
    content_hash = analysis.content_hash;
    perceptual_hash = perceptual;
    size_bytes = analysis.size_bytes;
    format = format;
    creator_wallet = creator;
    created_at = analysis.timestamp;
    metadata = metadata;
    verification_status = "pending";
    oracle_signature = "";
  }

  unfoldable pub create_artifact_attestation :
      IpfsConfig → Bytes → String → String → Dict String → ℕ → ℕ → Outcome ArtifactAttestation
  create_artifact_attestation config content format creator metadata now ms =
      let kind = type_of_extension ("." ++ format) in
      if str_eq kind "unknown"
      then thrown "Unsupported format"
      else returned (
          attestation_of (analyze sha256 kind content format now) kind
            (upload_to_ipfs sha256 config content) (generate_perceptual_hash sha256 content) format
            creator metadata ms)

  unfoldable pub attest_file :
      Files → IpfsConfig → String → String → Dict String → ℕ → ℕ → Outcome ArtifactAttestation
  attest_file files config path creator metadata now ms =
      let kind = detect_artifact_type path in
      if str_eq kind "unknown" then thrown "Unsupported file type" else (do
        analysis ← analyze_file sha256 files kind path now
        cid ← upload_file_to_ipfs sha256 files config path
        perceptual ← perceptual_hash_of_file sha256 files path
        returned (attestation_of analysis kind cid perceptual analysis.format creator metadata ms))

  unfoldable pub verify_artifact_attestation : IpfsConfig → ArtifactAttestation → Bool
  verify_artifact_attestation config attestation =
      verify_content_integrity sha256 config attestation.ipfs_cid attestation.content_hash
