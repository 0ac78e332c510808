-- ===== src/Artifacts/Tests.antt =====
-- Artifacts, src/ipfs_verifier.cpp, at concrete inputs, with a short checksum in the place of SHA-256.
use membra_l3_cpp.Base.{
  inl, inr, ◌%◌, ◌≡◌, refl, ◌⊎◌, true, false, some, none, [], ◌∷◌, length, replicate,
}
use membra_l3_cpp.Base.Bytes.{bytes_of}
use membra_l3_cpp.Base.Dict.{lookup}
use membra_l3_cpp.Base.Ordered.{in_key_order}
use membra_l3_cpp.Merkle.{Bytes, bytes_eq}
use membra_l3_cpp.Artifacts.{
  ArtifactAttestation, returned, thrown, new_config, upload_to_ipfs, upload_to_local_ipfs,
}
use membra_l3_cpp.Artifacts.Analyzer.{
  generate_perceptual_hash, detect_magic, analyze, type_of_extension,
}
use membra_l3_cpp.Artifacts.Analyzer.Sampling.{create_artifact_attestation-verify}
use membra_l3_cpp.Artifacts.Attesting.{
  create_artifact_attestation, verify_artifact_attestation, attestation_of,
}
use membra_l3_cpp.Artifacts.Registry.{
  ArtifactRegistry, new_registry, register_artifact, get_attestation, verify_artifact_uniqueness,
  list_artifacts,
}
use membra_l3_cpp.Artifacts.Registry.Uniqueness.{
  run, register_artifact-verify_artifact_uniqueness, register_artifact-get_attestation,
}
use membra_l3_cpp.Base.Selects.{at_end, taken}
use membra_l3_cpp.Base.Ordered.{place}
use membra_l3_cpp.Artifacts.Registry.Listing.{list_artifacts_lem}

-- Thirty-two numbers: the length, filled up.
abbrev short_sha : Bytes → Bytes
short_sha xs = (length xs % 256) ∷ replicate 31 7

-- An attestation of three bytes.
abbrev tune : ArtifactAttestation
tune = record {
  attestation_id = "a1";
  artifact_type = "audio";
  ipfs_cid = "QmHash123456789";
  content_hash = short_sha (1 ∷ 2 ∷ 3 ∷ []);
  perceptual_hash = generate_perceptual_hash short_sha (1 ∷ 2 ∷ 3 ∷ []);
  size_bytes = 3;
  format = "mp3";
  creator_wallet = "alice";
  created_at = 5;
  metadata = [];
  verification_status = "pending";
  oracle_signature = "";
}

abbrev one_tune : ArtifactRegistry
one_tune = record { attestations = ("a1", tune) ∷ []; perceptual_hashes = [] }

register_artifact-verify_artifact_uniqueness_example :
    ((verify_artifact_uniqueness short_sha new_registry (1 ∷ 2 ∷ 3 ∷ []) ≡ true)
      × ((a' : ArtifactAttestation) × (reg' : ArtifactRegistry) × (register_artifact new_registry
              tune
            ≡ returned ("a1", a', reg'))
          × (verify_artifact_uniqueness short_sha (run reg' (tune ∷ [])) (1 ∷ 2 ∷ 3 ∷ []) ≡ false)))
    ⊎ ((verify_artifact_uniqueness short_sha new_registry (1 ∷ 2 ∷ 3 ∷ []) ≡ false)
        × (register_artifact new_registry tune ≡ thrown "Duplicate artifact detected"))
register_artifact-verify_artifact_uniqueness_example =
    register_artifact-verify_artifact_uniqueness short_sha new_registry (1 ∷ 2 ∷ 3 ∷ []) tune
      (tune ∷ []) refl

register_artifact-get_attestation_example :
    (a' : ArtifactAttestation) × (reg' : ArtifactRegistry) × (register_artifact new_registry tune
      ≡ returned ("a1", a', reg'))
    × (a' ≡ record tune {
      verification_status = "verified";
      oracle_signature = "mock_oracle_signature_a1";
    })
    × (get_attestation reg' "a1" ≡ some tune)
unfolding lookup
register_artifact-get_attestation_example = register_artifact-get_attestation new_registry tune refl

-- The limit 0 counts as 1.
list_artifacts_example : list_artifacts one_tune "audio" "" 0 ≡ tune ∷ []
unfolding in_key_order place
list_artifacts_example =
    list_artifacts_lem one_tune "audio" "" 0 (tune ∷ []) (taken tune (inr refl, inl refl) at_end)

-- What `create_artifact_attestation` makes of two bytes.
abbrev uploaded : ArtifactAttestation
uploaded =
    attestation_of short_sha (analyze short_sha "audio" (1 ∷ 2 ∷ []) "mp3" 5) "audio"
      "QmHash123456789" (generate_perceptual_hash short_sha (1 ∷ 2 ∷ [])) "mp3" "alice" [] 6

create_artifact_attestation-verify_example :
    verify_artifact_attestation short_sha new_config uploaded
    ≡ bytes_eq (short_sha []) (short_sha (1 ∷ 2 ∷ []))
unfolding create_artifact_attestation type_of_extension bytes_eq bytes_of upload_to_ipfs
    upload_to_local_ipfs
create_artifact_attestation-verify_example =
    create_artifact_attestation-verify short_sha new_config (1 ∷ 2 ∷ []) "mp3" "alice" [] 5 6
      uploaded refl

-- Four bytes that are neither MP3 nor WAV: the test for MP4 reads past the end.
detect_magic-short : detect_magic (1 ∷ 2 ∷ 3 ∷ 4 ∷ []) ≡ none
unfolding detect_magic
detect_magic-short = refl
