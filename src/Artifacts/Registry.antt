-- ===== src/Artifacts/Registry.antt =====
-- `ArtifactRegistry` of src/ipfs_verifier.cpp. Both maps are `std::map`s. Loading and saving the state and
-- the request to the oracle are placeholders in the source that change nothing else.
pub mod Uniqueness
pub mod Listing
use Prim.Native.String.{◌++◌}
use mathlib.Core.List.{◌++◌ as append_lists}
use membra_l3_cpp.Base.{
  ℕ, ◌+◌, String, str_eq, Bool, true, false, not, ◌&&◌, ◌||◌, Option, none, some, List, [], ◌∷◌,
  leb, length, if◌then◌else◌,
}
use membra_l3_cpp.Base.Bytes.{hash_to_hex}
use membra_l3_cpp.Base.Dict.{Dict, lookup, insert}
use membra_l3_cpp.Base.Ordered.{in_key_order}
use membra_l3_cpp.Base.Word.{add64}
use membra_l3_cpp.Merkle.{Bytes}
use membra_l3_cpp.Artifacts.{ArtifactAttestation, Outcome, returned, thrown, ◌>>=◌, Files}
use membra_l3_cpp.Artifacts.Analyzer.{generate_perceptual_hash, perceptual_hash_of_file}

-- `perceptual_hashes` goes from a perceptual hash to the id of its attestation.
pub record ArtifactRegistry : Type 0 where
  pub attestations : Dict ArtifactAttestation
  pub perceptual_hashes : Dict String

abbrev pub new_registry : ArtifactRegistry
new_registry = record { attestations = []; perceptual_hashes = [] }

unfoldable pub submit_to_oracle : ArtifactAttestation → ArtifactAttestation
submit_to_oracle a = record a { oracle_signature = "mock_oracle_signature_" ++ a.attestation_id }

-- The id, the caller's attestation as the call leaves it, and the registry, which has a copy of the
-- attestation that was passed in.
unfoldable pub register_artifact :
    ArtifactRegistry
    → ArtifactAttestation
    → Outcome (String × ArtifactAttestation × ArtifactRegistry)
register_artifact reg a =
    let hash = hash_to_hex a.perceptual_hash in
    elim (lookup hash reg.perceptual_hashes) [
      | some id ↦ thrown "Duplicate artifact detected"
      | none ↦ returned (
        a.attestation_id,
        submit_to_oracle (record a { verification_status = "verified" }),
        record {
          attestations = insert a.attestation_id a reg.attestations;
          perceptual_hashes = insert hash a.attestation_id reg.perceptual_hashes;
        },
      )
    ]

-- `nullptr` is `none`.
unfoldable pub get_attestation : ArtifactRegistry → String → Option ArtifactAttestation
get_attestation reg id = lookup id reg.attestations

abbrev is_absent : Option String → Bool
is_absent none = true
is_absent (some id) = false

module _ (sha256 : Bytes → Bytes) where
  unfoldable pub verify_artifact_uniqueness : ArtifactRegistry → Bytes → Bool
  verify_artifact_uniqueness reg content =
      is_absent
        (lookup (hash_to_hex (generate_perceptual_hash sha256 content)) reg.perceptual_hashes)

  unfoldable pub verify_file_uniqueness : Files → ArtifactRegistry → String → Outcome Bool
  verify_file_uniqueness files reg path = perceptual_hash_of_file sha256 files path >>= λ hash.
      returned (is_absent (lookup (hash_to_hex hash) reg.perceptual_hashes))

-- Whether neither `continue` is taken.
abbrev pub is_listed : String → String → ArtifactAttestation → Bool
is_listed artifact_type creator a =
    (str_eq artifact_type "" || str_eq a.artifact_type artifact_type)
    && (str_eq creator "" || str_eq a.creator_wallet creator)

-- The loop of `list_artifacts`, with the results so far.
unfoldable pub list_loop :
    String
    → String
    → ℕ
    → List ArtifactAttestation
    → Dict ArtifactAttestation
    → List ArtifactAttestation
list_loop artifact_type creator limit results [] = results
list_loop artifact_type creator limit results ((id, a) ∷ rest) =
    let pushed = append_lists results (a ∷ []) in
    let skipping = list_loop artifact_type creator limit results rest in
    let going_on = list_loop artifact_type creator limit pushed rest in
    if is_listed artifact_type creator a
    then (if leb limit (length pushed) then pushed else going_on)
    else skipping

unfoldable pub list_artifacts : ArtifactRegistry → String → String → ℕ → List ArtifactAttestation
list_artifacts reg artifact_type creator limit =
    list_loop artifact_type creator limit [] (in_key_order reg.attestations)

pub record RegistryStats : Type 0 where
  pub total_attestations : ℕ
  pub audio_count : ℕ
  pub video_count : ℕ
  pub unique_creators : ℕ

-- The two counters from the values that they have before the loop.
count_types : Dict ArtifactAttestation → ℕ → ℕ → ℕ × ℕ
count_types [] audio video = (audio, video)
count_types ((id, a) ∷ rest) audio video =
    if str_eq a.artifact_type "audio"
    then count_types rest (add64 audio 1) video
    else if str_eq a.artifact_type "video"
    then count_types rest audio (add64 video 1)
    else count_types rest audio video

abbrev pub is_member : String → List String → Bool
is_member x [] = false
is_member x (y ∷ ys) = str_eq y x || is_member x ys

-- `std::set::insert` for each creator.
unfoldable pub creators_of : Dict ArtifactAttestation → List String → List String
creators_of [] seen = seen
creators_of ((id, a) ∷ rest) seen =
    creators_of rest (if is_member a.creator_wallet seen then seen else a.creator_wallet ∷ seen)

-- The counters of audio and video are not initialised: they start with what the arguments give.
unfoldable pub get_stats : ArtifactRegistry → ℕ → ℕ → RegistryStats
unfolding count_types
get_stats reg audio video =
    let (audio', video') = count_types (in_key_order reg.attestations) audio video in
    record {
      total_attestations = length reg.attestations;
      audio_count = audio';
      video_count = video';
      unique_creators = length (creators_of (in_key_order reg.attestations) []);
    }
